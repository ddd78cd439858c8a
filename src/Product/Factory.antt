-- ===== src/Product/Factory.antt =====
-- include/product/ProductFactory.h: `xProductFactory`, with the `Create` of the device classes.
use jubiter_sdk_c.Common.{
  ℕ, ◌+◌, ◌*◌, ◌^◌, Bool, true, false, ◌&&◌, ◌||◌, Option, none, some, List, [], ◌∷◌, ◌==◌,
  if◌then◌else◌, Outcome, ok, fail, fault,
}
use jubiter_sdk_c.Status.{jubr_arguments_bad, jubr_memory_null_ptr}
use jubiter_sdk_c.Product.{
  CommMode, DeviceType, DeviceClass, Build, mode_value, type_value, same_typeid, find,
  registered_if,
}
use jubiter_sdk_c.Product.{
  commode_ns_item, swi, hid, ble, nfc, sim, device_ns_item, vd, blade, bio, lite, bridge,
  bridge_bld, bridge_bio, bridge_lite, swi_impl, hid_bld, hid_bio, ble_base, ble_bld, ble_bio,
  nfc_device,
}
use jubiter_sdk_c.Product.Devices.{
  Device, sim_enum_device, swi_enum_device, hid_enum_device, ble_enum_device, nfc_enum_device,
}

-- `EnumProduct2EnumDevice`: a `JUB_ENUM_PRODUCT` from a mode and a type.
unfoldable pub enum_product : CommMode → DeviceType → ℕ
unfolding mode_value type_value
enum_product mode type = mode_value mode * 2 ^ 16 + type_value type

unfoldable pub product_ns_item : ℕ
unfolding enum_product
product_ns_item = enum_product commode_ns_item device_ns_item

abbrev is_none : CommMode × DeviceType → Bool
unfolding mode_value type_value
is_none (mode, type) = mode_value mode == 0 && type_value type == 0

-- One `switch` of `GetDeviceType`: a type that the link's factory knows is stored with the mode.
switch_type : (DeviceType → Bool) → CommMode → DeviceType → CommMode × DeviceType
switch_type known mode type = if known type then (mode, type) else (commode_ns_item, device_ns_item)

-- One block of `GetDeviceType`, compiled if its mode is defined, and passed over once a type is found.
unfoldable pub probe :
    Bool
    → (DeviceType → Bool)
    → CommMode
    → DeviceType
    → CommMode × DeviceType
    → CommMode × DeviceType
unfolding switch_type is_none
probe defined known mode type found =
    if defined && is_none found then switch_type known mode type else found

unfoldable pub sim_known : DeviceType → Bool
sim_known blade = true
sim_known bio = true
sim_known lite = true
sim_known _ = false

unfoldable pub swi_known : DeviceType → Bool
swi_known vd = true
swi_known _ = false

-- For HID and for BLE.
unfoldable pub link_known : DeviceType → Bool
link_known blade = true
link_known bio = true
link_known _ = false

unfoldable pub nfc_known : DeviceType → Bool
nfc_known lite = true
nfc_known _ = false

-- The blocks of `GetDeviceType` in their order, with what each link's factory says of the object.
unfoldable pub blocks :
    Build → DeviceType → DeviceType → DeviceType → DeviceType → DeviceType → CommMode × DeviceType
unfolding probe sim_known swi_known link_known nfc_known
blocks b by_sim by_swi by_hid by_ble by_nfc =
    let found0 : CommMode × DeviceType = (commode_ns_item, device_ns_item) in
    let found1 = probe b.sim_mode sim_known sim by_sim found0 in
    let found2 = probe b.swi_mode swi_known swi by_swi found1 in
    let found3 = probe b.hid_mode link_known hid by_hid found2 in
    let found4 = probe b.ble_mode link_known ble by_ble found3 in
    probe b.nfc_mode nfc_known nfc by_nfc found4

unfoldable pub probe_all : Build → DeviceClass → CommMode × DeviceType
unfolding blocks same_typeid sim_enum_device swi_enum_device hid_enum_device ble_enum_device
    nfc_enum_device
probe_all b c =
    blocks b (sim_enum_device c) (swi_enum_device c) (hid_enum_device c) (ble_enum_device c)
      (nfc_enum_device c)

-- The last test of `GetDeviceType`.
unfoldable pub type_result : CommMode × DeviceType → Outcome (CommMode × DeviceType)
unfolding mode_value type_value
type_result (mode, type) =
    if mode_value mode == 0 || type_value type == 0
    then fail jubr_arguments_bad
    else ok (mode, type)

-- `GetDeviceType` of a handle's object; `none` for a handle that is not in use.
unfoldable pub get_device_type : Build → Option DeviceClass → Outcome (CommMode × DeviceType)
unfolding type_result probe_all
get_device_type b none = fail jubr_memory_null_ptr
get_device_type b (some c) = type_result (probe_all b c)

-- The token classes that `GetDeviceToken` makes.
pub data HardwareToken : Type 0 where
  jubiter_blade_token jubiter_bio_token jubiter_lite_token : HardwareToken

unfoldable pub token_of : CommMode → DeviceType → Option HardwareToken
token_of sim blade = some jubiter_blade_token
token_of sim bio = some jubiter_bio_token
token_of sim lite = some jubiter_lite_token
token_of hid blade = some jubiter_blade_token
token_of hid bio = some jubiter_bio_token
token_of ble blade = some jubiter_blade_token
token_of ble bio = some jubiter_bio_token
token_of nfc lite = some jubiter_lite_token
token_of _ _ = none

-- `GetDeviceToken`, from what `GetDeviceType` returned.
unfoldable pub token_from : Outcome (CommMode × DeviceType) → Option HardwareToken
unfolding token_of
token_from (ok (mode, type)) = token_of mode type
token_from _ = none

unfoldable pub get_device_token : Build → Option DeviceClass → Option HardwareToken
unfolding get_device_type token_from
get_device_token b device = token_from (get_device_type b device)

-- `new C(dynamic_pointer_cast<C>(devicePtr)->getPath())`: a null pointer is followed if the shared
-- object is none, or of another class.
unfoldable pub recreate : DeviceClass → Option Device → Outcome (Option Device)
recreate c none = fault
recreate c (some d) =
    if same_typeid c d.class
    then ok (some (record { class = c; ip = d.ip; name = d.name }))
    else fault

-- The object that the `case` of a class's `Create` returns: a new one, or its singleton.
unfoldable pub construct : DeviceClass → Option Device → Outcome (Option Device)
unfolding recreate
construct bridge d = ok none
construct ble_base d = ok none
construct hid_bio none = ok none
construct ble_bld d = ok (some (record { class = ble_bld; ip = []; name = [] }))
construct ble_bio d = ok (some (record { class = ble_bio; ip = []; name = [] }))
construct nfc_device d = ok (some (record { class = nfc_device; ip = []; name = [] }))
construct c d = recreate c d

-- The type that the `switch` of a class's `Create` accepts.
unfoldable pub accepted : DeviceClass → DeviceType
accepted bridge_bld = blade
accepted bridge_bio = bio
accepted bridge_lite = lite
accepted swi_impl = vd
accepted hid_bld = blade
accepted hid_bio = bio
accepted ble_bld = blade
accepted ble_bio = bio
accepted nfc_device = lite
accepted _ = device_ns_item

-- The `Create` of a class, as the product factory calls it: with the type, and the shared object.
unfoldable pub create_class : DeviceClass → DeviceType → Option Device → Outcome (Option Device)
unfolding construct accepted
create_class c type d =
    if type_value type == type_value (accepted c) then construct c d else ok none

-- The calls of `Register` of each mode.
unfoldable pub sim_products : List (ℕ × DeviceClass)
unfolding enum_product
sim_products =
    (enum_product sim blade, bridge_bld)
    ∷ (enum_product sim bio, bridge_bio)
    ∷ (enum_product sim lite, bridge_lite)
    ∷ []

unfoldable pub swi_products : List (ℕ × DeviceClass)
unfolding enum_product
swi_products = (enum_product swi vd, swi_impl) ∷ []

unfoldable pub hid_products : List (ℕ × DeviceClass)
unfolding enum_product
hid_products = (enum_product hid blade, hid_bld) ∷ (enum_product hid bio, hid_bio) ∷ []

unfoldable pub ble_products : List (ℕ × DeviceClass)
unfolding enum_product
ble_products = (enum_product ble blade, ble_bld) ∷ (enum_product ble bio, ble_bio) ∷ []

unfoldable pub nfc_products : List (ℕ × DeviceClass)
unfolding enum_product
nfc_products = (enum_product nfc lite, nfc_device) ∷ []

-- The calls of `Register` that the build compiles.
unfoldable pub product_factory : Build → List (ℕ × DeviceClass)
unfolding registered_if sim_products swi_products hid_products ble_products nfc_products
product_factory b =
    let m1 = registered_if b.sim_mode [] sim_products in
    let m2 = registered_if b.swi_mode m1 swi_products in
    let m3 = registered_if b.hid_mode m2 hid_products in
    let m4 = registered_if b.ble_mode m3 ble_products in registered_if b.nfc_mode m4 nfc_products

unfoldable pub create_found :
    Option DeviceClass → DeviceType → Option Device → Outcome (Option Device)
unfolding create_class
create_found none type d = ok none
create_found (some c) type d = create_class c type d

-- `Create(enumProduct, type, device)`.
unfoldable pub create : Build → ℕ → DeviceType → Option Device → Outcome (Option Device)
unfolding product_factory find create_found
create b product type d = create_found (find (product_factory b) product) type d
