-- ===== src/Product/Types.antt =====
-- What a handle's object is, by include/product/ProductFactory.h.
use jubiter_sdk_c.Common.{
  ◌≡◌, refl, ap, ◌∙◌, Bool, true, false, Option, none, some, if◌then◌else◌, ok, fail,
}
use jubiter_sdk_c.Status.{jubr_arguments_bad}
use jubiter_sdk_c.Product.{CommMode, DeviceType, DeviceClass, Build, same_typeid}
use jubiter_sdk_c.Product.Devices.{
  sim_enum_device, swi_enum_device, hid_enum_device, ble_enum_device, nfc_enum_device,
}
use jubiter_sdk_c.Product.{
  commode_ns_item, swi, hid, ble, nfc, sim, device_ns_item, vd, blade, bio, lite, bridge,
  bridge_bld, bridge_bio, bridge_lite, swi_impl, hid_bld, hid_bio, ble_base, ble_bld, ble_bio,
  nfc_device,
}
use jubiter_sdk_c.Product.Factory.{
  get_device_type, get_device_token, token_of, token_from, HardwareToken, jubiter_blade_token,
  jubiter_bio_token, jubiter_lite_token, probe_all, type_result, sim_known, swi_known, link_known,
  nfc_known,
}
use jubiter_sdk_c.Product.Blocks.{
  blocks_sim, blocks_swi, blocks_hid, blocks_ble, blocks_nfc, blocks_none, type_result_if,
}

-- The link and the kind of device that a class is for.
unfoldable pub class_mode : DeviceClass → CommMode
class_mode bridge_bld = sim
class_mode bridge_bio = sim
class_mode bridge_lite = sim
class_mode swi_impl = swi
class_mode hid_bld = hid
class_mode hid_bio = hid
class_mode ble_bld = ble
class_mode ble_bio = ble
class_mode nfc_device = nfc
class_mode _ = commode_ns_item

unfoldable pub class_type : DeviceClass → DeviceType
class_type bridge_bld = blade
class_type bridge_bio = bio
class_type bridge_lite = lite
class_type swi_impl = vd
class_type hid_bld = blade
class_type hid_bio = bio
class_type ble_bld = blade
class_type ble_bio = bio
class_type nfc_device = lite
class_type _ = device_ns_item

unfoldable pub defined : Build → CommMode → Bool
defined b commode_ns_item = false
defined b swi = b.swi_mode
defined b hid = b.hid_mode
defined b ble = b.ble_mode
defined b nfc = b.nfc_mode
defined b sim = b.sim_mode

-- `GetDeviceType` of an object, in every build: its own link and kind if the link is compiled in,
-- and `JUBR_ARGUMENTS_BAD` otherwise.
pub get_device_type-class :
    (b : Build) (c : DeviceClass)
    → get_device_type b (some c) ≡ (
        if defined b (class_mode c)
        then ok (class_mode c, class_type c)
        else fail jubr_arguments_bad)
unfolding get_device_type defined class_mode class_type type_result probe_all sim_known swi_known
    link_known nfc_known sim_enum_device swi_enum_device hid_enum_device ble_enum_device
    nfc_enum_device same_typeid
get_device_type-class b bridge = ap type_result (blocks_none b)
get_device_type-class b ble_base = ap type_result (blocks_none b)
get_device_type-class b bridge_bld =
    ap type_result (blocks_sim b blade refl) ∙ type_result_if b.sim_mode (sim, blade) refl
get_device_type-class b bridge_bio =
    ap type_result (blocks_sim b bio refl) ∙ type_result_if b.sim_mode (sim, bio) refl
get_device_type-class b bridge_lite =
    ap type_result (blocks_sim b lite refl) ∙ type_result_if b.sim_mode (sim, lite) refl
get_device_type-class b swi_impl =
    ap type_result (blocks_swi b vd refl) ∙ type_result_if b.swi_mode (swi, vd) refl
get_device_type-class b hid_bld =
    ap type_result (blocks_hid b blade refl) ∙ type_result_if b.hid_mode (hid, blade) refl
get_device_type-class b hid_bio =
    ap type_result (blocks_hid b bio refl) ∙ type_result_if b.hid_mode (hid, bio) refl
get_device_type-class b ble_bld =
    ap type_result (blocks_ble b blade refl) ∙ type_result_if b.ble_mode (ble, blade) refl
get_device_type-class b ble_bio =
    ap type_result (blocks_ble b bio refl) ∙ type_result_if b.ble_mode (ble, bio) refl
get_device_type-class b nfc_device =
    ap type_result (blocks_nfc b lite refl) ∙ type_result_if b.nfc_mode (nfc, lite) refl

-- The token that a class of hardware devices is driven by.
unfoldable pub class_token : DeviceClass → Option HardwareToken
class_token bridge_bld = some jubiter_blade_token
class_token bridge_bio = some jubiter_bio_token
class_token bridge_lite = some jubiter_lite_token
class_token hid_bld = some jubiter_blade_token
class_token hid_bio = some jubiter_bio_token
class_token ble_bld = some jubiter_blade_token
class_token ble_bio = some jubiter_bio_token
class_token nfc_device = some jubiter_lite_token
class_token _ = none

token_of-class : (c : DeviceClass) → token_of (class_mode c) (class_type c) ≡ class_token c
unfolding token_of class_mode class_type class_token
token_of-class bridge = refl
token_of-class bridge_bld = refl
token_of-class bridge_bio = refl
token_of-class bridge_lite = refl
token_of-class swi_impl = refl
token_of-class hid_bld = refl
token_of-class hid_bio = refl
token_of-class ble_base = refl
token_of-class ble_bld = refl
token_of-class ble_bio = refl
token_of-class nfc_device = refl

token_from_if :
    (d : Bool) (c : DeviceClass)
    → token_from (if d then ok (class_mode c, class_type c) else fail jubr_arguments_bad)
      ≡ (if d then class_token c else none)
unfolding token_from
token_from_if true c = token_of-class c
token_from_if false c = refl

-- `GetDeviceToken`, in every build: the token of the object's class if its link is compiled in, and
-- none otherwise, nor for the virtual device.
pub get_device_token-class :
    (b : Build) (c : DeviceClass)
    → get_device_token b (some c) ≡ (if defined b (class_mode c) then class_token c else none)
unfolding get_device_token
get_device_token-class b c =
    ap token_from (get_device_type-class b c) ∙ token_from_if (defined b (class_mode c)) c
