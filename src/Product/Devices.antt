-- ===== src/Product/Devices.antt =====
-- include/device/DeviceFactory.h: the factory of each link, and `xDeviceFactory`.
use jubiter_sdk_c.Common.{
  ℕ, Bool, true, false, ◌||◌, Option, none, some, List, [], ◌∷◌, ◌==◌, if◌then◌else◌,
}
use jubiter_sdk_c.Product.{DeviceType, DeviceClass, type_value, same_typeid, find, registered}
use jubiter_sdk_c.Product.{
  device_ns_item, vd, blade, bio, lite, bridge, bridge_bld, bridge_bio, bridge_lite, swi_impl,
  hid_bld, hid_bio, ble_base, ble_bld, ble_bio, nfc_device,
}

-- A device object: its class, and the path or name (and for a bridge the address) it keeps.
pub record Device : Type 0 where
  pub class : DeviceClass
  pub ip : List ℕ
  pub name : List ℕ

abbrev pub pid_bld : ℕ
pid_bld = 0x0891

abbrev pub pid_bio : ℕ
pid_bio = 0x0893

-- "JuBiter", "JuBio", "hpy2" and "HPYG2".
abbrev pub prefix_bld : List ℕ
prefix_bld = 0x4A ∷ 0x75 ∷ 0x42 ∷ 0x69 ∷ 0x74 ∷ 0x65 ∷ 0x72 ∷ []

abbrev pub prefix_bio : List ℕ
prefix_bio = 0x4A ∷ 0x75 ∷ 0x42 ∷ 0x69 ∷ 0x6F ∷ []

abbrev pub prefix_hpy2 : List ℕ
prefix_hpy2 = 0x68 ∷ 0x70 ∷ 0x79 ∷ 0x32 ∷ []

abbrev pub prefix_hpyg2 : List ℕ
prefix_hpyg2 = 0x48 ∷ 0x50 ∷ 0x59 ∷ 0x47 ∷ 0x32 ∷ []

unfoldable pub starts_with : List ℕ → List ℕ → Bool
starts_with s [] = true
starts_with [] (p ∷ ps) = false
starts_with (c ∷ s) (p ∷ ps) = if c == p then starts_with s ps else false

-- `npos != s.find(p)`.
unfoldable pub contains : List ℕ → List ℕ → Bool
unfolding starts_with
contains [] p = starts_with [] p
contains (c ∷ s) p = if starts_with (c ∷ s) p then true else contains s p

-- `xSIMDeviceFactory::GetEnumDevice`.
unfoldable pub sim_enum_device : DeviceClass → DeviceType
sim_enum_device c =
    if same_typeid bridge_bld c
    then blade
    else if same_typeid bridge_bio c
    then bio
    else if same_typeid bridge_lite c
    then lite
    else device_ns_item

unfoldable pub swi_enum_device : DeviceClass → DeviceType
swi_enum_device c = if same_typeid swi_impl c then vd else device_ns_item

unfoldable pub hid_enum_device : DeviceClass → DeviceType
hid_enum_device c =
    if same_typeid hid_bld c then blade else if same_typeid hid_bio c then bio else device_ns_item

unfoldable pub ble_enum_device : DeviceClass → DeviceType
ble_enum_device c =
    if same_typeid ble_bld c then blade else if same_typeid ble_bio c then bio else device_ns_item

unfoldable pub nfc_enum_device : DeviceClass → DeviceType
nfc_enum_device c = if same_typeid nfc_device c then lite else device_ns_item

-- `xHidDeviceFactory::PID2EnumDevice`.
unfoldable pub pid2_enum_device : ℕ → DeviceType
pid2_enum_device pid =
    if pid == pid_bld then blade else if pid == pid_bio then bio else device_ns_item

-- `xHidDeviceFactory::CheckTypeid`.
unfoldable pub hid_check_typeid : ℕ → DeviceClass → Bool
unfolding pid2_enum_device
hid_check_typeid pid c = elim (pid2_enum_device pid) [
  | blade ↦ same_typeid hid_bld c
  | bio ↦ same_typeid hid_bio c
  | _ ↦ false
]

-- `xBLEDeviceFactory::Prefix2EnumDevice`.
unfoldable pub prefix2_enum_device : List ℕ → DeviceType
unfolding contains
prefix2_enum_device name =
    if contains name prefix_bld
    then blade
    else if contains name prefix_bio || contains name prefix_hpy2 || contains name prefix_hpyg2
    then bio
    else device_ns_item

-- The second `xBLEDeviceFactory::CheckTypeid`.
unfoldable pub ble_check_typeid : List ℕ → DeviceClass → Bool
unfolding prefix2_enum_device
ble_check_typeid uuid c = elim (prefix2_enum_device uuid) [
  | blade ↦ same_typeid ble_bld c
  | bio ↦ same_typeid ble_bio c
  | _ ↦ same_typeid ble_base c
]

-- The functions that create the shared device objects.
abbrev pub make : DeviceClass → List ℕ → Option Device
make c name = some (record { class = c; ip = []; name = name })

-- `JubiterBLEBLDDevice::Create`: every name is accepted that does not start with the prefix.
unfoldable pub create_ble_bld : List ℕ → Option Device
unfolding starts_with
create_ble_bld name = if starts_with name prefix_bld then none else make ble_bld []

unfoldable pub create_ble_bio : List ℕ → Option Device
unfolding contains
create_ble_bio name =
    if contains name prefix_bio || contains name prefix_hpy2 || contains name prefix_hpyg2
    then make ble_bio []
    else none

-- The factories' maps, and `Create` on them.
unfoldable pub sim_factory : List (ℕ × DeviceClass)
unfolding registered type_value
sim_factory = registered (
    (type_value blade, bridge_bld)
    ∷ (type_value bio, bridge_bio)
    ∷ (type_value lite, bridge_lite)
    ∷ [])

unfoldable pub swi_factory : List (ℕ × DeviceClass)
unfolding registered type_value
swi_factory = registered ((type_value vd, swi_impl) ∷ [])

unfoldable pub hid_factory : List (ℕ × DeviceClass)
unfolding registered type_value
hid_factory = registered ((type_value blade, hid_bld) ∷ (type_value bio, hid_bio) ∷ [])

unfoldable pub ble_factory : List (ℕ × (List ℕ → Option Device))
unfolding registered type_value create_ble_bld create_ble_bio
ble_factory =
    registered ((type_value blade, create_ble_bld) ∷ (type_value bio, create_ble_bio) ∷ [])

unfoldable pub nfc_factory : List (ℕ × DeviceClass)
unfolding registered type_value
nfc_factory = registered ((type_value lite, nfc_device) ∷ [])

unfoldable pub create_by : List (ℕ × DeviceClass) → DeviceType → List ℕ → List ℕ → Option Device
unfolding find type_value
create_by factory type ip name = elim (find factory (type_value type)) [
  | none ↦ none
  | some c ↦ some (record { class = c; ip = ip; name = name })
]

unfoldable pub create_ble : DeviceType → List ℕ → Option Device
unfolding find type_value ble_factory
create_ble type name = elim (find ble_factory (type_value type)) [ none ↦ none | some f ↦ f name ]

-- `CheckTypeid` of a bridge, a Bluetooth device and an NFC device, and `EnumPID`.
unfoldable pub sim_check_typeid : DeviceClass → Bool
unfolding same_typeid
sim_check_typeid c =
    same_typeid bridge c
    || same_typeid bridge_bld c
    || same_typeid bridge_bio c
    || same_typeid bridge_lite c

unfoldable pub ble_check_class : DeviceClass → Bool
unfolding same_typeid
ble_check_class c = same_typeid ble_base c || same_typeid ble_bld c || same_typeid ble_bio c

unfoldable pub nfc_check_typeid : DeviceClass → Bool
unfolding same_typeid
nfc_check_typeid c = same_typeid nfc_device c

unfoldable pub enum_pid : List ℕ
enum_pid = pid_bld ∷ pid_bio ∷ []
