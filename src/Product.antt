-- ===== src/Product.antt =====
-- The kinds of devices and of links, and the tables that create objects by a key:
-- include/JUB_SDK_DEV.h, include/JUB_SDK_COMM.h, include/utility/xFactory.hpp, include/device/*.hpp.
pub mod Devices
pub mod Factory
pub mod Blocks
pub mod Types
pub mod Create
pub mod Tokens
pub mod Contexts
pub mod ContextFactories
mod Tests
use jubiter_sdk_c.Common.{
  ℕ, zero, suc, ◌+◌, ◌*◌, ◌^◌, ◌≡◌, refl, Bool, true, false, Option, none, some, List, [], ◌∷◌,
  ◌==◌, ==_self, if◌then◌else◌,
}
use mathlib.Core.List.{foldl}

-- `JUB_ENUM_COMMODE`.
pub data CommMode : Type 0 where
  commode_ns_item swi hid ble nfc sim : CommMode

-- `JUB_ENUM_DEVICE`.
pub data DeviceType : Type 0 where
  device_ns_item vd blade bio lite : DeviceType

unfoldable pub mode_value : CommMode → ℕ
mode_value commode_ns_item = 0x00
mode_value swi = 0x01
mode_value hid = 0x02
mode_value ble = 0x03
mode_value nfc = 0x04
mode_value sim = 0x05

unfoldable pub type_value : DeviceType → ℕ
type_value device_ns_item = 0x00
type_value vd = 0x01
type_value blade = 0x02
type_value bio = 0x03
type_value lite = 0x04

-- The modes that a build defines.
pub record Build : Type 0 where
  pub sim_mode : Bool
  pub swi_mode : Bool
  pub hid_mode : Bool
  pub ble_mode : Bool
  pub nfc_mode : Bool

-- The builds that JUB_SDK_COMM.h chooses by the platform.
pub data Platform : Type 0 where
  windows mac_osx ios android other : Platform

unfoldable pub platform_build : Platform → Build
platform_build windows = record {
  sim_mode = false;
  swi_mode = true;
  hid_mode = true;
  ble_mode = false;
  nfc_mode = false;
}
platform_build mac_osx = record {
  sim_mode = true;
  swi_mode = true;
  hid_mode = true;
  ble_mode = false;
  nfc_mode = false;
}
platform_build ios = record {
  sim_mode = false;
  swi_mode = true;
  hid_mode = false;
  ble_mode = true;
  nfc_mode = true;
}
platform_build android = record {
  sim_mode = false;
  swi_mode = true;
  hid_mode = false;
  ble_mode = true;
  nfc_mode = true;
}
platform_build other = record {
  sim_mode = true;
  swi_mode = true;
  hid_mode = true;
  ble_mode = false;
  nfc_mode = false;
}

-- The classes of device objects: `JubiterBridgeDevice`, `JubiterBridgeBLDDevice` and so on.
pub data DeviceClass : Type 0 where
  bridge bridge_bld bridge_bio bridge_lite swi_impl hid_bld hid_bio ble_base ble_bld ble_bio
        nfc_device :
      DeviceClass

unfoldable pub class_index : DeviceClass → ℕ
class_index bridge = 0
class_index bridge_bld = 1
class_index bridge_bio = 2
class_index bridge_lite = 3
class_index swi_impl = 4
class_index hid_bld = 5
class_index hid_bio = 6
class_index ble_base = 7
class_index ble_bld = 8
class_index ble_bio = 9
class_index nfc_device = 10

-- `typeid(a) == typeid(b)`. The classes that the factories cast to have no subclass, so it is also
-- what a `dynamic_cast` to them answers.
unfoldable pub same_typeid : DeviceClass → DeviceClass → Bool
unfolding class_index
same_typeid a b = class_index a == class_index b

-- `xFactory`: `FactoryMap`, `Register` and `Create`. A key is the value of an enumerator.
module _ {ℓ} {F : Type ℓ} where
  unfoldable pub find : List (ℕ × F) → ℕ → Option F
  find [] k = none
  find ((k', f) ∷ m) k = if k' == k then some f else find m k

  unfoldable pub register_one : List (ℕ × F) → ℕ → F → List (ℕ × F)
  register_one [] k f = (k, f) ∷ []
  register_one ((k', f') ∷ m) k f = if k' == k then (k, f) ∷ m else (k', f') ∷ register_one m k f

  -- The calls of `Register` that a constructor makes, in their order.
  unfoldable pub registered : List (ℕ × F) → List (ℕ × F)
  unfolding register_one
  registered fs = foldl (λ m kf. register_one m kf.0 kf.1) [] fs

  -- The calls of `Register` that stand under an `#if`.
  unfoldable pub registered_if : Bool → List (ℕ × F) → List (ℕ × F) → List (ℕ × F)
  unfolding register_one
  registered_if d m fs = if d then foldl (λ m' kf. register_one m' kf.0 kf.1) m fs else m
