-- ===== src/Product/Create/Safe.antt =====
-- `CreateProduct` on the platforms that include/JUB_SDK_COMM.h knows.
use jubiter_sdk_c.Common.{ℕ, ◌≡◌, refl, true, ◌||◌, List, ◌==◌}
use jubiter_sdk_c.Product.{
  CommMode, DeviceType, Platform, platform_build, windows, mac_osx, ios, android, other,
  commode_ns_item, swi, hid, ble, nfc, sim, device_ns_item, vd, blade, bio, lite, mode_value,
  type_value, same_typeid,
}
use jubiter_sdk_c.Product.Devices.{pid2_enum_device, prefix2_enum_device}
use jubiter_sdk_c.Product.Factory.{enum_product, product_ns_item, create}
use jubiter_sdk_c.Product.Create.{
  create_device, create_product_pid, create_product_name, create_product_type, create_product_mode,
  create_product_bridge, choose_by_name, unless_none, create_bridge,
}
use jubiter_sdk_c.Product.Create.Links.{
  returned, hid_returned, ble_returned, returned-if, no_product, sim_returned,
}

pid_returned :
    (p : Platform) (pid : ℕ) (arg : List ℕ)
    → returned (create_product_pid (platform_build p) pid arg) ≡ true
unfolding create_product_pid unless_none platform_build returned
pid_returned windows pid arg =
    returned-if
      (type_value (pid2_enum_device pid) == 0
        || enum_product hid (pid2_enum_device pid) == product_ns_item)
      (create (platform_build windows) (enum_product hid (pid2_enum_device pid))
        (pid2_enum_device pid) (create_device (platform_build windows) (pid2_enum_device pid) arg))
      (hid_returned windows (pid2_enum_device pid) arg)
pid_returned mac_osx pid arg =
    returned-if
      (type_value (pid2_enum_device pid) == 0
        || enum_product hid (pid2_enum_device pid) == product_ns_item)
      (create (platform_build mac_osx) (enum_product hid (pid2_enum_device pid))
        (pid2_enum_device pid) (create_device (platform_build mac_osx) (pid2_enum_device pid) arg))
      (hid_returned mac_osx (pid2_enum_device pid) arg)
pid_returned ios pid arg = refl
pid_returned android pid arg = refl
pid_returned other pid arg =
    returned-if
      (type_value (pid2_enum_device pid) == 0
        || enum_product hid (pid2_enum_device pid) == product_ns_item)
      (create (platform_build other) (enum_product hid (pid2_enum_device pid))
        (pid2_enum_device pid) (create_device (platform_build other) (pid2_enum_device pid) arg))
      (hid_returned other (pid2_enum_device pid) arg)

-- What `CreateProduct(mode, arg)` makes of its choice.
named_returned :
    (p : Platform) (mode : CommMode) (t : DeviceType) (arg : List ℕ)
    → returned
        (create (platform_build p) (enum_product mode t) t (create_device (platform_build p) t arg))
      ≡ true
    → choose_by_name (platform_build p) mode arg ≡ (t, enum_product mode t)
    → returned (create_product_name (platform_build p) mode arg) ≡ true
unfolding create_product_name
named_returned p mode t arg h e = rw e (
    returned-if (enum_product mode t == product_ns_item)
      (create (platform_build p) (enum_product mode t) t (create_device (platform_build p) t arg))
      h)

name_returned :
    (p : Platform) (mode : CommMode) (arg : List ℕ)
    → returned (create_product_name (platform_build p) mode arg) ≡ true
unfolding create_product_name choose_by_name returned create create_device platform_build
    enum_product product_ns_item same_typeid
name_returned windows commode_ns_item arg = refl
name_returned windows swi arg = refl
name_returned windows hid arg = refl
name_returned windows ble arg = refl
name_returned windows nfc arg = refl
name_returned windows sim arg = refl
name_returned mac_osx commode_ns_item arg = refl
name_returned mac_osx swi arg = refl
name_returned mac_osx hid arg = refl
name_returned mac_osx ble arg = refl
name_returned mac_osx nfc arg = refl
name_returned mac_osx sim arg = refl
name_returned ios commode_ns_item arg = refl
name_returned ios swi arg = refl
name_returned ios hid arg =
    named_returned ios hid (prefix2_enum_device arg) arg
      (hid_returned ios (prefix2_enum_device arg) arg) refl
name_returned ios ble arg =
    named_returned ios ble (prefix2_enum_device arg) arg
      (ble_returned ios (prefix2_enum_device arg) arg) refl
name_returned ios nfc arg = refl
name_returned ios sim arg = refl
name_returned android commode_ns_item arg = refl
name_returned android swi arg = refl
name_returned android hid arg =
    named_returned android hid (prefix2_enum_device arg) arg
      (hid_returned android (prefix2_enum_device arg) arg) refl
name_returned android ble arg =
    named_returned android ble (prefix2_enum_device arg) arg
      (ble_returned android (prefix2_enum_device arg) arg) refl
name_returned android nfc arg = refl
name_returned android sim arg = refl
name_returned other commode_ns_item arg = refl
name_returned other swi arg = refl
name_returned other hid arg = refl
name_returned other ble arg = refl
name_returned other nfc arg = refl
name_returned other sim arg = refl

type_returned :
    (p : Platform) (t : DeviceType) → returned (create_product_type (platform_build p) t) ≡ true
unfolding create_product_type returned create platform_build enum_product product_ns_item
    same_typeid
type_returned windows device_ns_item = refl
type_returned windows vd = refl
type_returned windows blade = refl
type_returned windows bio = refl
type_returned windows lite = refl
type_returned mac_osx device_ns_item = refl
type_returned mac_osx vd = refl
type_returned mac_osx blade = refl
type_returned mac_osx bio = refl
type_returned mac_osx lite = refl
type_returned ios device_ns_item = refl
type_returned ios vd = refl
type_returned ios blade = refl
type_returned ios bio = refl
type_returned ios lite = refl
type_returned android device_ns_item = refl
type_returned android vd = refl
type_returned android blade = refl
type_returned android bio = refl
type_returned android lite = refl
type_returned other device_ns_item = refl
type_returned other vd = refl
type_returned other blade = refl
type_returned other bio = refl
type_returned other lite = refl

mode_returned :
    (p : Platform) (mode : CommMode) → returned (create_product_mode (platform_build p) mode) ≡ true
unfolding create_product_mode unless_none returned create platform_build enum_product
    product_ns_item same_typeid
mode_returned windows commode_ns_item = refl
mode_returned windows swi = refl
mode_returned windows hid = refl
mode_returned windows ble = refl
mode_returned windows nfc = refl
mode_returned windows sim = refl
mode_returned mac_osx commode_ns_item = refl
mode_returned mac_osx swi = refl
mode_returned mac_osx hid = refl
mode_returned mac_osx ble = refl
mode_returned mac_osx nfc = refl
mode_returned mac_osx sim = refl
mode_returned ios commode_ns_item = refl
mode_returned ios swi = refl
mode_returned ios hid = refl
mode_returned ios ble = refl
mode_returned ios nfc = refl
mode_returned ios sim = refl
mode_returned android commode_ns_item = refl
mode_returned android swi = refl
mode_returned android hid = refl
mode_returned android ble = refl
mode_returned android nfc = refl
mode_returned android sim = refl
mode_returned other commode_ns_item = refl
mode_returned other swi = refl
mode_returned other hid = refl
mode_returned other ble = refl
mode_returned other nfc = refl
mode_returned other sim = refl

bridge_returned :
    (p : Platform) (mode : CommMode) (t : DeviceType) (arg1 arg2 : List ℕ)
    → returned (create_product_bridge (platform_build p) mode t arg1 arg2) ≡ true
unfolding create_product_bridge
bridge_returned p commode_ns_item t arg1 arg2 =
    returned-if
      (mode_value commode_ns_item == 0 || type_value t == 0 || product_ns_item == product_ns_item)
      (create (platform_build p) (product_ns_item) t
        (create_bridge (platform_build p) commode_ns_item t arg1 arg2))
      (no_product p t (create_bridge (platform_build p) commode_ns_item t arg1 arg2))
bridge_returned p swi t arg1 arg2 =
    returned-if (mode_value swi == 0 || type_value t == 0 || product_ns_item == product_ns_item)
      (create (platform_build p) (product_ns_item) t
        (create_bridge (platform_build p) swi t arg1 arg2))
      (no_product p t (create_bridge (platform_build p) swi t arg1 arg2))
bridge_returned p hid t arg1 arg2 =
    returned-if (mode_value hid == 0 || type_value t == 0 || product_ns_item == product_ns_item)
      (create (platform_build p) (product_ns_item) t
        (create_bridge (platform_build p) hid t arg1 arg2))
      (no_product p t (create_bridge (platform_build p) hid t arg1 arg2))
bridge_returned p ble t arg1 arg2 =
    returned-if (mode_value ble == 0 || type_value t == 0 || product_ns_item == product_ns_item)
      (create (platform_build p) (product_ns_item) t
        (create_bridge (platform_build p) ble t arg1 arg2))
      (no_product p t (create_bridge (platform_build p) ble t arg1 arg2))
bridge_returned p nfc t arg1 arg2 =
    returned-if (mode_value nfc == 0 || type_value t == 0 || product_ns_item == product_ns_item)
      (create (platform_build p) (product_ns_item) t
        (create_bridge (platform_build p) nfc t arg1 arg2))
      (no_product p t (create_bridge (platform_build p) nfc t arg1 arg2))
bridge_returned p sim t arg1 arg2 =
    returned-if (mode_value sim == 0 || type_value t == 0 || enum_product sim t == product_ns_item)
      (create (platform_build p) (enum_product sim t) t
        (create_bridge (platform_build p) sim t arg1 arg2))
      (sim_returned p t arg1 arg2)

-- On every platform, each of the five `CreateProduct` returns, whatever it is asked for: none of them
-- follows a null pointer.
pub create_products_returned :
    (p : Platform) (pid : ℕ) (mode : CommMode) (t : DeviceType) (arg1 arg2 : List ℕ)
    → (returned (create_product_pid (platform_build p) pid arg1) ≡ true)
      × (returned (create_product_name (platform_build p) mode arg1) ≡ true)
      × (returned (create_product_type (platform_build p) t) ≡ true)
      × (returned (create_product_mode (platform_build p) mode) ≡ true)
      × (returned (create_product_bridge (platform_build p) mode t arg1 arg2) ≡ true)
create_products_returned p pid mode t arg1 arg2 = (
  pid_returned p pid arg1,
  name_returned p mode arg1,
  type_returned p t,
  mode_returned p mode,
  bridge_returned p mode t arg1 arg2,
)
