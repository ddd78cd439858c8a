-- ===== src/Product/Create/Links.antt =====
-- The objects that the product factory makes of a link's shared objects, on the platforms that
-- include/JUB_SDK_COMM.h knows.
use jubiter_sdk_c.Common.{
  ℕ, ◌≡◌, refl, Bool, true, false, Option, none, List, if◌then◌else◌, Outcome, ok, fail, fault,
  stuck,
}
use jubiter_sdk_c.Product.{
  DeviceType, Platform, platform_build, windows, mac_osx, ios, android, other, hid, ble, sim,
  device_ns_item, vd, blade, bio, lite, same_typeid,
}
use jubiter_sdk_c.Product.Devices.{Device}
use jubiter_sdk_c.Product.Factory.{enum_product, product_ns_item, create}
use jubiter_sdk_c.Product.Create.{create_device, create_bridge}

-- The call returned, and followed no null pointer.
unfoldable pub returned : Outcome (Option Device) → Bool
returned (ok d) = true
returned (fail e) = true
returned fault = false
returned stuck = false

pub hid_returned :
    (p : Platform) (t : DeviceType) (arg : List ℕ)
    → returned
        (create (platform_build p) (enum_product hid t) t (create_device (platform_build p) t arg))
      ≡ true
unfolding returned create create_device platform_build enum_product same_typeid
hid_returned windows device_ns_item arg = refl
hid_returned windows vd arg = refl
hid_returned windows blade arg = refl
hid_returned windows bio arg = refl
hid_returned windows lite arg = refl
hid_returned mac_osx device_ns_item arg = refl
hid_returned mac_osx vd arg = refl
hid_returned mac_osx blade arg = refl
hid_returned mac_osx bio arg = refl
hid_returned mac_osx lite arg = refl
hid_returned ios device_ns_item arg = refl
hid_returned ios vd arg = refl
hid_returned ios blade arg = refl
hid_returned ios bio arg = refl
hid_returned ios lite arg = refl
hid_returned android device_ns_item arg = refl
hid_returned android vd arg = refl
hid_returned android blade arg = refl
hid_returned android bio arg = refl
hid_returned android lite arg = refl
hid_returned other device_ns_item arg = refl
hid_returned other vd arg = refl
hid_returned other blade arg = refl
hid_returned other bio arg = refl
hid_returned other lite arg = refl

pub ble_returned :
    (p : Platform) (t : DeviceType) (arg : List ℕ)
    → returned
        (create (platform_build p) (enum_product ble t) t (create_device (platform_build p) t arg))
      ≡ true
unfolding returned create create_device platform_build enum_product same_typeid
ble_returned windows device_ns_item arg = refl
ble_returned windows vd arg = refl
ble_returned windows blade arg = refl
ble_returned windows bio arg = refl
ble_returned windows lite arg = refl
ble_returned mac_osx device_ns_item arg = refl
ble_returned mac_osx vd arg = refl
ble_returned mac_osx blade arg = refl
ble_returned mac_osx bio arg = refl
ble_returned mac_osx lite arg = refl
ble_returned ios device_ns_item arg = refl
ble_returned ios vd arg = refl
ble_returned ios blade arg = refl
ble_returned ios bio arg = refl
ble_returned ios lite arg = refl
ble_returned android device_ns_item arg = refl
ble_returned android vd arg = refl
ble_returned android blade arg = refl
ble_returned android bio arg = refl
ble_returned android lite arg = refl
ble_returned other device_ns_item arg = refl
ble_returned other vd arg = refl
ble_returned other blade arg = refl
ble_returned other bio arg = refl
ble_returned other lite arg = refl

pub returned-if :
    (d : Bool) (made : Outcome (Option Device))
    → returned made ≡ true
    → returned (if d then ok none else made) ≡ true
unfolding returned
returned-if true made h = refl
returned-if false made h = h

pub no_product :
    (p : Platform) (t : DeviceType) (d : Option Device)
    → returned (create (platform_build p) product_ns_item t d) ≡ true
unfolding returned create platform_build product_ns_item
no_product windows t d = refl
no_product mac_osx t d = refl
no_product ios t d = refl
no_product android t d = refl
no_product other t d = refl

pub sim_returned :
    (p : Platform) (t : DeviceType) (arg1 arg2 : List ℕ)
    → returned (
        create
          (platform_build p)
          (enum_product sim t)
          t
          (create_bridge (platform_build p) sim t arg1 arg2))
      ≡ true
unfolding returned create create_bridge platform_build enum_product same_typeid
sim_returned windows device_ns_item arg1 arg2 = refl
sim_returned windows vd arg1 arg2 = refl
sim_returned windows blade arg1 arg2 = refl
sim_returned windows bio arg1 arg2 = refl
sim_returned windows lite arg1 arg2 = refl
sim_returned mac_osx device_ns_item arg1 arg2 = refl
sim_returned mac_osx vd arg1 arg2 = refl
sim_returned mac_osx blade arg1 arg2 = refl
sim_returned mac_osx bio arg1 arg2 = refl
sim_returned mac_osx lite arg1 arg2 = refl
sim_returned ios device_ns_item arg1 arg2 = refl
sim_returned ios vd arg1 arg2 = refl
sim_returned ios blade arg1 arg2 = refl
sim_returned ios bio arg1 arg2 = refl
sim_returned ios lite arg1 arg2 = refl
sim_returned android device_ns_item arg1 arg2 = refl
sim_returned android vd arg1 arg2 = refl
sim_returned android blade arg1 arg2 = refl
sim_returned android bio arg1 arg2 = refl
sim_returned android lite arg1 arg2 = refl
sim_returned other device_ns_item arg1 arg2 = refl
sim_returned other vd arg1 arg2 = refl
sim_returned other blade arg1 arg2 = refl
sim_returned other bio arg1 arg2 = refl
sim_returned other lite arg1 arg2 = refl
