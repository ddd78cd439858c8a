-- ===== src/Product/Create/ByPid.antt =====
-- `CreateProduct(pid, arg)` of include/product/ProductFactory.h, and `GetDeviceType` of what it makes.
use jubiter_sdk_c.Common.{
  ℕ, ◌≡◌, Bool, true, false, ◌||◌, Option, none, some, List, ◌==◌, if◌then◌else◌, Outcome, ok,
  arith,
}
use jubiter_sdk_c.Product.{DeviceType, Build, hid, device_ns_item, type_value}
use jubiter_sdk_c.Product.Devices.{Device, pid2_enum_device}
use jubiter_sdk_c.Product.Factory.{enum_product, product_ns_item, create, get_device_type}
use jubiter_sdk_c.Product.Create.{create_device, create_product_pid, unless_none}
use jubiter_sdk_c.Product.Create.Registry.{create-get_device_type}

made-if :
    (c : Bool) (made : Outcome (Option Device)) (d : Device)
    → (if c then ok none else made) ≡ ok (some d)
    → made ≡ ok (some d)
made-if true made d e = absurd (grind arith)
made-if false made d e = e

chosen_by_pid :
    (h : Bool) (b : Build) (pid : ℕ) (arg : List ℕ) (d : Device)
    → let type : DeviceType = if h then pid2_enum_device pid else device_ns_item in
      let product : ℕ = if h then enum_product hid type else product_ns_item in
      unless_none type product (create b product type (create_device b type arg)) ≡ ok (some d)
      → get_device_type b (some d.class) ≡ ok (hid, pid2_enum_device pid)
unfolding unless_none
chosen_by_pid true b pid arg d e =
    let type : DeviceType = pid2_enum_device pid in
    let shared = create_device b type arg in
    let made =
      made-if (type_value type == 0 || enum_product hid type == product_ns_item)
        (create b (enum_product hid type) type shared) d e in
    create-get_device_type b hid type shared d made
chosen_by_pid false b pid arg d e = absurd (grind arith)

-- What `CreateProduct(pid, arg)` made, in any build, is found to be the HID device that the product id
-- tells.
pub create_product_pid-get_device_type :
    (b : Build) (pid : ℕ) (arg : List ℕ) (d : Device)
    → create_product_pid b pid arg ≡ ok (some d)
    → get_device_type b (some d.class) ≡ ok (hid, pid2_enum_device pid)
unfolding create_product_pid
create_product_pid-get_device_type b pid arg d e = chosen_by_pid b.hid_mode b pid arg d e
