-- ===== src/Product/Create.antt =====
-- `xDeviceFactory::CreateDevice` (include/device/DeviceFactory.h), and `xProductFactory::CreateProduct`
-- (include/product/ProductFactory.h).
pub mod Registry
pub mod Links
pub mod Safe
pub mod ByPid
use jubiter_sdk_c.Common.{
  ℕ, ◌≡◌, refl, Bool, true, false, ◌||◌, Option, none, some, List, [], ◌==◌, if◌then◌else◌, Outcome,
  ok, fault,
}
use jubiter_sdk_c.Product.{
  CommMode, DeviceType, Build, commode_ns_item, swi, hid, ble, nfc, sim, device_ns_item, vd, blade,
  bio, lite, mode_value, type_value, find,
}
use jubiter_sdk_c.Product.Devices.{
  Device, create_by, create_ble, sim_factory, swi_factory, hid_factory, nfc_factory,
  pid2_enum_device, prefix2_enum_device,
}
use jubiter_sdk_c.Product.Factory.{enum_product, product_ns_item, create}

-- `CreateDevice(mode, type, arg1, arg2)`.
unfoldable pub create_bridge : Build → CommMode → DeviceType → List ℕ → List ℕ → Option Device
unfolding create_by find sim_factory type_value
create_bridge b sim type arg1 arg2 =
    if b.sim_mode then create_by sim_factory type arg1 arg2 else none
create_bridge b _ type arg1 arg2 = none

-- `CreateDevice(type, arg)`: the `switch`es of the links that are compiled in, in their order.
unfoldable pub create_device : Build → DeviceType → List ℕ → Option Device
unfolding create_by find type_value swi_factory hid_factory create_ble nfc_factory
create_device b device_ns_item arg = none
create_device b vd arg = if b.swi_mode then create_by swi_factory vd [] arg else none
create_device b blade arg =
    if b.hid_mode
    then create_by hid_factory blade [] arg
    else if b.ble_mode
    then create_ble blade arg
    else none
create_device b bio arg =
    if b.hid_mode
    then create_by hid_factory bio [] arg
    else if b.ble_mode
    then create_ble bio arg
    else none
create_device b lite arg = if b.nfc_mode then create_by nfc_factory lite [] [] else none

-- `CreateDevice(type)`.
unfoldable pub create_nfc_device : Build → DeviceType → Option Device
unfolding create_by find type_value nfc_factory
create_nfc_device b lite = if b.nfc_mode then create_by nfc_factory lite [] [] else none
create_nfc_device b _ = none

-- `CreateDevice(mode)`: a `case` whose link is not compiled in falls through to the next one.
unfoldable pub create_mode_device : Build → CommMode → Option Device
unfolding create_by find type_value swi_factory hid_factory create_ble nfc_factory
create_mode_device b mode =
    let from_nfc : Option Device = if b.nfc_mode then create_by nfc_factory lite [] [] else none in
    let from_ble : Option Device = if b.ble_mode then create_ble blade [] else from_nfc in
    let from_hid : Option Device =
      if b.hid_mode then create_by hid_factory blade [] [] else from_ble in
    let from_swi : Option Device =
      if b.swi_mode then create_by swi_factory vd [] [] else from_hid in
    elim mode [ swi ↦ from_swi | hid ↦ from_hid | ble ↦ from_ble | nfc ↦ from_nfc | _ ↦ none ]

-- The null pointer that is returned for a type or a product that was not found.
unfoldable pub unless_none : DeviceType → ℕ → Outcome (Option Device) → Outcome (Option Device)
unfolding type_value product_ns_item
unless_none type product made =
    if type_value type == 0 || product == product_ns_item then ok none else made

-- `CreateProduct(pid, arg)`.
unfoldable pub create_product_pid : Build → ℕ → List ℕ → Outcome (Option Device)
unfolding unless_none pid2_enum_device enum_product create create_device
create_product_pid b pid arg =
    let type : DeviceType = if b.hid_mode then pid2_enum_device pid else device_ns_item in
    let product : ℕ = if b.hid_mode then enum_product hid type else product_ns_item in
    unless_none type product (create b product type (create_device b type arg))

-- What `CreateProduct(mode, arg)` chooses; `case HID` falls through to `case BLE`.
unfoldable pub choose_by_name : Build → CommMode → List ℕ → DeviceType × ℕ
unfolding prefix2_enum_device enum_product
choose_by_name b swi arg =
    if b.swi_mode then (vd, enum_product swi vd) else (device_ns_item, product_ns_item)
choose_by_name b hid arg =
    if b.ble_mode
    then (prefix2_enum_device arg, enum_product hid (prefix2_enum_device arg))
    else (device_ns_item, product_ns_item)
choose_by_name b ble arg =
    if b.ble_mode
    then (prefix2_enum_device arg, enum_product ble (prefix2_enum_device arg))
    else (device_ns_item, product_ns_item)
choose_by_name b _ arg = (device_ns_item, product_ns_item)

-- `CreateProduct(mode, arg)`.
unfoldable pub create_product_name : Build → CommMode → List ℕ → Outcome (Option Device)
unfolding choose_by_name create create_device product_ns_item
create_product_name b mode arg =
    let (type, product) = choose_by_name b mode arg in
    if product == product_ns_item then ok none else create b product type (create_device b type arg)

-- `CreateProduct(type)`.
unfoldable pub create_product_type : Build → DeviceType → Outcome (Option Device)
unfolding enum_product product_ns_item create create_nfc_device
create_product_type b type =
    let product : ℕ = if b.nfc_mode then enum_product nfc type else product_ns_item in
    if product == product_ns_item then ok none else create b product type (create_nfc_device b type)

-- The type that `CreateProduct(mode)` chooses.
unfoldable pub mode_type : Build → CommMode → DeviceType
mode_type b swi = if b.swi_mode then vd else device_ns_item
mode_type b hid = if b.hid_mode then blade else device_ns_item
mode_type b ble = if b.ble_mode then blade else device_ns_item
mode_type b nfc = if b.nfc_mode then lite else device_ns_item
mode_type b _ = device_ns_item

-- `CreateProduct(mode)`.
unfoldable pub create_product_mode : Build → CommMode → Outcome (Option Device)
unfolding unless_none mode_type enum_product create create_mode_device
create_product_mode b mode =
    let type : DeviceType = mode_type b mode in
    let product : ℕ = enum_product mode type in
    unless_none type product (create b product type (create_mode_device b mode))

-- `CreateProduct(mode, type, arg1, arg2)`.
unfoldable pub create_product_bridge :
    Build → CommMode → DeviceType → List ℕ → List ℕ → Outcome (Option Device)
unfolding mode_value type_value enum_product product_ns_item create create_bridge
create_product_bridge b mode type arg1 arg2 =
    let product : ℕ = elim mode [ sim ↦ enum_product sim type | _ ↦ product_ns_item ] in
    if mode_value mode == 0 || type_value type == 0 || product == product_ns_item
    then ok none
    else create b product type (create_bridge b mode type arg1 arg2)
