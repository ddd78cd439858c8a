-- ===== src/Product/Blocks.antt =====
-- The blocks of `GetDeviceType` in include/product/ProductFactory.h, when one link's factory knows the object.
use jubiter_sdk_c.Common.{◌≡◌, refl, ap, ◌∙◌, Bool, true, false, if◌then◌else◌, ok, fail}
use jubiter_sdk_c.Status.{jubr_arguments_bad}
use jubiter_sdk_c.Product.{CommMode, DeviceType, Build}
use jubiter_sdk_c.Product.{
  commode_ns_item, swi, hid, ble, nfc, sim, device_ns_item, vd, blade, bio, lite,
}
use jubiter_sdk_c.Product.Factory.{
  probe, blocks, type_result, sim_known, swi_known, link_known, nfc_known,
}

abbrev pub nothing : CommMode × DeviceType
nothing = (commode_ns_item, device_ns_item)

-- A block whose factory does not know the object changes nothing.
probe_pass :
    (d : Bool) (known : DeviceType → Bool) (mode : CommMode) (found : CommMode × DeviceType)
    → known device_ns_item ≡ false
    → probe d known mode device_ns_item found ≡ found
unfolding probe
probe_pass false known mode found h = refl
probe_pass true known mode (commode_ns_item, device_ns_item) h = rw h
probe_pass true known mode (commode_ns_item, vd) h = refl
probe_pass true known mode (commode_ns_item, blade) h = refl
probe_pass true known mode (commode_ns_item, bio) h = refl
probe_pass true known mode (commode_ns_item, lite) h = refl
probe_pass true known mode (swi, t) h = refl
probe_pass true known mode (hid, t) h = refl
probe_pass true known mode (ble, t) h = refl
probe_pass true known mode (nfc, t) h = refl
probe_pass true known mode (sim, t) h = refl

probe_hit :
    (d : Bool) (known : DeviceType → Bool) (mode : CommMode) (t : DeviceType)
    → known t ≡ true
    → probe d known mode t nothing ≡ (if d then (mode, t) else nothing)
unfolding probe
probe_hit true known mode t h = rw h
probe_hit false known mode t h = refl

pub blocks_sim :
    (b : Build) (t : DeviceType)
    → sim_known t ≡ true
    → blocks b t device_ns_item device_ns_item device_ns_item device_ns_item
      ≡ (if b.sim_mode then (sim, t) else nothing)
unfolding blocks swi_known link_known nfc_known
blocks_sim b t h =
    probe_pass b.nfc_mode nfc_known nfc _ refl
    ∙ probe_pass b.ble_mode link_known ble _ refl
    ∙ probe_pass b.hid_mode link_known hid _ refl
    ∙ probe_pass b.swi_mode swi_known swi _ refl
    ∙ probe_hit b.sim_mode sim_known sim t h

pub blocks_swi :
    (b : Build) (t : DeviceType)
    → swi_known t ≡ true
    → blocks b device_ns_item t device_ns_item device_ns_item device_ns_item
      ≡ (if b.swi_mode then (swi, t) else nothing)
unfolding blocks sim_known swi_known link_known nfc_known
blocks_swi b t h =
    probe_pass b.nfc_mode nfc_known nfc _ refl
    ∙ probe_pass b.ble_mode link_known ble _ refl
    ∙ probe_pass b.hid_mode link_known hid _ refl
    ∙ ap (λ found. probe b.swi_mode swi_known swi t found)
        (probe_pass b.sim_mode sim_known sim nothing refl)
    ∙ probe_hit b.swi_mode swi_known swi t h

pub blocks_hid :
    (b : Build) (t : DeviceType)
    → link_known t ≡ true
    → blocks b device_ns_item device_ns_item t device_ns_item device_ns_item
      ≡ (if b.hid_mode then (hid, t) else nothing)
unfolding blocks sim_known swi_known link_known nfc_known
blocks_hid b t h =
    probe_pass b.nfc_mode nfc_known nfc _ refl
    ∙ probe_pass b.ble_mode link_known ble _ refl
    ∙ ap (λ found. probe b.hid_mode link_known hid t found)
        (probe_pass b.swi_mode swi_known swi _ refl
          ∙ probe_pass b.sim_mode sim_known sim nothing refl)
    ∙ probe_hit b.hid_mode link_known hid t h

pub blocks_ble :
    (b : Build) (t : DeviceType)
    → link_known t ≡ true
    → blocks b device_ns_item device_ns_item device_ns_item t device_ns_item
      ≡ (if b.ble_mode then (ble, t) else nothing)
unfolding blocks sim_known swi_known link_known nfc_known
blocks_ble b t h =
    probe_pass b.nfc_mode nfc_known nfc _ refl
    ∙ ap (λ found. probe b.ble_mode link_known ble t found)
        (probe_pass b.hid_mode link_known hid _ refl
          ∙ probe_pass b.swi_mode swi_known swi _ refl
          ∙ probe_pass b.sim_mode sim_known sim nothing refl)
    ∙ probe_hit b.ble_mode link_known ble t h

pub blocks_nfc :
    (b : Build) (t : DeviceType)
    → nfc_known t ≡ true
    → blocks b device_ns_item device_ns_item device_ns_item device_ns_item t
      ≡ (if b.nfc_mode then (nfc, t) else nothing)
unfolding blocks sim_known swi_known link_known nfc_known
blocks_nfc b t h =
    ap (λ found. probe b.nfc_mode nfc_known nfc t found)
      (probe_pass b.ble_mode link_known ble _ refl
        ∙ probe_pass b.hid_mode link_known hid _ refl
        ∙ probe_pass b.swi_mode swi_known swi _ refl
        ∙ probe_pass b.sim_mode sim_known sim nothing refl)
    ∙ probe_hit b.nfc_mode nfc_known nfc t h

pub blocks_none :
    (b : Build)
    → blocks b device_ns_item device_ns_item device_ns_item device_ns_item device_ns_item ≡ nothing
unfolding blocks sim_known swi_known link_known nfc_known
blocks_none b =
    probe_pass b.nfc_mode nfc_known nfc _ refl
    ∙ probe_pass b.ble_mode link_known ble _ refl
    ∙ probe_pass b.hid_mode link_known hid _ refl
    ∙ probe_pass b.swi_mode swi_known swi _ refl
    ∙ probe_pass b.sim_mode sim_known sim _ refl

pub type_result_if :
    (d : Bool) (found : CommMode × DeviceType)
    → type_result found ≡ ok found
    → type_result (if d then found else nothing) ≡ (if d then ok found else fail jubr_arguments_bad)
unfolding type_result
type_result_if true found h = h
type_result_if false found h = refl
