-- ===== src/Product/Tests.antt =====
-- Devices and tokens at concrete builds.
use jubiter_sdk_c.Common.{ℕ, ◌≡◌, refl, some, List, [], ◌∷◌, ok}
use jubiter_sdk_c.Product.{platform_build, same_typeid, windows, hid, bio, hid_bio}
use jubiter_sdk_c.Product.Devices.{Device}
use jubiter_sdk_c.Product.Factory.{create, enum_product, get_device_type}
use jubiter_sdk_c.Product.Create.{create_device}
use jubiter_sdk_c.Product.Create.Registry.{create-get_device_type}
use jubiter_sdk_c.Product.Tokens.{CoinTypes}

abbrev path : List ℕ
path = 1 ∷ 2 ∷ []

abbrev bio_device : Device
bio_device = record { class = hid_bio; ip = []; name = path }

create-get_device_type_example :
    get_device_type (platform_build windows) (some hid_bio) ≡ ok (hid, bio)
unfolding create create_device enum_product platform_build same_typeid
create-get_device_type_example =
    create-get_device_type (platform_build windows) hid bio
      (create_device (platform_build windows) bio path) bio_device refl

abbrev coins : CoinTypes
coins = record {
  ethereum = 60;
  filecoin = 461;
  hcash = 171;
  eos = 194;
  xrp = 144;
  tron = 195;
  polkadot = 354;
  kusama = 434;
  solana = 501;
}
