-- ===== src/Product/Tokens.antt =====
-- include/token/factory/BTCTokenFactory.h, ETHTokenFactory.h and MISCTokenFactory.h.
use jubiter_sdk_c.Common.{ℕ, Bool, Option, none, some, List, [], ◌∷◌, if◌then◌else◌}
use jubiter_sdk_c.Product.{
  DeviceClass, Build, bridge_bld, bridge_bio, bridge_lite, swi_impl, hid_bld, hid_bio, ble_bld,
  ble_bio, nfc_device, find, registered, same_typeid,
}

-- The families of token classes: `TrezorCrypto…`, `JubiterBlade…`, `JubiterBIO…` and `JubiterLite…`.
pub data Family : Type 0 where
  trezor_crypto jubiter_blade jubiter_bio jubiter_lite : Family

-- The part of a token class's name that tells its coin: `BTCImpl`, `BCHImpl` and so on.
pub data Impl : Type 0 where
  btc_impl bch_impl ltc_impl usdt_impl dash_impl qtum_impl ckb_impl : Impl
  eth_impl fil_impl hc_impl eos_impl xrp_impl trx_impl dot_impl sol_impl : Impl

pub record Token : Type 0 where
  pub family : Family
  pub impl : Impl

-- The values of `JUB_ENUM_COINTYPE_BTC`.
abbrev pub coinbtc : ℕ
coinbtc = 0x00

abbrev pub coinbch : ℕ
coinbch = 0x01

abbrev pub coinltc : ℕ
coinltc = 0x02

abbrev pub coinusdt : ℕ
coinusdt = 0x03

abbrev pub coindash : ℕ
coindash = 0x04

abbrev pub coinqtum : ℕ
coinqtum = 0x05

abbrev pub coinckb : ℕ
coinckb = 0x06

-- The enumerators of `TWCoinType` that the factories use. They are another library's, so their
-- values are an argument of what uses them.
pub record CoinTypes : Type 0 where
  pub ethereum : ℕ
  pub filecoin : ℕ
  pub hcash : ℕ
  pub eos : ℕ
  pub xrp : ℕ
  pub tron : ℕ
  pub polkadot : ℕ
  pub kusama : ℕ
  pub solana : ℕ

-- The six coins that every BTC factory registers.
abbrev six_coins : Family → List (ℕ × Token)
six_coins f =
    (coinbtc, record { family = f; impl = btc_impl })
    ∷ (coinbch, record { family = f; impl = bch_impl })
    ∷ (coinltc, record { family = f; impl = ltc_impl })
    ∷ (coinusdt, record { family = f; impl = usdt_impl })
    ∷ (coindash, record { family = f; impl = dash_impl })
    ∷ (coinqtum, record { family = f; impl = qtum_impl })
    ∷ []

abbrev seven_coins : Family → List (ℕ × Token)
seven_coins f =
    (coinbtc, record { family = f; impl = btc_impl })
    ∷ (coinbch, record { family = f; impl = bch_impl })
    ∷ (coinltc, record { family = f; impl = ltc_impl })
    ∷ (coinusdt, record { family = f; impl = usdt_impl })
    ∷ (coindash, record { family = f; impl = dash_impl })
    ∷ (coinqtum, record { family = f; impl = qtum_impl })
    ∷ (coinckb, record { family = f; impl = ckb_impl })
    ∷ []

-- The map of each factory of BTCTokenFactory.h.
unfoldable pub btc_factory : Family → List (ℕ × Token)
unfolding registered
btc_factory trezor_crypto = registered (seven_coins trezor_crypto)
btc_factory jubiter_blade = registered (six_coins jubiter_blade)
btc_factory jubiter_bio = registered (six_coins jubiter_bio)
btc_factory jubiter_lite = registered (seven_coins jubiter_lite)

-- The map of each factory of ETHTokenFactory.h.
unfoldable pub eth_factory : CoinTypes → Family → List (ℕ × Token)
unfolding registered
eth_factory coins f = registered (
    (coins.ethereum, record { family = f; impl = eth_impl })
    ∷ (coins.filecoin, record { family = f; impl = fil_impl })
    ∷ [])

abbrev misc_coins : CoinTypes → Family → List (ℕ × Token)
misc_coins coins f =
    (coins.eos, record { family = f; impl = eos_impl })
    ∷ (coins.xrp, record { family = f; impl = xrp_impl })
    ∷ (coins.tron, record { family = f; impl = trx_impl })
    ∷ (coins.polkadot, record { family = f; impl = dot_impl })
    ∷ (coins.kusama, record { family = f; impl = dot_impl })
    ∷ (coins.solana, record { family = f; impl = sol_impl })
    ∷ []

-- The map of each factory of MISCTokenFactory.h: the Lite factory registers Ethereum too.
unfoldable pub misc_factory : CoinTypes → Family → List (ℕ × Token)
unfolding registered
misc_factory coins jubiter_lite = registered (
    (coins.hcash, record { family = jubiter_lite; impl = hc_impl })
    ∷ (coins.ethereum, record { family = jubiter_lite; impl = eth_impl })
    ∷ misc_coins coins jubiter_lite)
misc_factory coins f =
    registered ((coins.hcash, record { family = f; impl = hc_impl }) ∷ misc_coins coins f)

-- The `dynamic_cast`s of `CreateToken`, which are those of all three headers: the factory chosen.
unfoldable pub choose_sim : DeviceClass → Option Family
unfolding same_typeid
choose_sim c =
    if same_typeid bridge_bld c
    then some jubiter_blade
    else if same_typeid bridge_bio c
    then some jubiter_bio
    else if same_typeid bridge_lite c
    then some jubiter_lite
    else none

unfoldable pub choose_swi : DeviceClass → Option Family
unfolding same_typeid
choose_swi c = if same_typeid swi_impl c then some trezor_crypto else none

unfoldable pub choose_hid : DeviceClass → Option Family
unfolding same_typeid
choose_hid c =
    if same_typeid hid_bld c
    then some jubiter_blade
    else if same_typeid hid_bio c
    then some jubiter_bio
    else none

unfoldable pub choose_ble : DeviceClass → Option Family
unfolding same_typeid
choose_ble c =
    if same_typeid ble_bld c
    then some jubiter_blade
    else if same_typeid ble_bio c
    then some jubiter_bio
    else none

unfoldable pub choose_nfc : DeviceClass → Option Family
unfolding same_typeid
choose_nfc c = if same_typeid nfc_device c then some jubiter_lite else none

-- The next block is reached unless one before it returned.
unfoldable pub or_else : Bool → Option Family → Option Family → Option Family
or_else defined (some f) rest = if defined then some f else rest
or_else defined none rest = rest

unfoldable pub choose_family : Build → DeviceClass → Option Family
unfolding choose_sim choose_swi choose_hid choose_ble choose_nfc or_else
choose_family b c = or_else b.sim_mode (choose_sim c) (
    or_else b.swi_mode (choose_swi c) (
      or_else b.hid_mode (choose_hid c)
        (or_else b.ble_mode (choose_ble c) (or_else b.nfc_mode (choose_nfc c) none))))

-- `Create` in the factory chosen.
unfoldable pub create_in : (Family → List (ℕ × Token)) → Option Family → ℕ → Option Token
unfolding find
create_in factory none coin = none
create_in factory (some f) coin = find (factory f) coin

-- `CreateToken`, with a header's factories; a handle that is not in use has no class.
unfoldable pub create_token :
    (Family → List (ℕ × Token)) → Build → Option DeviceClass → ℕ → Option Token
unfolding choose_family create_in
create_token factory b none coin = none
create_token factory b (some c) coin = create_in factory (choose_family b c) coin

-- `xBTCTokenFactory::CreateToken`, `xETHTokenFactory::CreateToken` and `xMISCTokenFactory::CreateToken`.
unfoldable pub create_btc_token : Build → Option DeviceClass → ℕ → Option Token
unfolding create_token btc_factory
create_btc_token b device coin = create_token btc_factory b device coin

unfoldable pub create_eth_token : CoinTypes → Build → Option DeviceClass → ℕ → Option Token
unfolding create_token eth_factory
create_eth_token coins b device coin = create_token (eth_factory coins) b device coin

unfoldable pub create_misc_token : CoinTypes → Build → Option DeviceClass → ℕ → Option Token
unfolding create_token misc_factory
create_misc_token coins b device coin = create_token (misc_factory coins) b device coin
