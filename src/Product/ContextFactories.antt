-- ===== src/Product/ContextFactories.antt =====
-- include/context/BTCContextFactory.h, ETHContextFactory.h and the factories of the other coins.
use jubiter_sdk_c.Common.{ℕ, ◌≡◌, Option, none, some, List, [], ◌∷◌, ==_self}
use jubiter_sdk_c.Product.{DeviceClass, Build, find, registered}
use jubiter_sdk_c.Product.Tokens.{
  CoinTypes, Token, coinbtc, coinbch, coinltc, coinusdt, coindash, coinqtum, coinckb,
  create_btc_token, create_eth_token, create_misc_token,
}

-- The classes of contexts: `BTCContext`, `BCHContext` and so on.
pub data ContextKind : Type 0 where
  btc_context bch_context ltc_context usdt_context dash_context qtum_context : ContextKind
  ckb_context eth_context fil_context hc_context eos_context xrp_context : ContextKind
  trx_context dot_context ksm_context sol_context : ContextKind

-- A context keeps the token it was made with, which may be a null pointer.
pub record Context : Type 0 where
  pub kind : ContextKind
  pub token : Option Token

unfoldable pub make_context : Option ContextKind → Option Token → Option Context
make_context none t = none
make_context (some k) t = some (record { kind = k; token = t })

-- `Create(type, cfg, token)` of a context factory.
unfoldable pub create_context : List (ℕ × ContextKind) → ℕ → Option Token → Option Context
unfolding find make_context
create_context factory type t = make_context (find factory type) t

unfoldable pub btc_contexts : List (ℕ × ContextKind)
unfolding registered
btc_contexts = registered (
    (coinbtc, btc_context)
    ∷ (coinbch, bch_context)
    ∷ (coinltc, ltc_context)
    ∷ (coinusdt, usdt_context)
    ∷ (coindash, dash_context)
    ∷ (coinqtum, qtum_context)
    ∷ [])

-- `CreateContext` of each factory.
unfoldable pub create_btc_context : Build → Option DeviceClass → ℕ → Option Context
unfolding create_context btc_contexts create_btc_token
create_btc_context b device coin = create_context btc_contexts coin (create_btc_token b device coin)

unfoldable pub create_ckb_context : Build → Option DeviceClass → Option Context
unfolding create_context registered create_btc_token
create_ckb_context b device =
    create_context (registered ((coinckb, ckb_context) ∷ [])) coinckb
      (create_btc_token b device coinckb)

unfoldable pub create_eth_context : CoinTypes → Build → Option DeviceClass → Option Context
unfolding create_context registered create_eth_token
create_eth_context coins b device =
    create_context (registered ((coins.ethereum, eth_context) ∷ [])) coins.ethereum
      (create_eth_token coins b device coins.ethereum)

unfoldable pub create_fil_context : CoinTypes → Build → Option DeviceClass → Option Context
unfolding create_context registered create_eth_token
create_fil_context coins b device =
    create_context (registered ((coins.filecoin, fil_context) ∷ [])) coins.filecoin
      (create_eth_token coins b device coins.filecoin)

unfoldable pub create_hc_context : CoinTypes → Build → Option DeviceClass → Option Context
unfolding create_context registered create_misc_token
create_hc_context coins b device =
    create_context (registered ((coins.hcash, hc_context) ∷ [])) coins.hcash
      (create_misc_token coins b device coins.hcash)

unfoldable pub create_eos_context : CoinTypes → Build → Option DeviceClass → Option Context
unfolding create_context registered create_misc_token
create_eos_context coins b device =
    create_context (registered ((coins.eos, eos_context) ∷ [])) coins.eos
      (create_misc_token coins b device coins.eos)

unfoldable pub create_xrp_context : CoinTypes → Build → Option DeviceClass → Option Context
unfolding create_context registered create_misc_token
create_xrp_context coins b device =
    create_context (registered ((coins.xrp, xrp_context) ∷ [])) coins.xrp
      (create_misc_token coins b device coins.xrp)

unfoldable pub create_trx_context : CoinTypes → Build → Option DeviceClass → Option Context
unfolding create_context registered create_misc_token
create_trx_context coins b device =
    create_context (registered ((coins.tron, trx_context) ∷ [])) coins.tron
      (create_misc_token coins b device coins.tron)

unfoldable pub create_dot_context : CoinTypes → Build → Option DeviceClass → Option Context
unfolding create_context registered create_misc_token
create_dot_context coins b device =
    create_context (registered ((coins.polkadot, dot_context) ∷ [])) coins.polkadot
      (create_misc_token coins b device coins.polkadot)

unfoldable pub create_ksm_context : CoinTypes → Build → Option DeviceClass → Option Context
unfolding create_context registered create_misc_token
create_ksm_context coins b device =
    create_context (registered ((coins.kusama, ksm_context) ∷ [])) coins.kusama
      (create_misc_token coins b device coins.kusama)

unfoldable pub create_sol_context : CoinTypes → Build → Option DeviceClass → Option Context
unfolding create_context registered create_misc_token
create_sol_context coins b device =
    create_context (registered ((coins.solana, sol_context) ∷ [])) coins.solana
      (create_misc_token coins b device coins.solana)

create_context_only :
    (type : ℕ) (k : ContextKind) (t : Option Token)
    → create_context (registered ((type, k) ∷ [])) type t ≡ some (record { kind = k; token = t })
unfolding create_context registered
create_context_only type k t = rw (==_self type)

-- The factories of a single coin make a context of their coin for every handle, in every build: it holds
-- what `CreateToken` returned for the coin, be it a null pointer.
pub create_contexts-token :
    (coins : CoinTypes) (b : Build) (device : Option DeviceClass)
    → (create_ckb_context b device
        ≡ some (record { kind = ckb_context; token = create_btc_token b device coinckb }))
      × (create_eth_context coins b device
          ≡ some (record {
            kind = eth_context;
            token = create_eth_token coins b device coins.ethereum;
          }))
      × (create_fil_context coins b device
          ≡ some (record {
            kind = fil_context;
            token = create_eth_token coins b device coins.filecoin;
          }))
      × (create_hc_context coins b device
          ≡ some
              (record { kind = hc_context; token = create_misc_token coins b device coins.hcash }))
      × (create_eos_context coins b device
          ≡ some
              (record { kind = eos_context; token = create_misc_token coins b device coins.eos }))
      × (create_xrp_context coins b device
          ≡ some
              (record { kind = xrp_context; token = create_misc_token coins b device coins.xrp }))
      × (create_trx_context coins b device
          ≡ some
              (record { kind = trx_context; token = create_misc_token coins b device coins.tron }))
      × (create_dot_context coins b device
          ≡ some (record {
            kind = dot_context;
            token = create_misc_token coins b device coins.polkadot;
          }))
      × (create_ksm_context coins b device
          ≡ some (record {
            kind = ksm_context;
            token = create_misc_token coins b device coins.kusama;
          }))
      × (create_sol_context coins b device
          ≡ some (record {
            kind = sol_context;
            token = create_misc_token coins b device coins.solana;
          }))
unfolding create_ckb_context create_eth_context create_fil_context create_hc_context
    create_eos_context create_xrp_context create_trx_context create_dot_context create_ksm_context
    create_sol_context
create_contexts-token coins b device = (
  create_context_only coinckb ckb_context (create_btc_token b device coinckb),
  create_context_only coins.ethereum eth_context (create_eth_token coins b device coins.ethereum),
  create_context_only coins.filecoin fil_context (create_eth_token coins b device coins.filecoin),
  create_context_only coins.hcash hc_context (create_misc_token coins b device coins.hcash),
  create_context_only coins.eos eos_context (create_misc_token coins b device coins.eos),
  create_context_only coins.xrp xrp_context (create_misc_token coins b device coins.xrp),
  create_context_only coins.tron trx_context (create_misc_token coins b device coins.tron),
  create_context_only coins.polkadot dot_context (create_misc_token coins b device coins.polkadot),
  create_context_only coins.kusama ksm_context (create_misc_token coins b device coins.kusama),
  create_context_only coins.solana sol_context (create_misc_token coins b device coins.solana),
)
