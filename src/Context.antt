-- ===== src/Context.antt =====
-- src/context/: the contexts of coins. The tokens that they call are parameters, and so is
-- src/context/BTCContextMultiSigExt.cpp.
pub mod Script
pub mod Path
pub mod Base
pub mod Btc
pub mod Active
pub mod Api
pub mod Change
pub mod Outputs
pub mod PathText
mod Tests
use jubiter_sdk_c.Common.{ℕ, Option, none, some, List, ltb, if◌then◌else◌, Outcome, ok, fail}
use jubiter_sdk_c.Status.{jubr_context_not_satisfied, jubr_impl_not_support}
use jubiter_sdk_c.Product.Tokens.{Family}
use jubiter_sdk_c.Context.Script.{InputBtc, OutputBtc}
use jubiter_sdk_c.Context.Path.{Bip44Path}

-- `JUB_ENUM_BTC_TRANS_TYPE`.
pub data TransType : Type 0 where
  p2pkh p2sh_p2wpkh p2wpkh p2tr p2sh_multisig p2wsh_multisig trans_type_ns_item : TransType

-- What a token of a coin of the BTC series does to a device whose state is a `D`. Enumerations that
-- are only passed on are numbers, texts and byte vectors are lists of numbers.
pub record BtcToken (D : Type 0) : Type 0 where
  pub select_applet : D → Outcome (Unit {0}) × D
  pub set_timeout : ℕ → D → Outcome (Unit {0}) × D
  pub set_unit : ℕ → D → Outcome (Unit {0}) × D
  pub set_coin : ℕ → D → Outcome (Unit {0}) × D
  pub get_hd_node : TransType → List ℕ → ℕ → D → Outcome (List ℕ) × D
  pub get_address : ℕ → TransType → List ℕ → ℕ → Option ℕ → D → Outcome (List ℕ) × D
  pub check_address : List ℕ → D → Outcome (Unit {0}) × D
  pub serialize_unsigned_tx :
      TransType → ℕ → List InputBtc → List OutputBtc → ℕ → ℕ → D → Outcome (List ℕ) × D
  pub sign_tx :
      ℕ
      → TransType
      → ℕ
      → List ℕ
      → List (List ℕ)
      → List ℕ
      → List (List ℕ)
      → List ℕ
      → ℕ
      → D
      → Outcome (List ℕ) × D
  pub show_virtual_pwd : D → Outcome (Unit {0}) × D
  pub cancel_virtual_pwd : D → Outcome (Unit {0}) × D
  pub verify_pin : List ℕ → D → Outcome ℕ × D
  pub verify_fingerprint : D → Outcome ℕ × D

-- `_tokenPtr`: null, or a token that is no `BTCTokenInterface`, or one that is.
pub data TokenPtr (D : Type 0) : Type 0 where
  null : TokenPtr D
  other : TokenPtr D
  btc : BtcToken D → TokenPtr D

-- `BTCContextMultiSigExt`, as a context calls it.
pub record MultiSigExt (D : Type 0) : Type 0 where
  pub full_bip44_path : List ℕ → Bip44Path → List ℕ
  pub preparatory_flow : List ℕ → Outcome (Unit {0})
  pub get_address : BtcToken D → List ℕ → ℕ → Bip44Path → ℕ → ℕ → D → Outcome (List ℕ) × D
  pub sign_tx :
      BtcToken D
      → List ℕ
      → ℕ
      → ℕ
      → ℕ
      → List InputBtc
      → List OutputBtc
      → ℕ
      → D
      → Outcome (List ℕ) × D

-- The fields of `BaseContext` and `BTCContext`. `family` and `software_type` are what the casts of the
-- token find: its family, and the type of a token that is a `SoftwareTokenInterface`.
pub record BtcContext (D : Type 0) : Type 0 where
  pub main_path : List ℕ
  pub coin_net : ℕ
  pub timeout : ℕ
  pub token : TokenPtr D
  pub family : Option Family
  pub software_type : Option ℕ
  pub coin_type : ℕ
  pub trans_type : TransType
  pub unit_type : ℕ
  pub multi_sig_ext : MultiSigExt D

-- `CONTEXT_CHECK_TYPE`.
unfoldable pub context_check_type : {D : Type 0} → ℕ → BtcContext D → Outcome (Unit {0})
context_check_type t c = elim c.software_type [
  | none ↦ ok tt
  | some own ↦ if ltb own t then fail jubr_context_not_satisfied else ok tt
]

abbrev pub type_none : ℕ
type_none = 0

abbrev pub type_public : ℕ
type_public = 1

abbrev pub type_private : ℕ
type_private = 2

-- The cast to `BTCTokenInterface`, and the test that it did not fail.
unfoldable pub as_btc : {D : Type 0} → TokenPtr D → Outcome (BtcToken D)
as_btc null = fail jubr_impl_not_support
as_btc other = fail jubr_impl_not_support
as_btc (btc t) = ok t
