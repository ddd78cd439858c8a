-- ===== src/Context/Script.antt =====
-- include/JUB_SDK_BTC.h: the inputs and outputs of a transaction.
use jubiter_sdk_c.Common.{ℕ, Bool, List}
use jubiter_sdk_c.Context.Path.{Bip44Path}

-- `JUB_ENUM_SCRIPT_BTC_TYPE`.
pub data ScriptType : Type 0 where
  p2pkh return0 p2sh_multisig qrc20 p2wsh_multisig : ScriptType

-- `INPUT_BTC`.
pub record InputBtc : Type 0 where
  pub type : ScriptType
  pub pre_hash : List ℕ
  pub pre_index : ℕ
  pub n_sequence : ℕ
  pub amount : ℕ
  pub path : Bip44Path

-- `OUTPUT`.
pub record Output : Type 0 where
  pub address : List ℕ
  pub amount : ℕ
  pub change_address : Bool
  pub path : Bip44Path

-- `OUTPUT_BTC`: the union is read by its type. `return0` and `qrc20` hold data and, for `return0`, an
-- amount; only `stdOutput` is read by the contexts.
pub record OutputBtc : Type 0 where
  pub type : ScriptType
  pub std_output : Output
  pub amount : ℕ
  pub data_bytes : List ℕ

unfoldable pub is_p2pkh : ScriptType → Bool
is_p2pkh p2pkh = Bool.true
is_p2pkh _ = Bool.false

unfoldable pub is_qrc20 : ScriptType → Bool
is_qrc20 qrc20 = Bool.true
is_qrc20 _ = Bool.false
