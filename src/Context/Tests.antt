-- ===== src/Context/Tests.antt =====
-- Contexts of src/context/ at a device that keeps what it is told.
use jubiter_sdk_c.Common.{
  ℕ, ◌≡◌, ◌⊎◌, ◌↔◌, refl, Bool, true, false, none, some, List, [], ◌∷◌, ok, fail, arith,
}
use jubiter_sdk_c.Status.{jubr_qrc20_wrong_format}
use jubiter_sdk_c.Manager.{fresh_manager, add_one, get_one}
use jubiter_sdk_c.Product.Tokens.{jubiter_blade}
use jubiter_sdk_c.Product.Contexts.{is_blade, is_lite}
use jubiter_sdk_c.Context.{
  BtcToken, MultiSigExt, BtcContext, TransType, btc, context_check_type, type_private,
}
use jubiter_sdk_c.Context
use jubiter_sdk_c.Context.Script.{ScriptType, InputBtc, Output, OutputBtc}
use jubiter_sdk_c.Context.Script
use jubiter_sdk_c.Context.Path.{Bip44Path}
use jubiter_sdk_c.Context.PathText.{full_bip44_path-injective}
use jubiter_sdk_c.Context.Btc.{changes, sign_tx, is_p2sh_multisig}
use jubiter_sdk_c.Context.Active.{Sdk, other_context, get_one_safe, get_one_safe-get_one}
use jubiter_sdk_c.Context.Api.{jub_create_context_btc, jub_sign_transaction_btc}
use jubiter_sdk_c.Context.Change.{Listed, IsChange, MaySign, sign_tx-IsChange}
use jubiter_sdk_c.Context.Outputs.{NoQrc20, OneQrc20, jub_sign_transaction_btc-qrc20_format}

-- The coins that were selected, the last one first.
abbrev recording : BtcToken (List ℕ)
recording = record {
  select_applet = λ d. (ok tt, d);
  set_timeout = λ _ d. (ok tt, d);
  set_unit = λ _ d. (ok tt, d);
  set_coin = λ coin d. (ok tt, coin ∷ d);
  get_hd_node = λ _ path _ d. (ok path, d);
  get_address = λ _ _ path _ _ d. (ok path, d);
  check_address = λ _ d. (ok tt, d);
  serialize_unsigned_tx = λ _ _ _ _ _ _ d. (ok [], d);
  sign_tx = λ _ _ _ _ _ _ _ _ _ d. (ok [], d);
  show_virtual_pwd = λ d. (ok tt, d);
  cancel_virtual_pwd = λ d. (ok tt, d);
  verify_pin = λ _ d. (ok 0, d);
  verify_fingerprint = λ d. (ok 0, d);
}

abbrev no_multi_sig : MultiSigExt (List ℕ)
no_multi_sig = record {
  full_bip44_path = λ main_path _. main_path;
  preparatory_flow = λ _. ok tt;
  get_address = λ _ _ _ _ _ _ d. (ok [], d);
  sign_tx = λ _ _ _ _ _ _ _ _ d. (ok [], d);
}

abbrev context_of : ℕ → BtcContext (List ℕ)
context_of coin = record {
  main_path = 0x6D ∷ [];
  coin_net = 0;
  timeout = 240;
  token = btc recording;
  family = some jubiter_blade;
  software_type = none;
  coin_type = coin;
  trans_type = Context.p2pkh;
  unit_type = 2;
  multi_sig_ext = no_multi_sig;
}

abbrev start : Sdk (List ℕ)
start = record { manager = fresh_manager; heap = λ _. other_context; device = [] }

-- A context of coin 0, and then one of coin 2.
abbrev two_contexts : Sdk (List ℕ)
two_contexts =
    let (_, s) = jub_create_context_btc (some (100, context_of 0)) start in
    let (_, t) = jub_create_context_btc (some (200, context_of 2)) s in t

-- The first context is used, and coin 2 is still the one that is selected.
get_one_safe-get_one_example :
    (get_one_safe two_contexts 1).1
    ≡ record two_contexts { manager = (get_one two_contexts.manager 1).1 }
get_one_safe-get_one_example = get_one_safe-get_one two_contexts 1

coin_2_stays_selected : (get_one_safe two_contexts 1).1.device ≡ 2 ∷ 0 ∷ []
unfolding get_one_safe get_one jub_create_context_btc is_blade add_one is_lite
coin_2_stays_selected = refl

abbrev path_of : ℕ → ℕ → Bip44Path
path_of c i = record { change = c; address_index = i }

abbrev output_of : ScriptType → Bool → OutputBtc
output_of type change = record {
  type = type;
  std_output = record { address = []; amount = 1; change_address = change; path = path_of 1 7 };
  amount = 0;
  data_bytes = [];
}

abbrev payment : List OutputBtc
payment = output_of Script.p2pkh false ∷ output_of Script.p2pkh true ∷ []

-- The main path, then `/1/7`.
abbrev change_path_text : List ℕ
change_path_text = 0x6D ∷ 0x2F ∷ 0x31 ∷ 0x2F ∷ 0x37 ∷ []

signer : MaySign (context_of 0) recording
unfolding context_check_type is_p2sh_multisig
signer = record { allowed = refl; token = refl; one_signer = refl }

sign_tx-IsChange_example :
    (sign_tx 0 2 [] payment 0 (context_of 0) [] ≡ (ok [], []))
    × (Listed 1 change_path_text (changes (0x6D ∷ []) payment)
        ↔ IsChange (0x6D ∷ []) payment 1 change_path_text)
sign_tx-IsChange_example =
    sign_tx-IsChange (context_of 0) recording 0 2 0 [] payment [] 1 change_path_text signer
      (omega arith)

abbrev token_only : List OutputBtc
token_only = output_of Script.qrc20 false ∷ []

jub_sign_transaction_btc-qrc20_format_example :
    (jub_sign_transaction_btc 1 2 [] token_only 0 two_contexts
      ≡ (fail jubr_qrc20_wrong_format, two_contexts))
    ⊎ (NoQrc20 token_only ⊎ OneQrc20 token_only)
jub_sign_transaction_btc-qrc20_format_example =
    jub_sign_transaction_btc-qrc20_format 1 2 [] token_only 0 two_contexts

full_bip44_path-injective_example : ((path_of 1 7).change ≡ 1) × ((path_of 1 7).address_index ≡ 7)
full_bip44_path-injective_example =
    full_bip44_path-injective (0x6D ∷ []) (path_of 1 7) (path_of 1 7) refl
