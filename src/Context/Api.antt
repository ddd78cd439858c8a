-- ===== src/Context/Api.antt =====
-- src/JUB_SDK_BTC.cpp, and the functions of src/JUB_SDK_COMM.cpp that take a context.
use jubiter_sdk_c.Common.{
  ℕ, ◌+◌, Bool, true, false, ◌||◌, ◌&&◌, not, Option, none, some, List, [], ◌∷◌, length, ◌==◌,
  if◌then◌else◌, Outcome, ok, fail, after,
}
use jubiter_sdk_c.Status.{jubr_memory_null_ptr, jubr_qrc20_wrong_format}
use jubiter_sdk_c.Manager.{add_one, clear_one}
use jubiter_sdk_c.Context.{BtcContext}
use jubiter_sdk_c.Context.Script.{InputBtc, OutputBtc, is_qrc20}
use jubiter_sdk_c.Context.Path.{Bip44Path}
use jubiter_sdk_c.Context.Btc
use jubiter_sdk_c.Context.Btc.{is_change}
use jubiter_sdk_c.Context.Active.{Sdk, Object, btc_context, activate, get_one_safe}

abbrev pub own : ℕ
own = 0

unfoldable pub store : {D : Type 0} → ℕ → BtcContext D → (ℕ → Object D) → ℕ → Object D
store p c heap q = if q == p then btc_context c else heap q

-- The loop of `JUB_SignTransactionBTC`: whether there is an output of QRC20, and how many are change.
unfoldable pub scan_outputs : List OutputBtc → Bool × ℕ
unfolding is_qrc20 is_change
scan_outputs [] = (false, 0)
scan_outputs (o ∷ outputs) =
    let (is_qrc, change_count) = scan_outputs outputs in
    if is_qrc20 o.type
    then (true, change_count)
    else if is_change o
    then (is_qrc, change_count + 1)
    else (is_qrc, change_count)

unfoldable pub qrc20_format : List OutputBtc → Bool
unfolding scan_outputs
qrc20_format outputs =
    let (is_qrc, change_count) = scan_outputs outputs in
    not is_qrc || (length outputs == 2 && change_count == 1)

module _ {D : Type 0} where
  -- `GetOneSafe`, the test of its result, and a call that does not change the context.
  unfoldable pub with_context :
      {A : Type 0} → ℕ → (BtcContext D → D → Outcome A × D) → Sdk D → Outcome A × Sdk D
  unfolding get_one_safe
  with_context id call s =
      let (found, s') = get_one_safe s id in
      elim found [
        | none ↦ (fail jubr_memory_null_ptr, s')
        | some (p, c) ↦ let (result, d) = call c s'.device in (result, record s' { device = d })
      ]

  -- The same with a call that may change it.
  unfoldable pub changing_context :
      {A : Type 0}
      → ℕ
      → (BtcContext D → D → Outcome A × (BtcContext D × D))
      → Sdk D
      → Outcome A × Sdk D
  unfolding get_one_safe store
  changing_context id call s =
      let (found, s') = get_one_safe s id in
      elim found [
        | none ↦ (fail jubr_memory_null_ptr, s')
        | some (p, c) ↦
            let (result, cd) = call c s'.device in
            (result, record s' { heap = store p cd.0 s'.heap; device = cd.1 })
      ]

  -- `JUB_CreateContextBTC`; the factory gives `created`, at the address `p`.
  unfoldable pub jub_create_context_btc : Option (ℕ × BtcContext D) → Sdk D → Outcome ℕ × Sdk D
  unfolding activate store Btc.preparatory_flow
  jub_create_context_btc none s = (fail jubr_memory_null_ptr, s)
  jub_create_context_btc (some (p, c)) s = after (activate c s) (λ _ s1.
      let (prepared, d) = Btc.preparatory_flow c s1.device in
      after (prepared, record s1 { heap = store p c s1.heap; device = d })
        (λ _ s2. let (id, m) = add_one s2.manager p in (ok id, record s2 { manager = m })))

  unfoldable pub jub_get_hd_node_btc : ℕ → Bip44Path → Sdk D → Outcome (List ℕ) × Sdk D
  unfolding with_context Btc.get_hd_node
  jub_get_hd_node_btc id path s = with_context id (Btc.get_hd_node path) s

  unfoldable pub jub_get_main_hd_node_btc : ℕ → Sdk D → Outcome (List ℕ) × Sdk D
  unfolding with_context Btc.get_main_hd_node
  jub_get_main_hd_node_btc id s = with_context id Btc.get_main_hd_node s

  unfoldable pub jub_get_address_btc : ℕ → Bip44Path → ℕ → Sdk D → Outcome (List ℕ) × Sdk D
  unfolding with_context Btc.get_address
  jub_get_address_btc id path bshow s = with_context id (Btc.get_address own path bshow) s

  unfoldable pub jub_set_my_address_btc : ℕ → Bip44Path → Sdk D → Outcome (List ℕ) × Sdk D
  unfolding with_context Btc.set_my_address
  jub_set_my_address_btc id path s = with_context id (Btc.set_my_address own path) s

  unfoldable pub jub_set_unit_btc : ℕ → ℕ → Sdk D → Outcome (Unit {0}) × Sdk D
  unfolding changing_context Btc.set_unit
  jub_set_unit_btc id unit_type s = changing_context id (Btc.set_unit unit_type) s

  unfoldable pub jub_sign_transaction_btc :
      ℕ → ℕ → List InputBtc → List OutputBtc → ℕ → Sdk D → Outcome (List ℕ) × Sdk D
  unfolding with_context Btc.sign_tx qrc20_format
  jub_sign_transaction_btc id version inputs outputs lock_time s =
      if qrc20_format outputs
      then with_context id (Btc.sign_tx own version inputs outputs lock_time) s
      else (fail jubr_qrc20_wrong_format, s)

  -- `JUB_ClearContext`.
  unfoldable pub jub_clear_context : ℕ → Sdk D → Sdk D
  jub_clear_context id s = record s { manager = clear_one s.manager id }
