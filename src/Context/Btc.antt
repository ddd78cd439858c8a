-- ===== src/Context/Btc.antt =====
-- src/context/BTCContext.cpp: what a context of the BTC series asks of its token.
use jubiter_sdk_c.Common.{
  ℕ, ◌+◌, ◌%◌, ◌^◌, Bool, true, false, none, some, List, [], ◌∷◌, ◌++◌, map, length, if◌then◌else◌,
  ◌&&◌, Outcome, ok, fail, after, take, within, leb, ◌>>=◌,
}
use jubiter_sdk_c.Status.{jubr_memory_null_ptr, jubr_impl_not_support}
use jubiter_sdk_c.Context.{
  BtcContext, BtcToken, null, other, btc, as_btc, TransType, p2sh_multisig, context_check_type,
  type_none, type_public, type_private,
}
use jubiter_sdk_c.Context.Script.{InputBtc, OutputBtc, p2pkh, return0, is_p2pkh}
use jubiter_sdk_c.Context.Path.{Bip44Path, full_bip44_path}
use jubiter_sdk_c.Context.Base.{is_device, set_timeout}

unfoldable pub is_p2sh_multisig : TransType → Bool
is_p2sh_multisig p2sh_multisig = true
is_p2sh_multisig _ = false

-- The paths and amounts of the inputs.
unfoldable pub input_amounts : List InputBtc → List ℕ
input_amounts inputs = map (λ (i : InputBtc). i.amount) inputs

unfoldable pub input_paths : List ℕ → List InputBtc → List (List ℕ)
unfolding full_bip44_path
input_paths main_path inputs = map (λ (i : InputBtc). full_bip44_path main_path i.path) inputs

unfoldable pub is_change : OutputBtc → Bool
unfolding is_p2pkh
is_change o = is_p2pkh o.type && o.std_output.change_address

-- What a round of the loop over the outputs adds: a 16-bit index and a path.
unfoldable pub add_change : Bool → ℕ → List ℕ → List ℕ × List (List ℕ) → List ℕ × List (List ℕ)
add_change true i path (indices, paths) = (i % 2 ^ 16 ∷ indices, path ∷ paths)
add_change false i path found = found

unfoldable pub changes_from : List ℕ → ℕ → List OutputBtc → List ℕ × List (List ℕ)
unfolding add_change is_change full_bip44_path
changes_from main_path i [] = ([], [])
changes_from main_path i (o ∷ outputs) =
    add_change (is_change o) i (full_bip44_path main_path o.std_output.path)
      (changes_from main_path (i + 1) outputs)

unfoldable pub changes : List ℕ → List OutputBtc → List ℕ × List (List ℕ)
unfolding changes_from
changes main_path outputs = changes_from main_path 0 outputs

module _ {D : Type 0} where
  -- `CONTEXT_CHECK_TYPE`, and the cast of the token.
  unfoldable pub checked : ℕ → BtcContext D → D → Outcome (BtcToken D) × D
  unfolding context_check_type as_btc
  checked t c d = (context_check_type t c >>= λ _. as_btc c.token, d)

  unfoldable pub get_hd_node : Bip44Path → BtcContext D → D → Outcome (List ℕ) × D
  unfolding checked is_p2sh_multisig full_bip44_path
  get_hd_node path c d = after (checked type_public c d) (λ t d'.
      let str_path =
        if is_p2sh_multisig c.trans_type
        then c.multi_sig_ext.full_bip44_path c.main_path path
        else full_bip44_path c.main_path path in
      t.get_hd_node c.trans_type str_path c.coin_net d')

  unfoldable pub get_main_hd_node : BtcContext D → D → Outcome (List ℕ) × D
  unfolding checked
  get_main_hd_node c d =
      after (checked type_public c d) (λ t d'. t.get_hd_node c.trans_type c.main_path c.coin_net d')

  unfoldable pub get_address : ℕ → Bip44Path → ℕ → BtcContext D → D → Outcome (List ℕ) × D
  unfolding checked is_p2sh_multisig full_bip44_path
  get_address addr_fmt path tag c d = after (checked type_public c d) (λ t d'.
      elim (is_p2sh_multisig c.trans_type) [
        | true ↦ c.multi_sig_ext.get_address t c.main_path addr_fmt path tag c.coin_net d'
        | false ↦
            t.get_address addr_fmt c.trans_type (full_bip44_path c.main_path path) tag
              (some c.coin_net) d'
      ])

  -- The token's default stands for the coin's net.
  unfoldable pub set_my_address : ℕ → Bip44Path → BtcContext D → D → Outcome (List ℕ) × D
  unfolding checked full_bip44_path
  set_my_address addr_fmt path c d =
      after (checked type_public c d) (λ t d'.
        t.get_address addr_fmt c.trans_type (full_bip44_path c.main_path path) 0x02 none d')

  unfoldable pub check_address : List ℕ → BtcContext D → D → Outcome (Unit {0}) × D
  unfolding checked
  check_address address c d = after (checked type_none c d) (λ t d'. t.check_address address d')

  unfoldable pub set_unit : ℕ → BtcContext D → D → Outcome (Unit {0}) × (BtcContext D × D)
  unfolding checked
  set_unit unit_type c d =
      after ((checked type_none c d).0, (c, d))
        (λ t s.
          let (result, d') = t.set_unit unit_type s.1 in
          (result, (record c { unit_type = unit_type }, d')))

  -- `SetTimeout` is called for the tokens that it can be set for.
  unfoldable pub restore_timeout : BtcContext D → D → Outcome (Unit {0}) × D
  unfolding is_device set_timeout
  restore_timeout c d =
      let (result, s) = set_timeout c.timeout c d in
      if is_device c then (result, s.1) else (ok tt, d)

  -- `ActiveSelf` up to the call of `ClearLast`.
  unfoldable pub active_token : BtcToken D → BtcContext D → D → Outcome (Unit {0}) × D
  unfolding restore_timeout
  active_token t c d = after (t.select_applet d) (λ _ d1.
      after (restore_timeout c d1)
        (λ _ d2. after (t.set_unit c.unit_type d2) (λ _ d3. t.set_coin c.coin_type d3)))

  unfoldable pub active_self : BtcContext D → D → Outcome (Unit {0}) × D
  unfolding active_token
  active_self c d = elim c.token [
    | null ↦ (fail jubr_memory_null_ptr, d)
    | other ↦ (fail jubr_impl_not_support, d)
    | btc t ↦ active_token t c d
  ]

  unfoldable pub preparatory_flow : BtcContext D → D → Outcome (Unit {0}) × D
  unfolding is_p2sh_multisig get_main_hd_node
  preparatory_flow c d = elim (is_p2sh_multisig c.trans_type) [
    | false ↦ (ok tt, d)
    | true ↦ elim c.token [
      | null ↦ (fail jubr_memory_null_ptr, d)
      | _ ↦
          after (get_main_hd_node c d)
            (λ main_xpub d'. (c.multi_sig_ext.preparatory_flow main_xpub, d'))
    ]
  ]

  -- `SignTX`, to the bytes of the signed transaction; the caller gets them as hexadecimal digits.
  unfoldable pub sign_tx :
      ℕ → ℕ → List InputBtc → List OutputBtc → ℕ → BtcContext D → D → Outcome (List ℕ) × D
  unfolding checked is_p2sh_multisig input_amounts input_paths changes
  sign_tx addr_fmt version inputs outputs lock_time c d = after (checked type_private c d) (λ t d1.
      elim (is_p2sh_multisig c.trans_type) [
        | true ↦
            c.multi_sig_ext.sign_tx t c.main_path c.coin_type addr_fmt version inputs outputs
              lock_time d1
        | false ↦
            let (change_index, change_path) = changes c.main_path outputs in
            after
              (t.serialize_unsigned_tx c.trans_type version inputs outputs lock_time c.coin_net d1)
              (λ unsigned d2.
                t.sign_tx addr_fmt c.trans_type (length inputs % 2 ^ 16) (input_amounts inputs)
                  (input_paths c.main_path inputs) change_index change_path unsigned c.coin_net d2)
      ])

-- The 12 bytes in front of the amount.
abbrev pub omni : List ℕ
omni = 0x6F ∷ 0x6D ∷ 0x6E ∷ 0x69 ∷ 0 ∷ 0 ∷ 0 ∷ 0 ∷ 0 ∷ 0 ∷ 0 ∷ 0x1F ∷ []

-- `BuildUSDTOutputs`; `encode_64_be` is `TW::encode64BE`. The fields that the code does not write are
-- those of the caller's `outputs`.
unfoldable pub build_usdt_outputs :
    {D : Type 0}
    → (encode_64_be : ℕ → List ℕ) → List ℕ
    → ℕ
    → OutputBtc × OutputBtc
    → BtcContext D
    → Outcome (OutputBtc × OutputBtc)
unfolding context_check_type
build_usdt_outputs encode_64_be usdt_to amount outputs c = context_check_type type_none c >>= λ _.
    let bytes = omni ++ encode_64_be amount in
    let (o0, o1) = outputs in
    let std = o1.std_output in
    within (leb 20 (length bytes)) >>= λ _. ok (
      record o0 { type = return0; amount = 0; data_bytes = take 20 bytes },
      record o1 {
        type = p2pkh;
        std_output = record std { address = usdt_to; amount = 546; change_address = false };
      },
    )
