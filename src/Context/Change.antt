-- ===== src/Context/Change.antt =====
-- The outputs that `SignTX` of src/context/BTCContext.cpp tells the token are change.
use jubiter_sdk_c.Common.{
  ℕ, zero, suc, ◌+◌, ◌%◌, ◌^◌, ◌≤◌, ◌≡◌, ◌↔◌, ◌⊎◌, refl, sym, Bool, true, false, inl, inr, some,
  List, [], ◌∷◌, ◌++◌, length, get_elem?, ok, after, arith,
}
use jubiter_sdk_c.Context.{BtcContext, BtcToken, btc, context_check_type, as_btc, type_private}
use jubiter_sdk_c.Context.Script.{
  ScriptType, p2pkh, return0, p2sh_multisig, qrc20, p2wsh_multisig, InputBtc, OutputBtc, is_p2pkh,
}
use jubiter_sdk_c.Context.Path.{full_bip44_path, to_string}
use jubiter_sdk_c.Context.Btc.{
  changes, changes_from, add_change, is_change, sign_tx, checked, is_p2sh_multisig, input_amounts,
  input_paths,
}

-- The two lists that the loop fills, read side by side.
unfoldable pub Listed : ℕ → List ℕ → List ℕ × List (List ℕ) → Type 0
Listed k q ([], paths) = ⊥
Listed k q (i ∷ indices, []) = ⊥
Listed k q (i ∷ indices, p ∷ paths) = ((k ≡ i) × (q ≡ p)) ⊎ Listed k q (indices, paths)

added :
    (b : Bool) (i k : ℕ) (p q : List ℕ) (found : List ℕ × List (List ℕ))
    → Listed k q (add_change b i p found)
    → ((b ≡ true) × (k ≡ i % 2 ^ 16) × (q ≡ p)) ⊎ Listed k q found
unfolding Listed add_change
added true i k p q found (inl (e, f)) = inl (refl, e, f)
added true i k p q found (inr h) = inr h
added false i k p q found h = inr h

add_here :
    (b : Bool) (i : ℕ) (p : List ℕ) (found : List ℕ × List (List ℕ))
    → b ≡ true
    → Listed (i % 2 ^ 16) p (add_change b i p found)
unfolding Listed add_change
add_here true i p found e = inl (refl, refl)
add_here false i p found e = absurd cc

add_later :
    (b : Bool) (i k : ℕ) (p q : List ℕ) (found : List ℕ × List (List ℕ))
    → Listed k q found
    → Listed k q (add_change b i p found)
unfolding Listed add_change
add_later true i k p q found h = inr h
add_later false i k p q found h = h

is_p2pkh_only : (t : ScriptType) → is_p2pkh t ≡ true → t ≡ p2pkh
unfolding is_p2pkh
is_p2pkh_only p2pkh h = refl
is_p2pkh_only return0 h = cc
is_p2pkh_only p2sh_multisig h = cc
is_p2pkh_only qrc20 h = cc
is_p2pkh_only p2wsh_multisig h = cc

change_parts :
    (o : OutputBtc) → is_change o ≡ true → (o.type ≡ p2pkh) × (o.std_output.change_address ≡ true)
unfolding is_change
change_parts o h =
    let paid : is_p2pkh o.type ≡ true = ground arith in (is_p2pkh_only o.type paid, ground arith)

parts_change :
    (o : OutputBtc) → o.type ≡ p2pkh → o.std_output.change_address ≡ true → is_change o ≡ true
unfolding is_change is_p2pkh
parts_change o t m = rw (t, m)

module _ (main_path : List ℕ) where
  -- Output `j` pays to the hash of a public key and is marked as change, and `q` is the main path, the
  -- chain and the index of its key, as decimal numbers behind slashes.
  abbrev pub IsChange : List OutputBtc → ℕ → List ℕ → Type 0
  IsChange outputs j q =
      (o : OutputBtc) × (get_elem? outputs j ≡ some o)
      × (o.type ≡ p2pkh)
      × (o.std_output.change_address ≡ true)
      × (q
          ≡ main_path
            ++ 0x2F
              ∷ (to_string o.std_output.path.change
                  ++ 0x2F ∷ to_string o.std_output.path.address_index))

  changes_from_sound :
      (i k : ℕ) (q : List ℕ) (outputs : List OutputBtc)
      → i + length outputs ≤ 2 ^ 16
      → Listed k q (changes_from main_path i outputs)
      → (j : ℕ) × (k ≡ i + j) × IsChange outputs j q
  unfolding changes_from Listed full_bip44_path
  changes_from_sound i k q [] l h = absurd h
  changes_from_sound i k q (o ∷ outputs) l h =
      elim (added (is_change o) i k (full_bip44_path main_path o.std_output.path) q
        (changes_from main_path (i + 1) outputs) h) [
          | inl (c, e, f) ↦ let (t, m) = change_parts o c in (0, omega arith, (o, refl, t, m, f))
          | inr later ↦
              let (j, e, found) = changes_from_sound (i + 1) k q outputs (omega arith) later in
              (suc j, omega arith, found)
        ]

  changes_from_complete :
      (i j : ℕ) (q : List ℕ) (outputs : List OutputBtc)
      → i + length outputs ≤ 2 ^ 16
      → IsChange outputs j q
      → Listed (i + j) q (changes_from main_path i outputs)
  unfolding changes_from Listed full_bip44_path
  changes_from_complete i j q [] l h = absurd cc
  changes_from_complete i zero q (p ∷ outputs) l (o, e, t, m, f) =
      let same : p ≡ o = cc in
      let c = parts_change o t m in
      let number : i % 2 ^ 16 ≡ i = omega arith in
      let start : i + 0 ≡ i = omega arith in
      rw (start, f, ← same)
        (rw (number) at (
          add_here (is_change p) i (full_bip44_path main_path p.std_output.path)
            (changes_from main_path (i + 1) outputs) (rw same c)))
  changes_from_complete i (suc j) q (p ∷ outputs) l h =
      let number : i + 1 + j ≡ i + suc j = omega arith in
      add_later (is_change p) i (i + suc j) (full_bip44_path main_path p.std_output.path) q
        (changes_from main_path (i + 1) outputs)
        (rw (number) at (changes_from_complete (i + 1) j q outputs (omega arith) h))

  changes-IsChange :
      (outputs : List OutputBtc) (j : ℕ) (q : List ℕ)
      → length outputs ≤ 2 ^ 16
      → Listed j q (changes main_path outputs) ↔ IsChange outputs j q
  unfolding changes
  changes-IsChange outputs j q l =
      let start : 0 + j ≡ j = omega arith in
      (
        (λ h.
            let (i, e, found) = changes_from_sound 0 j q outputs (omega arith) h in
            let same : i ≡ j = omega arith in rw (sym same) found),
        (λ h. rw start at (changes_from_complete 0 j q outputs (omega arith) h)),
      )

module _ {D : Type 0} where
  -- A context that may sign, for a token of the BTC series.
  pub record MaySign (c : BtcContext D) (t : BtcToken D) : Type 0 where
    pub allowed : context_check_type type_private c ≡ ok tt
    pub token : c.token ≡ btc t
    pub one_signer : is_p2sh_multisig c.trans_type ≡ false

  -- In a context that may sign and whose type is not `p2sh_multisig`, for at most 2 ^ 16 outputs: `SignTX`
  -- serialises the transaction and signs it with two lists for the change. They list the number `j`
  -- with the path `q` if and only if output `j` pays to the hash of a public key and is marked as
  -- change, and `q` is the main path, the chain and the index of its key.
  pub sign_tx-IsChange :
      (c : BtcContext D) (t : BtcToken D) (addr_fmt version lock_time : ℕ) (inputs : List InputBtc)
      (outputs : List OutputBtc) (d : D) (j : ℕ) (q : List ℕ)
      → MaySign c t
      → length outputs ≤ 2 ^ 16
      → let (indices, paths) = changes c.main_path outputs in
        (sign_tx addr_fmt version inputs outputs lock_time c d
          ≡ after
              (t.serialize_unsigned_tx c.trans_type version inputs outputs lock_time c.coin_net d)
              (λ unsigned d'.
                t.sign_tx addr_fmt c.trans_type
                  (length inputs % 2 ^ 16)
                  (input_amounts inputs)
                  (input_paths c.main_path inputs)
                  indices
                  paths
                  unsigned
                  c.coin_net
                  d'))
        × (Listed j q (indices, paths) ↔ IsChange c.main_path outputs j q)
  unfolding sign_tx checked as_btc
  sign_tx-IsChange c t addr_fmt version lock_time inputs outputs d j q m l =
      (rw (m.allowed, m.token, m.one_signer) refl, changes-IsChange c.main_path outputs j q l)
