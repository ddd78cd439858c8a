-- ===== src/Context/Outputs.antt =====
-- The form of a transaction of QRC20.
use jubiter_sdk_c.Common.{
  ℕ, ◌≡◌, ◌⊎◌, refl, true, false, Bool-cases, inl, inr, List, [], ◌∷◌, length, All, ◌==◌, fail,
  arith,
}
use jubiter_sdk_c.Context.Script.{InputBtc, OutputBtc, is_qrc20}
use jubiter_sdk_c.Context.Btc.{is_change}
use jubiter_sdk_c.Context.Api.{scan_outputs, qrc20_format, jub_sign_transaction_btc}
use jubiter_sdk_c.Context.Active.{Sdk}
use jubiter_sdk_c.Status.{jubr_qrc20_wrong_format}

-- No output is of QRC20.
abbrev pub NoQrc20 : List OutputBtc → Type 0
NoQrc20 outputs = All (λ (o : OutputBtc). is_qrc20 o.type ≡ false) outputs

no_qrc20 : (outputs : List OutputBtc) → (scan_outputs outputs).0 ≡ false → NoQrc20 outputs
unfolding scan_outputs
no_qrc20 [] h = tt
no_qrc20 (o ∷ outputs) h = elim (Bool-cases (is_qrc20 o.type)) [
  | inl e ↦ absurd (ground arith)
  | inr e ↦ (e, no_qrc20 outputs (ground arith))
]

-- One output is of QRC20, and the only other one is change.
abbrev pub OneQrc20 : List OutputBtc → Type 0
OneQrc20 outputs =
    (q c : OutputBtc) × ((outputs ≡ q ∷ c ∷ []) ⊎ (outputs ≡ c ∷ q ∷ []))
    × (is_qrc20 q.type ≡ true)
    × (is_change c ≡ true)

two_outputs :
    (a b : OutputBtc)
    → qrc20_format (a ∷ b ∷ []) ≡ true
    → NoQrc20 (a ∷ b ∷ []) ⊎ OneQrc20 (a ∷ b ∷ [])
unfolding qrc20_format scan_outputs
two_outputs a b h = elim (Bool-cases (is_qrc20 a.type)) [
  | inl qa ↦ elim (Bool-cases (is_qrc20 b.type)) [
    | inl qb ↦ absurd (ground arith)
    | inr qb ↦ inr (a, b, inl refl, qa, ground arith)
  ]
  | inr qa ↦ elim (Bool-cases (is_qrc20 b.type)) [
    | inl qb ↦ inr (b, a, inr refl, qb, ground arith)
    | inr qb ↦ inl (qa, (qb, tt))
  ]
]

other_size :
    (outputs : List OutputBtc)
    → (length outputs == 2) ≡ false
    → qrc20_format outputs ≡ true
    → NoQrc20 outputs
unfolding qrc20_format
other_size outputs l h = elim (Bool-cases (scan_outputs outputs).0) [
  | inl e ↦ absurd (ground arith)
  | inr e ↦ no_qrc20 outputs e
]

format_accepted :
    (outputs : List OutputBtc) → qrc20_format outputs ≡ true → NoQrc20 outputs ⊎ OneQrc20 outputs
format_accepted [] h = inl tt
format_accepted (a ∷ []) h = inl (other_size (a ∷ []) refl h)
format_accepted (a ∷ b ∷ []) h = two_outputs a b h
format_accepted (a ∷ b ∷ c ∷ outputs) h = inl (other_size (a ∷ b ∷ c ∷ outputs) (ground arith) h)

-- For every state, handle and transaction: `JUB_SignTransactionBTC` returns
-- `JUBR_QRC20_WRONG_FORMAT` and changes nothing, or no output is of QRC20, or there are two outputs, one
-- of QRC20 and one that is change.
pub jub_sign_transaction_btc-qrc20_format :
    {D : Type 0} (id version : ℕ) (inputs : List InputBtc) (outputs : List OutputBtc)
    (lock_time : ℕ) (s : Sdk D)
    → (jub_sign_transaction_btc id version inputs outputs lock_time s
        ≡ (fail jubr_qrc20_wrong_format, s))
      ⊎ (NoQrc20 outputs ⊎ OneQrc20 outputs)
unfolding jub_sign_transaction_btc
jub_sign_transaction_btc-qrc20_format id version inputs outputs lock_time s =
    elim (Bool-cases (qrc20_format outputs)) [
      | inl e ↦ inr (format_accepted outputs e)
      | inr e ↦ inl (rw e)
    ]
