-- ===== src/Context/PathText.antt =====
-- What the text of a derivation path tells.
use jubiter_sdk_c.Common.{
  ℕ, zero, suc, ◌+◌, ◌-◌, ◌*◌, ◌/◌, ◌%◌, ◌≤◌, ◌<◌, ◌≡◌, refl, sym, ap, ◌∙◌, Bool-cases, inl, inr,
  List, [], ◌∷◌, ◌++◌, All, All-append, ltb, arith,
}
use jubiter_sdk_c.Context.Path.{Bip44Path, digits, to_string, slash, full_bip44_path}

-- The number that decimal digits spell behind `acc`.
unfoldable pub value : List ℕ → ℕ → ℕ
value [] acc = acc
value (c ∷ cs) acc = value cs (acc * 10 + (c - 0x30))

value-append : (xs ys : List ℕ) (acc : ℕ) → value (xs ++ ys) acc ≡ value ys (value xs acc)
unfolding value
value-append [] ys acc = refl
value-append (x ∷ xs) ys acc = value-append xs ys (acc * 10 + (x - 0x30))

value-digits : (fuel n : ℕ) → n < fuel → value (digits fuel n) 0 ≡ n
unfolding digits value
value-digits zero n h = absurd (omega arith)
value-digits (suc fuel) n h = elim (Bool-cases (ltb n 10)) [
  | inl small ↦ rw small (omega arith)
  | inr large ↦
      let front : n / 10 < fuel = ground arith in
      rw
        (
          large,
          value-append (digits fuel (n / 10)) ((0x30 + n % 10) ∷ []) 0,
          value-digits fuel (n / 10) front,
        )
        (omega arith)
]

IsDigit : ℕ → Type 0
IsDigit c = 0x30 ≤ c

digits-IsDigit : (fuel n : ℕ) → All IsDigit (digits fuel n)
unfolding digits IsDigit
digits-IsDigit zero n = tt
digits-IsDigit (suc fuel) n = elim (Bool-cases (ltb n 10)) [
  | inl small ↦ rw small (omega arith, tt)
  | inr large ↦ rw large (
      All-append IsDigit (digits fuel (n / 10)) ((0x30 + n % 10) ∷ [])
        (digits-IsDigit fuel (n / 10)) (omega arith, tt))
]

-- Digits end at the first slash.
split_unique :
    (xs ys us vs : List ℕ)
    → All IsDigit xs
    → All IsDigit us
    → xs ++ slash ∷ ys ≡ us ++ slash ∷ vs
    → (xs ≡ us) × (ys ≡ vs)
unfolding IsDigit
split_unique [] ys [] vs p q e = (refl, cc)
split_unique [] ys (u ∷ us) vs p q e = let same : slash ≡ u = cc in absurd (omega (arith, q.0))
split_unique (x ∷ xs) ys [] vs p q e = let same : x ≡ slash = cc in absurd (omega (arith, p.0))
split_unique (x ∷ xs) ys (u ∷ us) vs p q e =
    let head : x ≡ u = cc in
    let tail : xs ++ slash ∷ ys ≡ us ++ slash ∷ vs = cc in
    let (f, g) = split_unique xs ys us vs p.1 q.1 tail in (cc, g)

same_front : (front xs ys : List ℕ) → front ++ xs ≡ front ++ ys → xs ≡ ys
same_front [] xs ys e = e
same_front (x ∷ front) xs ys e = same_front front xs ys cc

to_string-injective : (m n : ℕ) → to_string m ≡ to_string n → m ≡ n
unfolding to_string
to_string-injective m n e =
    sym (value-digits (suc m) m (omega arith))
    ∙ ap (λ (xs : List ℕ). value xs 0) e
    ∙ value-digits (suc n) n (omega arith)

-- Two paths of keys below the same main path have the same text only if they have the same change
-- and the same index.
pub full_bip44_path-injective :
    (main_path : List ℕ) (p q : Bip44Path)
    → full_bip44_path main_path p ≡ full_bip44_path main_path q
    → (p.change ≡ q.change) × (p.address_index ≡ q.address_index)
unfolding full_bip44_path to_string
full_bip44_path-injective main_path p q e =
    let behind = same_front main_path _ _ e in
    let same : to_string p.change ++ slash ∷ to_string p.address_index
        ≡ to_string q.change ++ slash ∷ to_string q.address_index =
      cc in
    let (c, i) =
      split_unique (to_string p.change) (to_string p.address_index) (to_string q.change)
        (to_string q.address_index) (digits-IsDigit (suc p.change) p.change)
        (digits-IsDigit (suc q.change) q.change) same in
    (to_string-injective p.change q.change c, to_string-injective p.address_index q.address_index i)
