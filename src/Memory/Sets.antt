-- ===== src/Memory/Sets.antt =====
-- Sets of addresses, as src/JUB_SDK_COMM.cpp uses a `std::set`: insertion, erasure and lookup.
use jubiter_sdk_c.Common.{
  ℕ, ◌≡◌, ◌≢◌, refl, Bool, false, ◌||◌, List, [], ◌∷◌, ◌==◌, if◌then◌else◌, Bool-cases, inl, inr,
  arith,
}

unfoldable pub contains : List ℕ → ℕ → Bool
contains [] q = false
contains (x ∷ xs) q = x == q || contains xs q

unfoldable pub remove : ℕ → List ℕ → List ℕ
remove p [] = []
remove p (x ∷ xs) = let rest = remove p xs in if x == p then rest else x ∷ rest

-- What is erased is no longer found, and everything else is found as before.
pub contains-remove : (p : ℕ) (xs : List ℕ) → contains (remove p xs) p ≡ false
unfolding contains remove
contains-remove p [] = refl
contains-remove p (x ∷ xs) = elim (Bool-cases (x == p)) [
  | inl same ↦ rw same (contains-remove p xs)
  | inr other ↦ rw (other, other) (contains-remove p xs)
]

pub contains-remove_other :
    (p q : ℕ) (xs : List ℕ) → p ≢ q → contains (remove p xs) q ≡ contains xs q
unfolding contains remove
contains-remove_other p q [] h = refl
contains-remove_other p q (x ∷ xs) h =
    let rest = contains-remove_other p q xs h in
    elim (Bool-cases (x == p)) [
      | inl same ↦ let other : (x == q) ≡ false = ground (arith, h, same) in rw (same, other) rest
      | inr different ↦ rw (different, rest)
    ]
