-- ===== src/Manager/Handles.antt =====
-- Handles of include/utility/xManager.hpp: their order, and what a handle leads to.
use jubiter_sdk_c.Common.{
  ℕ, suc, ◌<◌, ◌≤◌, ◌≡◌, refl, false, none, some, List, [], ◌∷◌, ltb, ◌==◌, inl, inr, Bool-cases,
  ==_self, ltb→lt, arith,
}
use jubiter_sdk_c.Manager.{find, insert, erase}

module _ {ℓ} {T : Type ℓ} where
  -- No key lies below a bound, and they grow from entry to entry.
  unfoldable pub Ascending : ℕ → List (ℕ × T) → Type 0
  Ascending b [] = Unit
  Ascending b ((k, x) ∷ m) = (b ≤ k) × Ascending (suc k) m

  pub find_below : (b k : ℕ) (m : List (ℕ × T)) → Ascending b m → k < b → find m k ≡ none
  unfolding find Ascending
  find_below b k [] a h = refl
  find_below b k ((k', x) ∷ m) a h =
      let other : (k' == k) ≡ false = ground arith in
      rw (other, find_below (suc k') k m a.1 (omega arith))

  pub insert-Ascending :
      (b k : ℕ) (x : T) (m : List (ℕ × T)) → b ≤ k → Ascending b m → Ascending b (insert m k x)
  unfolding insert Ascending
  insert-Ascending b k x [] h a = (h, tt)
  insert-Ascending b k x ((k', x') ∷ m) h a = elim (Bool-cases (ltb k k')) [
    | inl below ↦ rw below (h, (ltb→lt k k' below, a.1))
    | inr above ↦ elim (Bool-cases (k' == k)) [
      | inl same ↦ rw (above, same) a
      | inr other ↦ rw (above, other) (a.0, insert-Ascending (suc k') k x m (ground arith) a.1)
    ]
  ]

  -- A key that was not in use leads to what was inserted.
  pub find-insert :
      (b k : ℕ) (x : T) (m : List (ℕ × T))
      → Ascending b m
      → find m k ≡ none
      → find (insert m k x) k ≡ some x
  unfolding find insert Ascending
  find-insert b k x [] a e = rw (==_self k)
  find-insert b k x ((k', x') ∷ m) a e = elim (Bool-cases (ltb k k')) [
    | inl below ↦ rw (below, ==_self k)
    | inr above ↦ elim (Bool-cases (k' == k)) [
      | inl same ↦ absurd (grind arith)
      | inr other ↦ rw (above, other, other) (find-insert (suc k') k x m a.1 (rw other at e))
    ]
  ]

  -- The other keys lead where they led.
  pub find-insert_other :
      (k j : ℕ) (x : T) (m : List (ℕ × T)) → (k == j) ≡ false → find (insert m k x) j ≡ find m j
  unfolding find insert
  find-insert_other k j x [] h = rw h
  find-insert_other k j x ((k', x') ∷ m) h = elim (Bool-cases (ltb k k')) [
    | inl below ↦ rw (below, h)
    | inr above ↦ elim (Bool-cases (k' == k)) [
      | inl same ↦ rw (above, same)
      | inr other ↦ rw (above, other, find-insert_other k j x m h)
    ]
  ]

  -- A key that is in use keeps its object, and the map is what it was.
  pub insert_used :
      (b k : ℕ) (x y : T) (m : List (ℕ × T)) → Ascending b m → find m k ≡ some y → insert m k x ≡ m
  unfolding find insert Ascending
  insert_used b k x y [] a e = absurd (grind arith)
  insert_used b k x y ((k', x') ∷ m) a e = elim (Bool-cases (k' == k)) [
    | inl same ↦ let above : ltb k k' ≡ false = ground arith in rw (above, same)
    | inr other ↦ elim (Bool-cases (ltb k k')) [
      | inl below ↦
          let missing = find_below (suc k') k m a.1 (ground arith) in
          absurd (grind (arith, missing))
      | inr above ↦ rw (above, other, insert_used (suc k') k x y m a.1 (rw other at e))
    ]
  ]

  -- Erasing a key: it leads nowhere, the others lead where they led, and the order is kept.
  pub find-erase : (b k : ℕ) (m : List (ℕ × T)) → Ascending b m → find (erase m k) k ≡ none
  unfolding find erase Ascending
  find-erase b k [] a = refl
  find-erase b k ((k', x') ∷ m) a = elim (Bool-cases (k' == k)) [
    | inl same ↦ rw same (find_below (suc k') k m a.1 (ground arith))
    | inr other ↦ rw (other, other) (find-erase (suc k') k m a.1)
  ]

  pub find-erase_other :
      (k j : ℕ) (m : List (ℕ × T)) → (k == j) ≡ false → find (erase m k) j ≡ find m j
  unfolding find erase
  find-erase_other k j [] h = refl
  find-erase_other k j ((k', x') ∷ m) h = elim (Bool-cases (k' == k)) [
    | inl same ↦ let other : (k' == j) ≡ false = ground arith in rw (same, other)
    | inr other ↦ rw (other, find-erase_other k j m h)
  ]

  Ascending-lower : (b c : ℕ) (m : List (ℕ × T)) → b ≤ c → Ascending c m → Ascending b m
  unfolding Ascending
  Ascending-lower b c [] h a = tt
  Ascending-lower b c ((k, x) ∷ m) h a = (omega arith, a.1)

  pub erase-Ascending : (b k : ℕ) (m : List (ℕ × T)) → Ascending b m → Ascending b (erase m k)
  unfolding erase Ascending
  erase-Ascending b k [] a = tt
  erase-Ascending b k ((k', x') ∷ m) a = elim (Bool-cases (k' == k)) [
    | inl same ↦ rw same (Ascending-lower b (suc k') m (omega arith) a.1)
    | inr other ↦ rw other (a.0, erase-Ascending (suc k') k m a.1)
  ]
