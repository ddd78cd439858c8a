-- ===== src/Common/Slices.antt =====
-- Contiguous parts of a buffer, as `insert(end, p + a, p + b)` and `memcpy` read them.
use Prim.Native.Nat.{ℕ, ◌+◌, ◌-◌, ◌≤◌}
use mathlib.Core.Path.{◌≡◌, refl}
use mathlib.Core.Bool.{◌&&◌}
use mathlib.Core.List.{List, [], ◌∷◌, ◌++◌}
use mathlib.Core.Option.{Option, none, some}
use native.Mathlib.Omega.{arith}
use jubiter_sdk_c.Common.Tests.{leb, le→leb, if◌then◌else◌}
use jubiter_sdk_c.Common.Lists.{
  length, take, drop, length-append, take-length, drop-length, take_all,
}

module _ {ℓ} {A : Type ℓ} where
  -- The elements from index `a` up to `b`; `none` for a range that is no part of the buffer.
  unfoldable pub slice : ℕ → ℕ → List A → Option (List A)
  slice a b xs = if leb a b && leb b (length xs) then some (take (b - a) (drop a xs)) else none

  pub slice_in_range :
      (a b : ℕ) (xs : List A)
      → a ≤ b
      → b ≤ length xs
      → slice a b xs ≡ some (take (b - a) (drop a xs))
  unfolding slice
  slice_in_range a b xs h k = rw (le→leb a b h, le→leb b (length xs) k)

  pub slice-append :
      (a b : ℕ) (front part back : List A)
      → a ≡ length front
      → b ≡ a + length part
      → slice a b (front ++ (part ++ back)) ≡ some part
  slice-append a b front part back e k =
      let size : b - a ≡ length part = omega arith in
      rw (
        slice_in_range a b (front ++ (part ++ back)) (omega arith)
            (rw (length-append front (part ++ back), length-append part back) (omega arith)),
        size,
        e,
        drop-length front (part ++ back),
        take-length part back,
      )

  pub slice_all : (n : ℕ) (xs : List A) → n ≡ length xs → slice 0 n xs ≡ some xs
  slice_all n xs e = rw (
    slice_in_range 0 n xs (omega arith) (omega arith),
    take_all (n - 0) (drop 0 xs) (omega arith),
  )

  pub slice_prefix :
      (n : ℕ) (front back : List A) → n ≡ length front → slice 0 n (front ++ back) ≡ some front
  slice_prefix n front back e = slice-append 0 n [] front back refl (omega arith)

  pub take_short : (m n : ℕ) (xs : List A) → length xs ≤ m → length xs ≤ n → take m xs ≡ take n xs
  take_short m n xs h k = rw (take_all m xs h, take_all n xs k)

  -- The lists of a list, one after the other.
  abbrev pub concat : List (List A) → List A
  concat [] = []
  concat (xs ∷ xss) = xs ++ concat xss
