-- ===== src/Common/Bits.antt =====
-- `(hi << 8) | lo`, as the code joins two bytes.
use Prim.Native.Nat.{
  ℕ, zero, suc, ◌+◌, ◌*◌, ◌/◌, ◌%◌, ◌≤◌, ◌<◌, max, bit_or, digits, bit_or-bitwise,
}
use mathlib.Core.Path.{◌≡◌, refl}
use mathlib.Core.Bool.{Bool, true, ◌&&◌}
use native.Mathlib.Omega.{arith}
use jubiter_sdk_c.Common.Tests.{ltb, ltb→lt, ◌==◌, ==_iff}

-- `hi << k`, one place after the other.
abbrev shifted : ℕ → ℕ → ℕ
shifted zero hi = hi
shifted (suc k) hi = shifted k hi * 2

-- The digits of a number shifted by `k` places do not meet those of a number of `k` places.
join_digits :
    (k fuel x hi lo : ℕ)
    → x ≤ fuel
    → x ≡ shifted k hi
    → lo < shifted k 1
    → digits (λ d. d) max fuel x lo ≡ x + lo
join_digits k zero zero hi lo enough e small = omega arith
join_digits k (suc fuel) zero hi lo enough e small = omega arith
join_digits k zero (suc x) hi lo enough e small = absurd (omega arith)
join_digits zero (suc fuel) (suc x) hi lo enough e small =
    let upper =
      join_digits zero fuel (suc x / 2) (suc x / 2) (lo / 2) (omega arith) refl (omega arith) in
    omega (arith, upper)
join_digits (suc k) (suc fuel) (suc x) hi lo enough e small =
    let upper =
      join_digits k fuel (suc x / 2) hi (lo / 2) (omega arith) (omega arith) (omega arith) in
    omega (arith, upper)

pub bit_or_word : (hi lo : ℕ) → lo < 256 → bit_or (hi * 0x100) lo ≡ hi * 0x100 + lo
bit_or_word hi lo h =
    let joined = join_digits 8 (hi * 0x100) (hi * 0x100) hi lo (omega arith) (omega arith) h in
    omega (arith, bit_or-bitwise (hi * 0x100) lo, joined)

-- A statement on every byte, by evaluation.
unfoldable pub check_below : ℕ → (ℕ → Bool) → Bool
check_below zero p = true
check_below (suc n) p = p n && check_below n p

pub check_below-lt : (n : ℕ) (p : ℕ → Bool) (x : ℕ) → check_below n p ≡ true → x < n → p x ≡ true
unfolding check_below
check_below-lt zero p x h k = absurd (omega arith)
check_below-lt (suc n) p x h k = ground (arith, check_below-lt n p x)

third_bit : check_below 256 (λ x. ltb (bit_or x 0x04) 256) ≡ true
unfolding check_below
third_bit = refl

second_bit : check_below 256 (λ x. ltb (bit_or 0x02 x) 256) ≡ true
unfolding check_below
second_bit = refl

low_bits : check_below 256 (λ x. ltb (bit_or 0x03 x) 256) ≡ true
unfolding check_below
low_bits = refl

-- A byte with more bits set is a byte.
pub bit_or_byte : (x : ℕ) → x < 256 → bit_or x 0x04 < 256
bit_or_byte x h = ltb→lt _ _ (check_below-lt 256 _ x third_bit h)

pub bit_or_two : (x : ℕ) → x < 256 → bit_or 0x02 x < 256
bit_or_two x h = ltb→lt _ _ (check_below-lt 256 _ x second_bit h)

pub bit_or_three : (x : ℕ) → x < 256 → bit_or 0x03 x < 256
bit_or_three x h = ltb→lt _ _ (check_below-lt 256 _ x low_bits h)

top_bit : check_below 256 (λ x. bit_or x 0x80 == x % 0x80 + 0x80) ≡ true
unfolding check_below
top_bit = refl

pub bit_or_top : (x : ℕ) → x < 256 → bit_or x 0x80 ≡ x % 0x80 + 0x80
bit_or_top x h = (==_iff _ _).0 (check_below-lt 256 _ x top_bit h)
