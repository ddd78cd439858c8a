-- ===== src/Bio/Fingerprints.antt =====
-- What the list of `EnumFingerprint` of src/token/JubiterBIOToken.cpp tells about the bitmap.
use Prim.Native.Nat.{bit_and}
use mathlib.Core.List.{reverse, reverse-cons}
use jubiter_sdk_c.Common.{
  ℕ, zero, suc, ◌+◌, ◌*◌, ◌/◌, ◌%◌, ◌^◌, ◌≤◌, ◌<◌, ◌≡◌, refl, ap, true, Bool-cases, inl, inr, List,
  [], ◌∷◌, ◌++◌, All, ◌==◌, length, length-append, arith,
}
use jubiter_sdk_c.Common.Bits.{check_below, check_below-lt}
use jubiter_sdk_c.Bio.{
  binary_digits, dec_to_binary, set_bits, byte_fingerprints, bitmap_fingerprints, fingerprint_list,
}

-- The sum of the powers of two with these exponents.
unfoldable pub sum_of_bits : List ℕ → ℕ
sum_of_bits [] = 0
sum_of_bits (k ∷ ks) = 2 ^ k + sum_of_bits ks

-- The number that bytes spell, the first byte being the highest.
unfoldable pub number_of : List ℕ → ℕ
number_of [] = 0
number_of (t ∷ ts) = t * 2 ^ (length ts * 8) + number_of ts

sum_of_bits-append : (js ks : List ℕ) → sum_of_bits (js ++ ks) ≡ sum_of_bits js + sum_of_bits ks
unfolding sum_of_bits
sum_of_bits-append [] ks = omega arith
sum_of_bits-append (j ∷ js) ks = omega (arith, sum_of_bits-append js ks)

length-binary_digits : (fuel n size : ℕ) → n < 2 ^ size → length (binary_digits fuel n) ≤ size
unfolding binary_digits
length-binary_digits zero n size h = omega arith
length-binary_digits (suc fuel) n zero h = let e : n ≡ 0 = omega arith in rw e (omega arith)
length-binary_digits (suc fuel) n (suc size) h =
    let rest = length-binary_digits fuel (n / 2) size (omega arith) in ground (arith, rest)

pow_suc : (n : ℕ) → 2 ^ (n + 1) ≡ 2 * 2 ^ n
pow_suc n = let e : n + 1 ≡ suc n = omega arith in rw e (omega arith)

sum_of_bits-set_bits :
    (fuel n number : ℕ)
    → n ≤ fuel
    → number + length (binary_digits fuel n) ≤ 65536
    → sum_of_bits (set_bits number (binary_digits fuel n)) ≡ n * 2 ^ number
unfolding sum_of_bits set_bits binary_digits
sum_of_bits-set_bits zero n number h k = let e : n ≡ 0 = omega arith in rw e (omega arith)
sum_of_bits-set_bits (suc fuel) n number h k = elim (Bool-cases (n == 0)) [
  | inl nothing ↦ let e : n ≡ 0 = ground arith in rw (nothing, e) (omega arith)
  | inr something ↦
      let size : number + suc (length (binary_digits fuel (n / 2))) ≤ 65536 = ground (arith, k) in
      let rest =
        sum_of_bits-set_bits fuel (n / 2) (number + 1) (ground arith) (omega (arith, size)) in
      let double : 2 ^ (number + 1) ≡ 2 * 2 ^ number = pow_suc number in
      elim (Bool-cases (n % 2 == 0)) [
        | inl even ↦
            let half : n ≡ n / 2 * 2 = ground arith in
            rw (something, even, rest, double) (omega (arith, ap (λ m. m * 2 ^ number) half))
        | inr odd ↦
            let half : n ≡ n / 2 * 2 + 1 = ground arith in
            let whole : number % 2 ^ 16 ≡ number = omega (arith, size) in
            rw (something, odd, whole, rest, double) (omega (arith, ap (λ m. m * 2 ^ number) half))
      ]
]

byte_fits : check_below 256 (λ t. bit_and t 0x0F == t % 16) ≡ true
unfolding check_below
byte_fits = refl

shifted_fits : check_below 256 (λ t. bit_and (t / 2 ^ 4) 0x0F == t / 16) ≡ true
unfolding check_below
shifted_fits = refl

low_bits : (t : ℕ) → t < 256 → bit_and t 0x0F ≡ t % 16
low_bits t h =
    let e = check_below-lt 256 (λ x. bit_and x 0x0F == x % 16) t byte_fits h in ground arith

high_bits : (t : ℕ) → t < 256 → bit_and (t / 2 ^ 4) 0x0F ≡ t / 16
high_bits t h =
    let e = check_below-lt 256 (λ x. bit_and (x / 2 ^ 4) 0x0F == x / 16) t shifted_fits h in
    ground arith

sum_of_bits-dec_to_binary :
    (n number : ℕ)
    → n < 16
    → number ≤ 65532
    → sum_of_bits (set_bits number (dec_to_binary n)) ≡ n * 2 ^ number
unfolding dec_to_binary
sum_of_bits-dec_to_binary n number h k =
    sum_of_bits-set_bits n n number (omega arith)
      (omega (arith, length-binary_digits n n 4 (omega arith)))

pow_four : (n : ℕ) → 2 ^ (4 + n) ≡ 16 * 2 ^ n
pow_four n = let e : 4 + n ≡ suc (suc (suc (suc n))) = omega arith in rw e (omega arith)

sum_of_bits-byte_fingerprints :
    (i t : ℕ) → t < 256 → i < 8191 → sum_of_bits (byte_fingerprints i t) ≡ t * 2 ^ (i * 8)
unfolding byte_fingerprints
sum_of_bits-byte_fingerprints i t h k =
    let low = sum_of_bits-dec_to_binary (t % 16) (i * 8) (omega arith) (omega arith) in
    let high = sum_of_bits-dec_to_binary (t / 16) (4 + i * 8) (omega arith) (omega arith) in
    let whole : t / 16 * 16 + t % 16 ≡ t = omega arith in
    rw
      (
        low_bits t h,
        high_bits t h,
        sum_of_bits-append (set_bits (i * 8) (dec_to_binary (t % 16)))
            (set_bits (4 + i * 8) (dec_to_binary (t / 16))),
        low,
        high,
        pow_four (i * 8),
      )
      (omega (arith, ap (λ m. m * 2 ^ (i * 8)) whole))

sum_of_bits-bitmap_fingerprints :
    (ts : List ℕ) (i t : ℕ)
    → sum_of_bits (bitmap_fingerprints i (ts ++ t ∷ []))
      ≡ sum_of_bits (bitmap_fingerprints i ts) + sum_of_bits (byte_fingerprints (i + length ts) t)
unfolding bitmap_fingerprints sum_of_bits
sum_of_bits-bitmap_fingerprints [] i t =
    let e : i + 0 ≡ i = omega arith in
    rw (e, sum_of_bits-append (byte_fingerprints i t) []) (omega arith)
sum_of_bits-bitmap_fingerprints (x ∷ ts) i t =
    let e : i + 1 + length ts ≡ i + suc (length ts) = omega arith in
    rw
      (
        sum_of_bits-append (byte_fingerprints i x) (bitmap_fingerprints (i + 1) (ts ++ t ∷ [])),
        sum_of_bits-append (byte_fingerprints i x) (bitmap_fingerprints (i + 1) ts),
        sum_of_bits-bitmap_fingerprints ts (i + 1) t,
        e,
      )
      (omega arith)

length-reverse : (ts : List ℕ) → length (reverse ts) ≡ length ts
length-reverse [] = refl
length-reverse (t ∷ ts) =
    rw (reverse-cons t ts, length-append (reverse ts) (t ∷ []), length-reverse ts) (omega arith)

-- The powers of two whose exponents are in the list that is made of an answer of at most 1024 bytes add
-- up to the number that the answer spells, its first byte being the highest.
pub fingerprint_list-number_of :
    (answer : List ℕ)
    → All (λ t. t < 256) answer
    → length answer ≤ 1024
    → sum_of_bits (fingerprint_list answer) ≡ number_of answer
unfolding fingerprint_list sum_of_bits number_of bitmap_fingerprints
fingerprint_list-number_of [] h k = refl
fingerprint_list-number_of (t ∷ ts) h k =
    let rest : sum_of_bits (bitmap_fingerprints 0 (reverse ts)) ≡ number_of ts =
      fingerprint_list-number_of ts (h.1) (omega (arith, k)) in
    let start : 0 + length ts ≡ length ts = omega arith in
    rw
      (
        reverse-cons t ts,
        sum_of_bits-bitmap_fingerprints (reverse ts) 0 t,
        length-reverse ts,
        sum_of_bits-byte_fingerprints (0 + length ts) t (h.0) (omega (arith, k)),
      )
      (rw (rest, start) (omega arith))
