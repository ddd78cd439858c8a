-- ===== src/Utility/HexRoundTrip.antt =====
-- What `CharPtr2HexStr` of src/utility/util.cpp writes, `HexStr2CharPtr` reads.
use jubiter_sdk_c.Common.{
  ℕ, ◌*◌, ◌/◌, ◌%◌, ◌^◌, ◌<◌, ◌≡◌, refl, ap, Bool, true, false, Option, none, some, Bool-cases, inl,
  inr, List, [], ◌∷◌, All, leb, ◌==◌, length, ok, arith,
}
use jubiter_sdk_c.Common.Bits.{check_below, check_below-lt}
use jubiter_sdk_c.Utility.Hex.{
  hex_digit, char_text, char_ptr_2_hex_str, hex_value, is_space, or_zero, two_digits, second_number,
  number_in, carried, hex_loop, hex_str_2_char_ptr,
}

abbrev pub IsByte : ℕ → Type 0
IsByte v = v < 256

-- The two digits of a byte.
abbrev first : ℕ → ℕ
first v = hex_digit (v / 16)

abbrev second : ℕ → ℕ
second v = hex_digit (v % 16)

char_text_lem : (v : ℕ) → char_text v ≡ first v ∷ second v ∷ []
unfolding char_text hex_digit
char_text_lem v = elim (Bool-cases (leb v 0x0F)) [
  | inl short ↦
      let none_left : v / 16 ≡ 0 = ground arith in
      let whole : v % 16 ≡ v = ground arith in rw (short, none_left, whole)
  | inr long ↦ rw long
]

holds : Option ℕ → ℕ → Bool
holds none v = false
holds (some w) v = w == v

holds-some : (o : Option ℕ) (v : ℕ) → holds o v ≡ true → o ≡ some v
unfolding holds
holds-some none v h = ground arith
holds-some (some w) v h = ap some (ground arith)

every_byte : check_below 256 (λ v. holds (number_in (first v) (second v)) v) ≡ true
unfolding check_below holds number_in hex_digit hex_value is_space or_zero two_digits second_number
every_byte = refl

number_in-hex_digit : (v : ℕ) → v < 256 → number_in (first v) (second v) ≡ some v
number_in-hex_digit v h =
    holds-some (number_in (first v) (second v)) v
      (check_below-lt 256 (λ v. holds (number_in (first v) (second v)) v) v every_byte h)

hex_loop-char_ptr_2_hex_str :
    (vs : List ℕ) (c : Option ℕ) → All IsByte vs → hex_loop c (char_ptr_2_hex_str vs) ≡ ok vs
unfolding hex_loop char_ptr_2_hex_str carried
hex_loop-char_ptr_2_hex_str [] c h = refl
hex_loop-char_ptr_2_hex_str (v ∷ vs) c h =
    let byte : v % 2 ^ 8 ≡ v = omega (arith, h.0) in
    rw (
      char_text_lem v,
      number_in-hex_digit v (h.0),
      hex_loop-char_ptr_2_hex_str vs (some v) (h.1),
      byte,
    )

length-char_ptr_2_hex_str : (vs : List ℕ) → length (char_ptr_2_hex_str vs) ≡ 2 * length vs
unfolding char_ptr_2_hex_str
length-char_ptr_2_hex_str [] = refl
length-char_ptr_2_hex_str (v ∷ vs) =
    rw (char_text_lem v, length-char_ptr_2_hex_str vs) (omega arith)

-- The text of whatever bytes is read back as these bytes.
pub hex_str_2_char_ptr-char_ptr_2_hex_str :
    (vs : List ℕ) → All IsByte vs → hex_str_2_char_ptr (char_ptr_2_hex_str vs) ≡ ok vs
unfolding hex_str_2_char_ptr
hex_str_2_char_ptr-char_ptr_2_hex_str vs h =
    let even : (2 * length vs % 2 == 0) ≡ true = ground arith in
    rw (length-char_ptr_2_hex_str vs, even) (hex_loop-char_ptr_2_hex_str vs none h)
