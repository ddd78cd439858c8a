-- ===== src/Utility/Hex.antt =====
-- src/utility/util.cpp: bytes as hexadecimal texts, and back.
use jubiter_sdk_c.Common.{
  ℕ, ◌+◌, ◌-◌, ◌*◌, ◌/◌, ◌%◌, ◌^◌, Bool, ◌&&◌, ◌||◌, Option, none, some, List, [], ◌∷◌, ◌++◌, ltb,
  leb, ◌==◌, if◌then◌else◌, length, Outcome, ok, ◌>>=◌, or_fault,
}

-- A stream with `std::hex` writes a number below 16 with one digit.
unfoldable pub hex_digit : ℕ → ℕ
hex_digit n = if ltb n 10 then 0x30 + n else 0x57 + n

-- One round of the loop of `CharPtr2HexStr`.
unfoldable pub char_text : ℕ → List ℕ
unfolding hex_digit
char_text v =
    if leb v 0x0F then 0x30 ∷ hex_digit v ∷ [] else hex_digit (v / 16) ∷ hex_digit (v % 16) ∷ []

unfoldable pub char_ptr_2_hex_str : List ℕ → List ℕ
unfolding char_text
char_ptr_2_hex_str [] = []
char_ptr_2_hex_str (v ∷ vs) = char_text v ++ char_ptr_2_hex_str vs

-- What a stream with `std::hex` reads: a blank is skipped, a sign is taken, and the number ends before
-- the first character that is no digit.
unfoldable pub hex_value : ℕ → Option ℕ
hex_value c =
    if leb 0x30 c && leb c 0x39
    then some (c - 0x30)
    else if leb 0x41 c && leb c 0x46
    then some (c - 0x37)
    else if leb 0x61 c && leb c 0x66
    then some (c - 0x57)
    else none

unfoldable pub is_space : ℕ → Bool
is_space c = c == 0x20 || (leb 0x09 c && leb c 0x0D)

unfoldable pub or_zero : Option ℕ → ℕ
or_zero none = 0
or_zero (some x) = x

unfoldable pub two_digits : Option ℕ → Option ℕ → ℕ
two_digits none second = 0
two_digits (some x) none = x
two_digits (some x) (some y) = x * 16 + y

-- The number in the text of two characters, which ends at a zero; `none` where it has nothing but blanks.
unfoldable pub second_number : ℕ → Option ℕ
unfolding hex_value is_space or_zero
second_number b = if b == 0 || is_space b then none else some (or_zero (hex_value b))

unfoldable pub number_in : (a b : ℕ) → Option ℕ
unfolding second_number two_digits
number_in a b =
    if a == 0
    then none
    else if is_space a
    then second_number b
    else if a == 0x2D
    then some ((2 ^ 32 - or_zero (hex_value b)) % 2 ^ 32)
    else if a == 0x2B
    then some (or_zero (hex_value b))
    else some (two_digits (hex_value a) (hex_value b))

-- Where the text has no number, the variable `c` keeps its value, and has none at first.
unfoldable pub carried : Option ℕ → Option ℕ → Option ℕ
carried c none = c
carried c (some v) = some v

-- The loop of `HexStr2CharPtr`, over pairs of characters.
unfoldable pub hex_loop : Option ℕ → List ℕ → Outcome (List ℕ)
unfolding number_in carried
hex_loop c [] = ok []
hex_loop c (a ∷ []) = ok []
hex_loop c (a ∷ b ∷ rest) = or_fault (carried c (number_in a b)) >>= λ v.
    hex_loop (some v) rest >>= λ vs. ok (v % 2 ^ 8 ∷ vs)

unfoldable pub hex_str_2_char_ptr : List ℕ → Outcome (List ℕ)
unfolding hex_loop
hex_str_2_char_ptr str = hex_loop none (if length str % 2 == 0 then str else 0x30 ∷ str)
