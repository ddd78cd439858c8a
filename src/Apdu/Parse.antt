-- ===== src/Apdu/Parse.antt =====
-- A reader of the commands of src/device/ApduBuilder.cpp, written without regard to the code, and
-- what `decode` makes of a response.
use jubiter_sdk_c.Common.{
  ℕ, zero, suc, ◌+◌, ◌*◌, ◌/◌, ◌%◌, ◌≤◌, ◌<◌, ◌≡◌, ◌≢◌, refl, false, Option, none, some, List, [],
  ◌∷◌, ◌++◌, ltb, ltb-false, Bool-cases, inl, inr, ◌==◌, if◌then◌else◌, length, length-append, take,
  drop, take-length, drop-length, slice_all, append-nil, append_assoc, ok, arith,
}
use jubiter_sdk_c.Apdu.Format.{Apdu, size_bytes, build_data, build_le, build_apdu}

-- A length field: a byte, or a zero byte and two more.
unfoldable pub read_size : List ℕ → Option (ℕ × List ℕ)
read_size (zero ∷ high ∷ low ∷ rest) = some (high * 0x100 + low, rest)
read_size (zero ∷ _) = none
read_size (suc n ∷ rest) = some (suc n, rest)
read_size [] = none

abbrev with_le : Apdu → Option (ℕ × List ℕ) → Option Apdu
with_le a (some (n, [])) = some (record a { le = n })
with_le a _ = none

-- What stands behind the data: nothing, or the length of the answer.
unfoldable pub read_le : Apdu → List ℕ → Option Apdu
read_le a [] = some a
read_le a (x ∷ rest) = with_le a (read_size (x ∷ rest))

-- A length with nothing behind it is that of the answer, otherwise that of the data.
unfoldable pub read_body : Apdu → Option (ℕ × List ℕ) → Option Apdu
read_body a none = none
read_body a (some (n, [])) = some (record a { le = n })
read_body a (some (n, x ∷ rest)) =
    if ltb (length (x ∷ rest)) n
    then none
    else read_le (record a { lc = n; body = take n (x ∷ rest) }) (drop n (x ∷ rest))

unfoldable pub read_tail : Apdu → List ℕ → Option Apdu
read_tail a [] = some a
read_tail a (x ∷ rest) = read_body a (read_size (x ∷ rest))

unfoldable pub read_apdu : List ℕ → Option Apdu
read_apdu (c ∷ i ∷ p ∷ q ∷ rest) =
    read_tail (record { cla = c; ins = i; p1 = p; p2 = q; lc = 0; le = 0; body = [] }) rest
read_apdu _ = none

-- A header of bytes, lengths of at most 16 bits, and as much data as it says.
pub record IsCommand (a : Apdu) : Type 0 where
  pub cla_byte : a.cla < 256
  pub ins_byte : a.ins < 256
  pub p1_byte : a.p1 < 256
  pub p2_byte : a.p2 < 256
  pub lc_size : a.lc ≡ length a.body
  pub lc_fits : a.lc < 65536
  pub le_fits : a.le < 65536

read_size-size_bytes :
    (n : ℕ) (rest : List ℕ) → n ≢ 0 → n < 65536 → read_size (size_bytes n ++ rest) ≡ some (n, rest)
unfolding read_size size_bytes
read_size-size_bytes zero rest h k = absurd (h refl)
read_size-size_bytes (suc m) rest h k = elim (Bool-cases (ltb 0xFF (suc m))) [
  | inl long ↦
      let first : suc m / 0x10000 % 256 ≡ 0 = omega arith in
      let value : suc m / 0x100 % 0x100 * 0x100 + suc m % 0x100 ≡ suc m = omega arith in
      rw (long, first, value)
  | inr short ↦
      let fits : suc m ≤ 0xFF = ground arith in
      let value : suc m % 256 ≡ suc m = omega arith in rw (short, value)
]

size_bytes-cons : (n : ℕ) → (x : ℕ) × (xs : List ℕ) × (size_bytes n ≡ x ∷ xs)
unfolding size_bytes
size_bytes-cons n = elim (Bool-cases (ltb 0xFF n)) [
  | inl long ↦ rw long (n / 0x10000 % 256, n / 0x100 % 0x100 ∷ n % 0x100 ∷ [], refl)
  | inr short ↦ rw short (n % 256, [], refl)
]

read_tail-size_bytes :
    (a : Apdu) (n : ℕ) (rest : List ℕ)
    → n ≢ 0
    → n < 65536
    → read_tail a (size_bytes n ++ rest) ≡ read_body a (some (n, rest))
unfolding read_tail
read_tail-size_bytes a n rest h k =
    let (x, xs, e) = size_bytes-cons n in
    let value = read_size-size_bytes n rest h k in
    rw e (let value' : read_size (x ∷ (xs ++ rest)) ≡ some (n, rest) = rw e at value in rw value')

read_size_alone : (n : ℕ) → n ≢ 0 → n < 65536 → read_size (size_bytes n) ≡ some (n, [])
read_size_alone n h k = rw (append-nil (size_bytes n)) at (read_size-size_bytes n [] h k)

abbrev command : (c i p q lc le : ℕ) → List ℕ → Apdu
command c i p q lc le body = record {
  cla = c;
  ins = i;
  p1 = p;
  p2 = q;
  lc = lc;
  le = le;
  body = body;
}

-- The length of the answer, behind the data and without data.
le_bytes : ℕ → List ℕ
le_bytes n = if n == 0 then [] else size_bytes n

read_le-le_bytes :
    (c i p q lc le : ℕ) (body : List ℕ)
    → le < 65536
    → read_le (command c i p q lc 0 body) (le_bytes le) ≡ some (command c i p q lc le body)
unfolding read_le le_bytes
read_le-le_bytes c i p q lc le body h = elim (Bool-cases (le == 0)) [
  | inl none_asked ↦ let same : le ≡ 0 = ground arith in rw (none_asked, same)
  | inr asked ↦
      let (x, xs, shape) = size_bytes-cons le in
      let value = read_size_alone le (ground arith) h in
      rw (asked, shape) (let value' = rw shape at value in rw value')
]

read_tail-le_bytes :
    (c i p q le : ℕ)
    → le < 65536
    → read_tail (command c i p q 0 0 []) (le_bytes le) ≡ some (command c i p q 0 le [])
unfolding read_tail read_body le_bytes
read_tail-le_bytes c i p q le h = elim (Bool-cases (le == 0)) [
  | inl none_asked ↦ let same : le ≡ 0 = ground arith in rw (none_asked, same)
  | inr asked ↦
      let (x, xs, shape) = size_bytes-cons le in
      let value = read_size_alone le (ground arith) h in
      rw (asked, shape) (let value' = rw shape at value in rw value')
]

-- The bytes of a command, field by field.
command_bytes : (c i p q lc le : ℕ) → List ℕ → List ℕ
command_bytes c i p q lc le [] = c ∷ i ∷ p ∷ q ∷ le_bytes le
command_bytes c i p q lc le (x ∷ xs) = c ∷ i ∷ p ∷ q ∷ (size_bytes lc ++ ((x ∷ xs) ++ le_bytes le))

read_apdu-command_bytes :
    (c i p q lc le : ℕ) (body : List ℕ)
    → lc ≡ length body
    → lc < 65536
    → le < 65536
    → read_apdu (command_bytes c i p q lc le body) ≡ some (command c i p q lc le body)
unfolding read_apdu command_bytes read_body
read_apdu-command_bytes c i p q lc le [] e h k = rw (read_tail-le_bytes c i p q le k, e)
read_apdu-command_bytes c i p q lc le (x ∷ xs) e h k =
    let rest = le_bytes le in
    let tail =
      read_tail-size_bytes (command c i p q 0 0 []) lc ((x ∷ xs) ++ rest) (omega arith) h in
    let enough =
      ltb-false (length (x ∷ (xs ++ rest))) lc (omega (arith, length-append (x ∷ xs) rest)) in
    let front : take lc (x ∷ (xs ++ rest)) ≡ x ∷ xs = rw e (take-length (x ∷ xs) rest) in
    let back : drop lc (x ∷ (xs ++ rest)) ≡ rest = rw e (drop-length (x ∷ xs) rest) in
    rw (tail, read_body, enough, front, back) (read_le-le_bytes c i p q lc le (x ∷ xs) k)

command_bytes-build_apdu :
    (c i p q lc le : ℕ) (body : List ℕ)
    → c < 256
    → i < 256
    → p < 256
    → q < 256
    → lc ≡ length body
    → build_apdu (command c i p q lc le body) [] ≡ ok (command_bytes c i p q lc le body)
unfolding build_apdu build_data build_le command_bytes le_bytes
command_bytes-build_apdu c i p q lc le [] hc hi hp hq e =
    let cla : c % 256 ≡ c = omega arith in
    let ins : i % 256 ≡ i = omega arith in
    let p1 : p % 256 ≡ p = omega arith in
    let p2 : q % 256 ≡ q = omega arith in rw (e, cla, ins, p1, p2)
command_bytes-build_apdu c i p q lc le (x ∷ xs) hc hi hp hq e =
    let cla : c % 256 ≡ c = omega arith in
    let ins : i % 256 ≡ i = omega arith in
    let p1 : p % 256 ≡ p = omega arith in
    let p2 : q % 256 ≡ q = omega arith in
    let some_data : (lc == 0) ≡ false = ground arith in
    let bytes = slice_all lc (x ∷ xs) e in
    rw (some_data, bytes, cla, ins, p1, p2, append_assoc (size_bytes lc))

-- A command with a header of bytes, 16-bit lengths and as much data as it says is read back from the
-- bytes that `BuildApdu` writes for it.
pub read_apdu-build_apdu :
    (a : Apdu)
    → IsCommand a
    → (bytes : List ℕ) × (build_apdu a [] ≡ ok bytes) × (read_apdu bytes ≡ some a)
read_apdu-build_apdu a h = (
  command_bytes a.cla a.ins a.p1 a.p2 a.lc a.le a.body,
  command_bytes-build_apdu a.cla a.ins a.p1 a.p2 a.lc a.le a.body h.cla_byte h.ins_byte h.p1_byte
      h.p2_byte h.lc_size,
  read_apdu-command_bytes a.cla a.ins a.p1 a.p2 a.lc a.le a.body h.lc_size h.lc_fits h.le_fits,
)

-- A command that has as much data as it says is built.
pub build_apdu_total :
    (a : Apdu) → a.lc ≡ length a.body → (bytes : List ℕ) × (build_apdu a [] ≡ ok bytes)
unfolding build_apdu build_data
build_apdu_total a h = elim (Bool-cases (a.lc == 0)) [
  | inl no_data ↦ rw no_data (_, refl)
  | inr some_data ↦ rw (some_data, slice_all a.lc a.body h) (_, refl)
]
