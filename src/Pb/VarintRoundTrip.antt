-- ===== src/Pb/VarintRoundTrip.antt =====
-- Varints of pbparse/pb_basevarint.cpp, read back.
use jubiter_sdk_c.Common.{
  ℕ, zero, suc, ◌+◌, ◌-◌, ◌*◌, ◌/◌, ◌%◌, ◌^◌, ◌≤◌, ◌<◌, ◌≡◌, refl, true, false, Option, none, some,
  List, [], ◌∷◌, ◌++◌, Bool-cases, inl, inr, ltb, ltb→lt, ◌⊎◌, le→leb, leb-false, ltb-false, ◌==◌,
  if◌then◌else◌, length, take, replicate, length-append, length-take, length-replicate,
  append_assoc, bit_or_top, ok, fault, ◌>>=◌, arith,
}
use jubiter_sdk_c.Pb.Varint.{size_loop, size, write, encode_loop, resize, encode, max_bytes}

-- A reader of varints: 7 bits of every byte, the lowest first, up to a byte below 0x80.
unfoldable pub read_varint : List ℕ → Option (ℕ × List ℕ)
read_varint [] = none
read_varint (b ∷ bytes) = if ltb b 0x80 then some (b, bytes) else elim (read_varint bytes) [
  | none ↦ none
  | some (high, rest) ↦ some (b - 0x80 + high * 0x80, rest)
]

-- The varint of a number, with as many bytes as fuel allows.
unfoldable pub varint : ℕ → ℕ → List ℕ
varint zero v = []
varint (suc fuel) v =
    let rest = varint fuel (v / 0x80) in if ltb v 0x80 then v ∷ [] else (v % 0x80 + 0x80) ∷ rest

size_loop-varint :
    (n v : ℕ) → v < 128 ^ suc n → size_loop (suc n) v ≡ ok (length (varint (suc n) v))
unfolding size_loop varint
size_loop-varint zero v h = ground arith
size_loop-varint (suc n) v h = elim (Bool-cases (ltb v 0x80)) [
  | inl last ↦ rw last
  | inr more ↦ let rest = size_loop-varint n (v / 128) (omega arith) in rw (more, rest)
]

write-append :
    (front : List ℕ) (x : ℕ) (slots : List ℕ) (byte : ℕ)
    → write (front ++ (x ∷ slots)) (length front) byte ≡ ok (front ++ (byte ∷ slots))
unfolding write
write-append [] x slots byte = refl
write-append (y ∷ front) x slots byte = rw (write-append front x slots byte)

length-snoc : (xs : List ℕ) (x : ℕ) → length xs + 1 ≡ length (xs ++ (x ∷ []))
length-snoc xs x = omega (arith, length-append xs (x ∷ []))

write_last :
    (front slots : List ℕ) (v : ℕ)
    → v < 128
    → length slots ≡ 1
    → write (front ++ slots) (length front) (v % 256) ≡ ok (front ++ (v ∷ []))
write_last front [] v h e = absurd (omega (arith, e))
write_last front (x ∷ y ∷ slots) v h e = absurd (omega (arith, e))
write_last front (x ∷ []) v h e =
    let byte : v % 256 ≡ v = omega arith in rw (byte, write-append front x [] v)

-- One round of the loop, on a last byte and on one that others follow.
encode_last :
    (n v : ℕ) (front slots : List ℕ)
    → v < 128
    → length slots ≡ length (varint (suc n) v)
    → encode_loop (suc n) v (length front) (front ++ slots) ≡ ok (front ++ varint (suc n) v)
unfolding encode_loop varint
encode_last n v front slots h e =
    let last : ltb v 0x80 ≡ true = ground arith in
    let size : length slots ≡ 1 = rw last at e in rw (last, write_last front slots v h size)

encode_more :
    (n v index : ℕ) (enc : List ℕ)
    → 128 ≤ v
    → encode_loop (suc n) v index enc
      ≡ (write enc index (v % 128 + 128) >>= λ enc'. encode_loop n (v / 128) (index + 1) enc')
unfolding encode_loop
encode_more n v index enc h =
    let more : ltb v 0x80 ≡ false = ground arith in
    let byte = bit_or_top (v % 256) (omega arith) in
    let low : v % 256 % 128 ≡ v % 128 = omega arith in rw (more, byte, low)

pub varint_more : (n v : ℕ) → 128 ≤ v → varint (suc n) v ≡ (v % 128 + 128) ∷ varint n (v / 128)
unfolding varint
varint_more n v h = let more : ltb v 0x80 ≡ false = ground arith in rw more

pub varint_size : (n v : ℕ) → (1 ≤ length (varint (suc n) v)) × (length (varint (suc n) v) ≤ suc n)
unfolding varint
varint_size zero v = (ground arith, ground arith)
varint_size (suc n) v = elim (Bool-cases (ltb v 0x80)) [
  | inl last ↦ rw last (omega arith, omega arith)
  | inr more ↦
      let rest = varint_size n (v / 128) in rw more (omega (arith, rest.0), omega (arith, rest.1))
]

-- The loop fills as many places as the varint has bytes.
encode_loop-varint :
    (n v : ℕ) (front slots : List ℕ)
    → v < 128 ^ suc n
    → length slots ≡ length (varint (suc n) v)
    → encode_loop (suc n) v (length front) (front ++ slots) ≡ ok (front ++ varint (suc n) v)
encode_loop-varint zero v front slots h e = encode_last zero v front slots (omega arith) e
encode_loop-varint (suc n) v front [] h e = absurd (omega (arith, e, varint_size (suc n) v))
encode_loop-varint (suc n) v front (x ∷ slots) h e = elim (Bool-cases (ltb v 0x80)) [
  | inl last ↦ encode_last (suc n) v front (x ∷ slots) (ground arith) e
  | inr more ↦
      let high : 128 ≤ v = ground arith in
      let bytes = varint_more (suc n) v high in
      let byte = v % 128 + 128 in
      let size : suc (length slots) ≡ suc (length (varint (suc n) (v / 128))) = rw bytes at e in
      let others =
        encode_loop-varint n (v / 128) (front ++ (byte ∷ [])) slots (omega arith)
          (omega (arith, size)) in
      rw
        (
          encode_more (suc n) v (length front) (front ++ (x ∷ slots)) high,
          write-append front x slots byte,
          length-snoc front byte,
          bytes,
        )
        (rw
          (
            append_assoc front (byte ∷ []) slots,
            append_assoc front (byte ∷ []) (varint (suc n) (v / 128)),
          )
          at others)
]

pub read_varint-varint :
    (n v : ℕ) (rest : List ℕ)
    → v < 128 ^ suc n
    → read_varint (varint (suc n) v ++ rest) ≡ some (v, rest)
unfolding read_varint varint
read_varint-varint zero v rest h = let last : ltb v 0x80 ≡ true = ground arith in rw (last, last)
read_varint-varint (suc n) v rest h = elim (Bool-cases (ltb v 0x80)) [
  | inl last ↦ rw (last, last)
  | inr more ↦
      let others = read_varint-varint n (v / 128) rest (omega arith) in
      let byte : ltb (v % 128 + 128) 0x80 ≡ false = ltb-false (v % 128 + 128) 0x80 (omega arith) in
      let value : v % 128 + 128 - 0x80 + v / 128 * 0x80 ≡ v = omega arith in
      rw (more, byte, others, value)
]

length-resize : (n : ℕ) (enc : List ℕ) → length (resize n enc) ≡ n
unfolding resize
length-resize n enc = omega (
  arith,
  length-append (take n enc) (replicate (n - length enc) 0),
  length-take n enc,
  length-replicate {A = ℕ} (n - length enc) 0,
)

pub encode-varint : (v : ℕ) (enc : List ℕ) → v < 2 ^ 63 → encode v enc ≡ ok (varint max_bytes v)
unfolding encode size
encode-varint v enc h =
    let bytes = varint 10 v in
    let positive = leb-false (2 ^ 63) v h in
    let sized = size_loop-varint 9 v (omega arith) in
    let some_bytes : (length bytes == 0) ≡ false = ground (arith, (varint_size 9 v).0) in
    let slots = resize (length bytes) enc in
    let written =
      encode_loop-varint 9 v [] slots (omega arith) (length-resize (length bytes) enc) in
    rw (positive, sized, some_bytes, written)

encode_loop_short : (n v : ℕ) → 16384 ≤ v → encode_loop (suc (suc n)) v 0 (0 ∷ []) ≡ fault
unfolding encode_loop write
encode_loop_short n v h =
    let more : ltb v 0x80 ≡ false = ltb-false v 0x80 (omega arith) in
    let more' : ltb (v / 128) 0x80 ≡ false = ltb-false (v / 128) 0x80 (omega arith) in
    rw (more, more')

encode_negative : (v : ℕ) → 2 ^ 63 ≤ v → encode v [] ≡ fault
unfolding encode size resize
encode_negative v h =
    let negative = le→leb (2 ^ 63) v h in rw (negative, encode_loop_short 8 v (omega arith))

-- A number below 2 ^ 63 is written to 1 to 10 bytes, which a reader of varints takes for it. From
-- 2 ^ 63 on, the negative numbers of an `int64_t`, one byte is reserved and more are written.
pub read_varint-encode :
    (v : ℕ) (rest : List ℕ)
    → ((bytes : List ℕ) × (v < 2 ^ 63)
        × (encode v [] ≡ ok bytes)
        × (read_varint (bytes ++ rest) ≡ some (v, rest))
        × (1 ≤ length bytes)
        × (length bytes ≤ max_bytes))
      ⊎ ((2 ^ 63 ≤ v) × (encode v [] ≡ fault))
read_varint-encode v rest = elim (Bool-cases (ltb v (2 ^ 63))) [
  | inl positive ↦
      let h = ltb→lt v (2 ^ 63) positive in
      inl (
        varint 10 v,
        h,
        encode-varint v [] h,
        read_varint-varint 9 v rest (omega arith),
        (varint_size 9 v).0,
        (varint_size 9 v).1,
      )
  | inr negative ↦ let h : 2 ^ 63 ≤ v = ground arith in inr (h, encode_negative v h)
]
