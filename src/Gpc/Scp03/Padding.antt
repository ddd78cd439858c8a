-- ===== src/Gpc/Scp03/Padding.antt =====
-- `pad80` and `unpad80` of gpc/src/scp03.cpp at the block size of AES.
use jubiter_sdk_c.Common.{
  ℕ, zero, suc, ◌+◌, ◌-◌, ◌/◌, ◌*◌, ◌%◌, ◌≤◌, ◌<◌, ◌≡◌, ◌≢◌, refl, true, false, List, [], ◌∷◌, ◌++◌,
  length, length-append, length-replicate, ◌==◌, get_elem?-append, get_elem?-replicate,
  slice_prefix, replicate, ltb-false, slice_all, ok, arith,
}
use jubiter_sdk_c.Gpc.Scp03.{pad_total, pad80, unpad_offset, unpad80}

-- The text, the byte 0x80, and zeros up to whole blocks.
unfoldable pub padded : List ℕ → List ℕ
padded text = text ++ (0x80 ∷ replicate (15 - length text % 16) 0)

pub length-padded : (text : List ℕ) → length (padded text) ≡ (length text / 16 + 1) * 16
unfolding padded
length-padded text = omega (
  arith,
  length-append text (0x80 ∷ replicate (15 - length text % 16) 0),
  length-replicate {A = ℕ} (15 - length text % 16) 0,
)

pad_total_lem :
    (d fuel total : ℕ)
    → d < fuel
    → d < 16
    → (total + d) % 16 ≡ 0
    → pad_total fuel 16 total ≡ ok (total + d)
unfolding pad_total
pad_total_lem d zero total h k e = absurd (omega arith)
pad_total_lem zero (suc fuel) total h k e = ground arith
pad_total_lem (suc d) (suc fuel) total h k e =
    ground (arith, pad_total_lem d fuel (total + 1) (omega arith) (omega arith) (omega arith))

pub pad80_lem :
    (text : List ℕ)
    → pad80 text 0 (length text) 16 false ≡ ok (padded text, (length text / 16 + 1) * 16)
unfolding pad80 padded
pad80_lem text =
    let total =
      pad_total_lem (15 - length text % 16) 16 (length text + 1) (omega arith) (omega arith)
        (omega arith) in
    let whole : length text + 1 + (15 - length text % 16) ≡ (length text / 16 + 1) * 16 =
      omega arith in
    let rest : (length text / 16 + 1) * 16 - length text - 1 ≡ 15 - length text % 16 =
      omega arith in
    let from_text =
      ltb-false ((length text / 16 + 1) * 16) ((length text / 16 + 1) * 16 - length text)
        (omega arith) in
    let body = slice_all (0 + length text) text (omega arith) in
    rw (total, whole, from_text, body, rest)

pub pad80_size :
    (text : List ℕ) → pad80 text 0 (length text) 16 true ≡ ok ([], (length text / 16 + 1) * 16)
unfolding pad80
pad80_size text =
    let total =
      pad_total_lem (15 - length text % 16) 16 (length text + 1) (omega arith) (omega arith)
        (omega arith) in
    let whole : length text + 1 + (15 - length text % 16) ≡ (length text / 16 + 1) * 16 =
      omega arith in
    rw (total, whole)

-- The walk back over zeros ends on the last byte that is not zero.
unpad_offset-replicate :
    (front : List ℕ) (x n i k : ℕ)
    → x ≢ 0
    → k ≤ n
    → i ≡ length front + k
    → unpad_offset (front ++ (x ∷ replicate n 0)) i ≡ ok (length front)
unfolding unpad_offset
unpad_offset-replicate front x n zero k h le e = ground arith
unpad_offset-replicate front x n (suc i) zero h le e =
    let mark = get_elem?-append front (x ∷ replicate n 0) (suc i) 0 (omega arith) in
    ground (arith, mark)
unpad_offset-replicate front x n (suc i) (suc k) h le e =
    let tail = get_elem?-append front (x ∷ replicate n 0) (suc i) (suc k) (omega arith) in
    let zero_byte = get_elem?-replicate {A = ℕ} n k 0 (omega arith) in
    let earlier = unpad_offset-replicate front x n i k h (omega arith) (omega arith) in
    rw (tail, zero_byte, earlier)

pub unpad80-padded :
    (n : ℕ) (text : List ℕ)
    → n ≡ length (padded text)
    → unpad80 (padded text) n false ≡ ok (text, length text)
unfolding unpad80 padded
unpad80-padded n text e =
    let size = length-append text (0x80 ∷ replicate (15 - length text % 16) 0) in
    let zeros = length-replicate {A = ℕ} (15 - length text % 16) 0 in
    let positive : (n == 0) ≡ false = ground (arith, e, size) in
    let offset =
      unpad_offset-replicate text 0x80 (15 - length text % 16) (n - 1) (15 - length text % 16)
        (omega arith) (omega arith) (omega arith) in
    let mark =
      get_elem?-append text (0x80 ∷ replicate (15 - length text % 16) 0) (length text) 0
        (omega arith) in
    let body = slice_prefix (length text) text (0x80 ∷ replicate (15 - length text % 16) 0) refl in
    rw (positive, offset, mark, body)
