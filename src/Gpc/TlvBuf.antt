-- ===== src/Gpc/TlvBuf.antt =====
-- gpc/src/tlv.cpp and gpc/include/tlv.hpp: `tlv_buf` and its encodings.
use jubiter_sdk_c.Common.{
  ℕ, suc, ◌+◌, ◌-◌, ◌/◌, ◌%◌, ◌^◌, ◌<◌, ◌≤◌, ◌≡◌, refl, Bool, true, false, ◌&&◌, List, [], ◌∷◌,
  ◌++◌, ==_self, ◌==◌, if◌then◌else◌, length, length-append, slice, slice-append, append-nil,
  Outcome, ok, fault, ◌>>=◌, or_fault, arith,
}

pub record TlvBuf : Type 0 where
  pub tag : ℕ
  pub value : List ℕ

-- `clear()`.
abbrev pub cleared : TlvBuf
cleared = record { tag = 0; value = [] }

-- The bytes of a tag: two if the second byte is not zero.
unfoldable pub tag_bytes : ℕ → List ℕ
tag_bytes tag =
    if tag / 2 ^ 8 % 2 ^ 8 == 0 then tag % 2 ^ 8 ∷ [] else tag / 2 ^ 8 % 2 ^ 8 ∷ tag % 2 ^ 8 ∷ []

-- `push_back(value.size())` keeps the lowest byte of the size.
unfoldable pub encode : TlvBuf → List ℕ
encode b =
    if b.tag == 0 && length b.value == 0
    then []
    else tag_bytes b.tag ++ (length b.value % 2 ^ 8 ∷ b.value)

unfoldable pub encode_tbav : TlvBuf → List ℕ
encode_tbav b = if length b.value == 0 then 0 ∷ [] else length b.value % 2 ^ 8 ∷ b.value

unfoldable pub encode_lv : TlvBuf → List ℕ
encode_lv b = if length b.value == 0 then [] else length b.value % 2 ^ 8 ∷ b.value

unfoldable pub encode_t : TlvBuf → List ℕ
encode_t b = tag_bytes b.tag

-- `decodeLV`: the returned size, and the destination with the value behind it.
unfoldable pub decode_lv : List ℕ → List ℕ → Outcome (ℕ × List ℕ)
decode_lv [] v = fault
decode_lv (n ∷ rest) v =
    if suc (length rest) == n + 1 then ok (length (v ++ rest), v ++ rest) else ok (0, v)

-- Equality of byte strings.
unfoldable pub same_bytes : List ℕ → List ℕ → Bool
same_bytes [] [] = true
same_bytes (x ∷ xs) (y ∷ ys) = x == y && same_bytes xs ys
same_bytes _ _ = false

-- `decodeTV`: the value behind an expected tag.
unfoldable pub decode_tv : ℕ → List ℕ → List ℕ → Outcome (ℕ × List ℕ)
decode_tv tag tv v = do
  let v_tag = tag_bytes tag
  head ← or_fault (slice 0 (length v_tag) tv)
  if same_bytes head v_tag
      then (do
        rest ← or_fault (slice (length v_tag) (length tv) tv)
        ok (length tv - length v_tag, rest))
      else ok (0, v)

pub same_bytes_self : (xs : List ℕ) → same_bytes xs xs ≡ true
unfolding same_bytes
same_bytes_self [] = refl
same_bytes_self (x ∷ xs) = rw (==_self x, same_bytes_self xs)

pub same_bytes→≡ : (xs ys : List ℕ) → same_bytes xs ys ≡ true → xs ≡ ys
unfolding same_bytes
same_bytes→≡ [] [] h = refl
same_bytes→≡ [] (y ∷ ys) h = cc
same_bytes→≡ (x ∷ xs) [] h = cc
same_bytes→≡ (x ∷ xs) (y ∷ ys) h = ground (arith, same_bytes→≡ xs ys)

-- A value of 1 to 255 bytes comes back from its length-value form, behind what the destination held.
pub decode_lv-encode_lv :
    (b : TlvBuf) (v : List ℕ)
    → 0 < length b.value
    → length b.value < 256
    → decode_lv (encode_lv b) v ≡ ok (length (v ++ b.value), v ++ b.value)
unfolding decode_lv encode_lv
decode_lv-encode_lv b v h g = ground arith

-- From 256 bytes on the length byte is wrong, and the form is refused: nothing comes back.
pub decode_lv-encode_lv_long :
    (b : TlvBuf) (v : List ℕ) → 256 ≤ length b.value → decode_lv (encode_lv b) v ≡ ok (0, v)
unfolding decode_lv encode_lv
decode_lv-encode_lv_long b v h = ground arith

-- The value behind a tag is read back; a destination that held something else is replaced.
pub decode_tv-tag_bytes :
    (tag : ℕ) (value v : List ℕ)
    → decode_tv tag (tag_bytes tag ++ value) v ≡ ok (length value, value)
unfolding decode_tv
decode_tv-tag_bytes tag value v =
    let front =
      slice-append 0 (length (tag_bytes tag)) [] (tag_bytes tag) value refl (omega arith) in
    let whole : tag_bytes tag ++ (value ++ []) ≡ tag_bytes tag ++ value = rw append-nil in
    let behind = rw whole at (
      slice-append (length (tag_bytes tag)) (length (tag_bytes tag ++ value)) (tag_bytes tag) value
        [] refl (length-append (tag_bytes tag) value)) in
    let size : length (tag_bytes tag ++ value) - length (tag_bytes tag) ≡ length value =
      omega (arith, length-append {0} (tag_bytes tag) value) in
    rw (front, same_bytes_self (tag_bytes tag), behind, size)
