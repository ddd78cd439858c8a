-- ===== src/Utility/TlvRoundTrip.antt =====
-- What `ToTlv` of src/utility/util.cpp writes, `ParseTlv` reads.
use jubiter_sdk_c.Common.{
  ℕ, zero, suc, ◌+◌, ◌*◌, ◌/◌, ◌%◌, ◌≤◌, ◌<◌, ◌≡◌, refl, sym, false, List, [], ◌∷◌, ◌++◌, map,
  concat, All, append_assoc, ltb, leb, ◌==◌, Bool-cases, inl, inr, length, length-append, drop,
  drop-length, slice-append, ok, arith,
}
use jubiter_sdk_c.Common.Bits.{bit_or_word}
use jubiter_sdk_c.Utility.Tlv.{tlv_length, tlv_item, parse_items, parse_tlv, length_bytes, to_tlv}

length-length_bytes : (size : ℕ) → 1 ≤ length (length_bytes size)
unfolding length_bytes
length-length_bytes size = ground arith

tlv_length-length_bytes :
    (size : ℕ) (rest : List ℕ)
    → size < 65536
    → tlv_length (length_bytes size ++ rest) ≡ ok (size, length (length_bytes size))
unfolding tlv_length length_bytes
tlv_length-length_bytes size rest h = elim (Bool-cases (leb 0x100 size)) [
  | inl long ↦
      let word = bit_or_word (size / 256 % 256) (size % 256) (omega arith) in
      let value : size / 256 % 256 * 0x100 + size % 256 ≡ size = omega arith in
      rw (long, word, value)
  | inr short ↦ elim (Bool-cases (ltb 0x80 size)) [
    | inl middle ↦ let value : size % 256 ≡ size = ground arith in rw (short, middle, value)
    | inr low ↦
        let value : size % 256 ≡ size = ground arith in
        let no_long : (size == 0x82) ≡ false = ground arith in
        let no_middle : (size == 0x81) ≡ false = ground arith in
        rw (short, low, value, no_long, no_middle)
  ]
]

tlv_item-to_tlv :
    (value rest : List ℕ)
    → length value < 65536
    → tlv_item (length_bytes (length value) ++ (value ++ rest)) ≡ ok (value, rest)
unfolding tlv_item
tlv_item-to_tlv value rest h =
    let front = length_bytes (length value) in
    let size = tlv_length-length_bytes (length value) (value ++ rest) h in
    let part =
      slice-append (length front) (length front + length value) front value rest refl refl in
    let behind : drop (length front + length value) (front ++ (value ++ rest)) ≡ rest =
      rw (sym (length-append front value), sym (append_assoc front value rest))
        (drop-length (front ++ value) rest) in
    rw (size, part, behind)

-- An item with a tag, as it is written.
pub record Item : Type 0 where
  pub tag : ℕ
  pub value : List ℕ

unfoldable pub item_bytes : Item → List ℕ
item_bytes x = to_tlv x.tag x.value

parse_items-item_bytes :
    (items : List Item) (fuel : ℕ)
    → length items ≤ fuel
    → All (λ x. length x.value < 65536) items
    → parse_items fuel (concat (map item_bytes items)) ≡ ok (map (λ x. x.value) items)
unfolding parse_items item_bytes to_tlv
parse_items-item_bytes [] fuel enough h = refl
parse_items-item_bytes (x ∷ items) zero enough h = absurd (omega arith)
parse_items-item_bytes (x ∷ items) (suc fuel) enough h =
    let first = tlv_item-to_tlv x.value (concat (map item_bytes items)) h.0 in
    let others = parse_items-item_bytes items fuel (omega arith) h.1 in
    rw (
      append_assoc (length_bytes (length x.value)) x.value (concat (map item_bytes items)),
      first,
      others,
    )

length-items : (items : List Item) → length items ≤ length (concat (map item_bytes items))
unfolding item_bytes to_tlv
length-items [] = omega arith
length-items (x ∷ items) = omega (
  arith,
  length-items items,
  length-append (length_bytes (length x.value) ++ x.value) (concat (map item_bytes items)),
)

-- Items of fewer than 65536 bytes each, written one after the other, are read back in their order.
pub parse_tlv-item_bytes :
    (items : List Item)
    → All (λ x. length x.value < 65536) items
    → parse_tlv (concat (map item_bytes items)) ≡ ok (map (λ x. x.value) items)
unfolding parse_tlv
parse_tlv-item_bytes items h =
    parse_items-item_bytes items (length (concat (map item_bytes items))) (length-items items) h
