-- ===== src/Utility/Tlv.antt =====
-- `ParseTlv`, `ToTlv`, `Tolv` and `Tollv` of src/utility/util.cpp.
use Prim.Native.Nat.{bit_or}
use jubiter_sdk_c.Common.{
  ℕ, zero, suc, ◌+◌, ◌*◌, ◌/◌, ◌%◌, ◌^◌, List, [], ◌∷◌, ◌++◌, ltb, leb, ◌==◌, if◌then◌else◌, length,
  drop, get_elem?, slice, Outcome, ok, stuck, ◌>>=◌, or_fault,
}

-- The length behind a tag, and the number of bytes that it takes.
unfoldable pub tlv_length : List ℕ → Outcome (ℕ × ℕ)
tlv_length bytes = do
  first ← or_fault (get_elem? bytes 0)
  if first == 0x82
      then (do
        high ← or_fault (get_elem? bytes 1)
        low ← or_fault (get_elem? bytes 2)
        ok (bit_or (high * 0x100) low, 3))
      else if first == 0x81
      then (or_fault (get_elem? bytes 1) >>= λ size. ok (size, 2))
      else ok (first, 1)

-- One round of the loop, behind the tag: the value, and what follows it.
unfoldable pub tlv_item : List ℕ → Outcome (List ℕ × List ℕ)
tlv_item bytes = do
  size ← tlv_length bytes
  value ← or_fault (slice (size.1) (size.1 + size.0) bytes)
  ok (value, drop (size.1 + size.0) bytes)

-- Every round takes a byte or more: as much fuel as there are bytes is enough.
unfoldable pub parse_items : ℕ → List ℕ → Outcome (List (List ℕ))
parse_items fuel [] = ok []
parse_items zero (tag ∷ bytes) = stuck
parse_items (suc fuel) (tag ∷ bytes) = do
  item ← tlv_item bytes
  others ← parse_items fuel (item.1)
  ok (item.0 ∷ others)

unfoldable pub parse_tlv : List ℕ → Outcome (List (List ℕ))
parse_tlv bytes = parse_items (length bytes) bytes

unfoldable pub length_bytes : ℕ → List ℕ
length_bytes size =
    if leb 0x100 size
    then 0x82 ∷ size / 2 ^ 8 % 2 ^ 8 ∷ size % 2 ^ 8 ∷ []
    else if ltb 0x80 size
    then 0x81 ∷ size % 2 ^ 8 ∷ []
    else size % 2 ^ 8 ∷ []

unfoldable pub to_tlv : ℕ → List ℕ → List ℕ
to_tlv tag value = tag ∷ (length_bytes (length value) ++ value)

unfoldable pub tolv : List ℕ → List ℕ
tolv value = length_bytes (length value) ++ value

-- A blank in front, a zero behind, and the size of all that.
unfoldable pub tollv : List ℕ → List ℕ
tollv text = let value : List ℕ = 0x20 ∷ (text ++ (0x00 ∷ [])) in length value % 2 ^ 8 ∷ value
