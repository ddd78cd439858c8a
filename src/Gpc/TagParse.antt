-- ===== src/Gpc/TagParse.antt =====
-- gpc/src/tlvparse.c, with the tags of gpc/include/tag.h.
use jubiter_sdk_c.Common.{
  ℕ, ◌+◌, ◌*◌, ◌-◌, ◌^◌, Bool, ◌||◌, List, leb, ◌==◌, if◌then◌else◌, get_elem?, Outcome, ok, fail,
  ◌>>=◌, ◌>>◌, check, or_fault,
}
use Prim.Native.Nat.{bit_and, bit_or}

-- -0x0060 as the bits of an `int`.
abbrev pub gpc_scp11_err_tlv_out_of_data : ℕ
gpc_scp11_err_tlv_out_of_data = 2 ^ 32 - 0x60

abbrev pub read : List ℕ → ℕ → Outcome ℕ
read p i = or_fault (get_elem? p i)

-- The length of '7F21' and 'BF21', in one or two bytes behind 0x81 or 0x82.
unfoldable pub long_length : ℕ → List ℕ → Outcome (ℕ × ℕ)
long_length tag p = do
  form ← read p 2
  if form == 0x82
      then (do hi ← read p 3; lo ← read p 4; ok (tag, bit_or (hi * 0x100) (bit_and lo 0xFF)))
      else if form == 0x81
      then (do n ← read p 3; ok (tag, n))
      else fail gpc_scp11_err_tlv_out_of_data

-- The tags of one byte.
abbrev pub is_short_tag : ℕ → Bool
is_short_tag t =
    t == 0x86
    || t == 0xB0
    || t == 0xF0
    || t == 0x42
    || t == 0x53
    || t == 0x73
    || t == 0x93
    || t == 0x95

-- The second bytes that may follow '5F'.
abbrev pub is_item : ℕ → Bool
is_item s = s == 0x20 || s == 0x24 || s == 0x25 || s == 0x37 || s == 0x49

-- The `switch` over the first byte.
unfoldable pub tag_of : ℕ → ℕ → List ℕ → Outcome (ℕ × ℕ)
unfolding long_length
tag_of t sub p =
    if t == 0x7F
    then (if sub == 0x21
        then long_length 0x7F21 p
        else (if sub == 0x49
            then (do n ← read p 2; ok (0x7F49, n))
            else (do n ← read p 2; fail gpc_scp11_err_tlv_out_of_data)))
    else (if is_short_tag t
        then ok (t, sub)
        else (if t == 0x5F
            then (do
              n ← read p 2
              if is_item sub
                  then ok (0x5F * 2 ^ 8 + sub, n)
                  else fail gpc_scp11_err_tlv_out_of_data)
            else (if t == 0xBF
                then (if sub == 0x21 then long_length 0xBF21 p else (do
                  n ← read p 2
                  if sub == 0x20 then ok (0xBF20, n) else fail gpc_scp11_err_tlv_out_of_data))
                else fail gpc_scp11_err_tlv_out_of_data)))

-- `gpc_tlv_get_tag`: the tag and the length at the front of `p`. `room` is `end - *p`, and `len` the
-- length that the caller hands in.
unfoldable pub gpc_tlv_get_tag : List ℕ → ℕ → ℕ → Outcome (ℕ × ℕ)
unfolding tag_of
gpc_tlv_get_tag p room len = do
  t ← read p 0
  sub ← read p 1
  found ← tag_of t sub p
  check (leb len room) gpc_scp11_err_tlv_out_of_data
  ok found
