-- ===== src/Gpc/Certificate.antt =====
-- gpc/src/scp11.cpp: `scp11_pk::decode` and `scp11_crt::decode`.
-- `room` gives, for the bytes that a call decodes, the difference of the two unrelated addresses
-- that the code hands to `gpc_tlv_get_tag` as the end and the start of its buffer.
pub mod Fields
pub mod Decode
pub mod PublicKey
use jubiter_sdk_c.Common.{
  ℕ, zero, suc, ◌+◌, ◌%◌, ◌^◌, Bool, true, false, ◌||◌, Option, none, some, List, [], ◌∷◌, ◌++◌,
  ltb, ◌==◌, if◌then◌else◌, length, get_or, slice, Outcome, ok, fail, fault, stuck, ◌>>=◌, or_fault,
}
use mathlib.Core.List.{foldl}
use jubiter_sdk_c.Gpc.TlvBuf.{TlvBuf, cleared}
use jubiter_sdk_c.Gpc.TagParse.{gpc_tlv_get_tag}

pub record Scp11Pk : Type 0 where
  pub q : TlvBuf
  pub param : TlvBuf

pub record Scp11Crt : Type 0 where
  pub raw : TlvBuf
  pub tbs : TlvBuf
  pub serial : TlvBuf
  pub cakloc_id : TlvBuf
  pub valid_from : TlvBuf
  pub valid_to : TlvBuf
  pub pk : Scp11Pk
  pub subject_id : TlvBuf
  pub key_usage : ℕ
  pub sig : TlvBuf

-- The item that is stored by the second `switch` of `scp11_pk::decode`.
unfoldable pub pk_store : TlvBuf → Scp11Pk → Scp11Pk
pk_store b k =
    if b.tag == 0xB0
    then record k { q = b }
    else if b.tag == 0xF0
    then record k { param = b }
    else k

-- What follows the header: copy the value, store it, go on behind it. `skip` is an `unsigned char`.
unfoldable pub pk_item :
    (List ℕ → Scp11Pk → Outcome (Bool × Scp11Pk))
    → List ℕ
    → Scp11Pk
    → ℕ
    → ℕ
    → Outcome (Bool × Scp11Pk)
unfolding pk_store
pk_item next bytes k tag len = do
  value ← or_fault (slice 2 (2 + len) bytes)
  let k' = pk_store (record { tag = tag; value = value }) k
  recursive ← or_fault (slice ((2 + len) % 2 ^ 8) (length bytes) bytes)
  if length recursive == 0 then ok (true, k') else next recursive k'

-- The result of `gpc_tlv_get_tag`, the test `e == *p` (`e` is the 0 behind the bytes), and the first
-- `switch`.
unfoldable pub pk_tag :
    (List ℕ → Scp11Pk → Outcome (Bool × Scp11Pk))
    → List ℕ
    → Scp11Pk
    → Outcome (ℕ × ℕ)
    → Outcome (Bool × Scp11Pk)
unfolding pk_item
pk_tag next bytes k (fail e) = ok (false, k)
pk_tag next bytes k fault = fault
pk_tag next bytes k stuck = stuck
pk_tag next bytes k (ok (tag, len)) =
    if get_or bytes 0 0 == 0
    then ok (true, k)
    else if tag == 0xB0 || tag == 0xF0
    then pk_item next bytes k tag len
    else ok (false, k)

-- `scp11_pk::decode`.
unfoldable pub decode_pk : (List ℕ → ℕ) → ℕ → List ℕ → Scp11Pk → Outcome (Bool × Scp11Pk)
unfolding pk_tag gpc_tlv_get_tag
decode_pk room zero bytes k = stuck
decode_pk room (suc fuel) bytes k =
    pk_tag (decode_pk room fuel) bytes k
      (gpc_tlv_get_tag (bytes ++ 0 ∷ []) (room bytes) (length bytes))

-- How many bytes the header of an item takes, by the first `switch` of `scp11_crt::decode`.
unfoldable pub crt_skip : ℕ → ℕ → Option ℕ
crt_skip tag len =
    if tag == 0x7F21
    then (if ltb 0x100 len then some 5 else some 4)
    else (if tag == 0x93 || tag == 0x42 || tag == 0x95 || tag == 0x53 || tag == 0x73
        then some 2
        else (if tag == 0x7F49
              || tag == 0x5F20
              || tag == 0x5F25
              || tag == 0x5F24
              || tag == 0x5F37
              || tag == 0xBF20
            then some 3
            else none))

-- The public key is decoded in its turn; an empty one is passed over.
unfoldable pub crt_store_pk :
    (List ℕ → Scp11Pk → Outcome (Bool × Scp11Pk)) → List ℕ → Scp11Crt → Outcome (Bool × Scp11Crt)
crt_store_pk key value c =
    if length value == 0
    then ok (true, c)
    else (do (done, k) ← key value c.pk; ok (done, record c { pk = k }))

-- The second `switch`: where an item is stored; false if the public key is refused.
unfoldable pub crt_store :
    (List ℕ → Scp11Pk → Outcome (Bool × Scp11Pk)) → TlvBuf → Scp11Crt → Outcome (Bool × Scp11Crt)
unfolding crt_store_pk
crt_store key b c =
    if b.tag == 0x7F49
    then crt_store_pk key b.value c
    else ok (
      true,
      (if b.tag == 0x7F21
          then record c { tbs = b }
          else (if b.tag == 0x93
              then record c { serial = b }
              else (if b.tag == 0x95
                  then record c { key_usage = foldl ◌+◌ 0 b.value }
                  else (if b.tag == 0x5F20
                      then record c { subject_id = b }
                      else (if b.tag == 0x5F25
                          then record c { valid_from = b }
                          else (if b.tag == 0x5F24
                              then record c { valid_to = b }
                              else (if b.tag == 0x42
                                  then record c { cakloc_id = b }
                                  else (if b.tag == 0x5F37 then record c { sig = b } else c)))))))),
    )

-- The items of the entity '7F21' are decoded from its first byte on, so its value is not skipped.
-- `skip` is an `unsigned char`.
abbrev pub skip_item : ℕ → ℕ → ℕ → ℕ
skip_item tag skip len = if tag == 0x7F21 then skip else (skip + len) % 2 ^ 8

-- `decode(recursive)`, unless nothing is left or the item was refused.
unfoldable pub crt_rest :
    (List ℕ → Scp11Crt → Outcome (Bool × Scp11Crt))
    → List ℕ
    → ℕ
    → Bool × Scp11Crt
    → Outcome (Bool × Scp11Crt)
crt_rest next bytes skip (false, c) = ok (false, c)
crt_rest next bytes skip (true, c) = do
  recursive ← or_fault (slice skip (length bytes) bytes)
  if length recursive == 0 then ok (true, c) else next recursive c

unfoldable pub crt_item :
    (List ℕ → Scp11Crt → Outcome (Bool × Scp11Crt))
    → (List ℕ → Scp11Pk → Outcome (Bool × Scp11Pk))
    → List ℕ
    → Scp11Crt
    → ℕ
    → ℕ
    → Option ℕ
    → Outcome (Bool × Scp11Crt)
unfolding crt_store crt_rest
crt_item next key bytes c tag len none = ok (false, c)
crt_item next key bytes c tag len (some skip) = do
  value ← or_fault (slice skip (skip + len) bytes)
  stored ← crt_store key (record { tag = tag; value = value }) c
  crt_rest next bytes (skip_item tag skip len) stored

unfoldable pub crt_tag :
    (List ℕ → Scp11Crt → Outcome (Bool × Scp11Crt))
    → (List ℕ → Scp11Pk → Outcome (Bool × Scp11Pk))
    → List ℕ
    → Scp11Crt
    → Outcome (ℕ × ℕ)
    → Outcome (Bool × Scp11Crt)
unfolding crt_item crt_skip
crt_tag next key bytes c (fail e) = ok (false, c)
crt_tag next key bytes c fault = fault
crt_tag next key bytes c stuck = stuck
crt_tag next key bytes c (ok (tag, len)) =
    if get_or bytes 0 0 == 0
    then ok (true, c)
    else crt_item next key bytes c tag len (crt_skip tag len)

-- `scp11_crt::decode`. The fuel bounds the depth of the recursion, here and in `decode_pk`.
unfoldable pub decode_crt : (List ℕ → ℕ) → ℕ → List ℕ → Scp11Crt → Outcome (Bool × Scp11Crt)
unfolding crt_tag decode_pk gpc_tlv_get_tag
decode_crt room zero bytes c = stuck
decode_crt room (suc fuel) bytes c =
    crt_tag (decode_crt room fuel) (decode_pk room fuel) bytes c
      (gpc_tlv_get_tag (bytes ++ 0 ∷ []) (room bytes) (length bytes))
