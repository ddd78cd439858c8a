-- ===== src/Gpc/Certificate/PublicKey.antt =====
-- The public key of a certificate: `scp11_pk::decode` in gpc/src/scp11.cpp.
use jubiter_sdk_c.Common.{
  ℕ, suc, ◌+◌, ◌%◌, ◌^◌, ◌<◌, ◌≤◌, ◌≡◌, refl, ◌∙◌, Bool, true, false, ◌||◌, List, [], ◌∷◌, ◌++◌,
  append-nil, le→leb, ◌==◌, if◌then◌else◌, length, length-append, slice-append, leb, Outcome, ok,
  arith,
}
use jubiter_sdk_c.Gpc.TlvBuf.{TlvBuf, encode, tag_bytes}
use jubiter_sdk_c.Gpc.TagParse.{gpc_tlv_get_tag}
use jubiter_sdk_c.Gpc.Certificate.{Scp11Pk, decode_pk, pk_tag, pk_item, pk_store}

-- The two parts of a public key: `public_key_q` and `key_parameter_reference`.
pub data Part : Type 0 where
  point parameter : Part

unfoldable pub part_tag : Part → ℕ
part_tag point = 0xB0
part_tag parameter = 0xF0

unfoldable pub part_tlv : Part → List ℕ → TlvBuf
unfolding part_tag
part_tlv p v = record { tag = part_tag p; value = v }

unfoldable pub put_part : Part → List ℕ → Scp11Pk → Scp11Pk
put_part point v k = record k { q = record { tag = 0xB0; value = v } }
put_part parameter v k = record k { param = record { tag = 0xF0; value = v } }

encode-part : (p : Part) (v : List ℕ) → encode (part_tlv p v) ≡ part_tag p ∷ length v % 2 ^ 8 ∷ v
unfolding encode tag_bytes part_tlv part_tag
encode-part point v = refl
encode-part parameter v = refl

get_tag-part :
    (p : Part) (n room len : ℕ) (xs : List ℕ)
    → leb len room ≡ true
    → gpc_tlv_get_tag (part_tag p ∷ n ∷ xs) room len ≡ ok (part_tag p, n)
unfolding gpc_tlv_get_tag part_tag
get_tag-part point n room len xs h = rw h
get_tag-part parameter n room len xs h = rw h

accepted_part :
    (p : Part) (v : List ℕ) (k : Scp11Pk)
    → ((part_tag p == 0) ≡ false)
      × ((part_tag p == 0xB0 || part_tag p == 0xF0) ≡ true)
      × (pk_store (record { tag = part_tag p; value = v }) k ≡ put_part p v k)
unfolding part_tag pk_store put_part
accepted_part point v k = (refl, refl, refl)
accepted_part parameter v k = (refl, refl, refl)

pk_item-part :
    (next : List ℕ → Scp11Pk → Outcome (Bool × Scp11Pk)) (p : Part) (v rest : List ℕ) (k : Scp11Pk)
    → 2 + length v < 256
    → pk_item next (part_tag p ∷ length v ∷ (v ++ rest)) k (part_tag p) (length v)
      ≡ (if length rest == 0 then ok (true, put_part p v k) else next rest (put_part p v k))
unfolding pk_item
pk_item-part next p v rest k h =
    let head : List ℕ = part_tag p ∷ length v ∷ [] in
    let whole : List ℕ = part_tag p ∷ length v ∷ v in
    let value = slice-append 2 (2 + length v) head v rest (omega arith) refl in
    let skip : (2 + length v) % 2 ^ 8 ≡ 2 + length v = omega arith in
    let size = length-append v rest in
    let end : whole ++ (rest ++ []) ≡ whole ++ rest = rw append-nil in
    let behind = rw end at (
      slice-append (2 + length v) (length (whole ++ rest)) whole rest [] (omega arith)
        (omega (arith, size))) in
    rw (value, skip, behind, (accepted_part p v k).2)

module _ (room : List ℕ → ℕ) (enough : (xs : List ℕ) → length xs ≤ room xs) where
  decode_pk-part :
      (fuel : ℕ) (p : Part) (v rest : List ℕ) (k : Scp11Pk)
      → 2 + length v < 256
      → decode_pk room (suc fuel) (encode (part_tlv p v) ++ rest) k ≡ (
          if length rest == 0
          then ok (true, put_part p v k)
          else decode_pk room fuel rest (put_part p v k))
  unfolding decode_pk pk_tag
  decode_pk-part fuel p v rest k h =
      let n : length v % 2 ^ 8 ≡ length v = omega arith in
      let bytes : List ℕ = part_tag p ∷ length v ∷ (v ++ rest) in
      let fits = le→leb (length bytes) (room bytes) (enough bytes) in
      let found =
        get_tag-part p (length v) (room bytes) (length bytes) ((v ++ rest) ++ 0 ∷ []) fits in
      let how = accepted_part p v k in
      rw (encode-part p v, n, found, how.0, how.1) (pk_item-part (decode_pk room fuel) p v rest k h)

  -- The two parts of a public key, encoded one after the other in either order and of at most 253 bytes
  -- each, are read back into their fields: the code returns true. Two steps of fuel are enough, and
  -- the difference of addresses is no smaller than the number of bytes.
  pub decode_pk-encode :
      (fuel : ℕ) (first second : Part) (v w : List ℕ) (k : Scp11Pk)
      → 2 + length v < 256
      → 2 + length w < 256
      → decode_pk room (suc (suc fuel)) (encode (part_tlv first v) ++ encode (part_tlv second w)) k
        ≡ ok (true, put_part second w (put_part first v k))
  decode_pk-encode fuel first second v w k h g =
      let end : encode (part_tlv second w) ++ [] ≡ encode (part_tlv second w) = rw append-nil in
      let more : (length (encode (part_tlv second w)) == 0) ≡ false =
        rw (encode-part second w) (ground arith) in
      let last = rw end at (decode_pk-part fuel second w [] (put_part first v k) g) in
      decode_pk-part (suc fuel) first v (encode (part_tlv second w)) k h ∙ (rw more last)
