-- ===== src/Gpc/Session/Keys.antt =====
-- The session keys of gpc/src/scp11.cpp, taken apart and put together.
use jubiter_sdk_c.Common.{
  ℕ, ◌+◌, ◌-◌, ◌*◌, ◌/◌, ◌%◌, ◌<◌, ◌≡◌, ◌≢◌, ◌⊎◌, inl, inr, true, false, List, ◌++◌, ◌==◌, length,
  slice, take, drop, take-append-drop, length-take, length-drop, slice_in_range, drop-drop,
  take_all, Bool-cases, sym, ok, arith,
}
use jubiter_sdk_c.Gpc.Session.{
  is_blank, SessionKey, session_key_empty, lacks_key, session_key_decode, session_key_bytes,
  key_part,
}

pub record HasKeys (k : SessionKey) : Type 0 where
  pub dek_size : length k.key_dek ≡ 16
  pub enc_size : length k.s_enc ≡ 16
  pub mac_size : length k.s_mac ≡ 16
  pub rmac_size : length k.s_rmac ≡ 16
  pub s_dek_size : length k.s_dek ≡ 16

key_part_lem :
    (bytes : List ℕ) (i : ℕ)
    → length bytes ≡ 80
    → i < 5
    → key_part bytes 16 i ≡ ok (take 16 (drop (i * 16) bytes))
unfolding key_part slice
key_part_lem bytes i e h =
    let size : (i + 1) * 16 - i * 16 ≡ 16 = omega arith in
    rw (slice_in_range (i * 16) ((i + 1) * 16) bytes (omega arith) (omega arith), size)

keys_of : SessionKey → List ℕ → SessionKey
keys_of k bytes = record k {
  key_dek = take 16 (drop (0 * 16) bytes);
  s_enc = take 16 (drop (1 * 16) bytes);
  s_mac = take 16 (drop (2 * 16) bytes);
  s_rmac = take 16 (drop (3 * 16) bytes);
  s_dek = take 16 (drop (4 * 16) bytes);
}

part_size :
    (bytes : List ℕ) (i : ℕ)
    → length bytes ≡ 80
    → i < 5
    → length (take 16 (drop (i * 16) bytes)) ≡ 16
part_size bytes i e h =
    omega (arith, length-take 16 (drop (i * 16) bytes), length-drop (i * 16) bytes)

keys_of-HasKeys : (k : SessionKey) (bytes : List ℕ) → length bytes ≡ 80 → HasKeys (keys_of k bytes)
unfolding keys_of
keys_of-HasKeys k bytes e = record {
  dek_size = part_size bytes 0 e (omega arith);
  enc_size = part_size bytes 1 e (omega arith);
  mac_size = part_size bytes 2 e (omega arith);
  rmac_size = part_size bytes 3 e (omega arith);
  s_dek_size = part_size bytes 4 e (omega arith);
}

session_key_decode_lem :
    (bytes : List ℕ) (k : SessionKey)
    → length bytes ≡ 80
    → session_key_decode bytes 16 k ≡ ok (true, keys_of k bytes)
unfolding session_key_decode keys_of
session_key_decode_lem bytes k e =
    let five : length bytes / 16 ≡ 5 = omega arith in
    let whole : length bytes % 16 ≡ 0 = omega arith in
    rw (
      five,
      whole,
      key_part_lem bytes 0 e (omega arith),
      key_part_lem bytes 1 e (omega arith),
      key_part_lem bytes 2 e (omega arith),
      key_part_lem bytes 3 e (omega arith),
      key_part_lem bytes 4 e (omega arith),
    )

session_key_decode_other :
    (bytes : List ℕ) (k : SessionKey)
    → length bytes ≢ 80
    → session_key_decode bytes 16 k ≡ ok (false, k)
unfolding session_key_decode
session_key_decode_other bytes k other = elim (Bool-cases (5 == length bytes / 16)) [
  | inl five ↦ let rest : (length bytes % 16 == 0) ≡ false = ground arith in rw (five, rest)
  | inr few ↦ rw few
]

part_rest :
    (i : ℕ) (bytes : List ℕ)
    → take 16 (drop (i * 16) bytes) ++ drop ((i + 1) * 16) bytes ≡ drop (i * 16) bytes
part_rest i bytes =
    rw (sym (drop-drop 16 (i * 16) ((i + 1) * 16) bytes (omega arith)))
      (take-append-drop 16 (drop (i * 16) bytes))

pub keys_present : (k : SessionKey) → HasKeys k → session_key_empty k ≡ false
unfolding session_key_empty lacks_key
keys_present k h = elim (Bool-cases (is_blank k.raw)) [
  | inl blank ↦ rw (blank, h.dek_size, h.enc_size, h.mac_size, h.rmac_size, h.s_dek_size)
  | inr some_raw ↦ rw some_raw
]

session_key_bytes-keys_of :
    (k : SessionKey) (bytes : List ℕ)
    → length bytes ≡ 80
    → session_key_bytes (keys_of k bytes) ≡ bytes
unfolding session_key_bytes keys_of
session_key_bytes-keys_of k bytes e =
    let present = keys_present (keys_of k bytes) (keys_of-HasKeys k bytes e) in
    let last : take 16 (drop (4 * 16) bytes) ≡ drop (4 * 16) bytes =
      take_all 16 (drop (4 * 16) bytes) (omega (arith, length-drop (4 * 16) bytes)) in
    rw (present, last, part_rest 3 bytes, part_rest 2 bytes, part_rest 1 bytes, part_rest 0 bytes)

-- With 80 bytes the five keys of 16 bytes are set, and put together they are these bytes; any other
-- number of bytes is refused, and the keys stay as they are.
pub session_key_bytes-decode :
    (bytes : List ℕ) (k : SessionKey)
    → ((k' : SessionKey) × (length bytes ≡ 80)
        × (session_key_decode bytes 16 k ≡ ok (true, k'))
        × HasKeys k'
        × (session_key_bytes k' ≡ bytes))
      ⊎ ((length bytes ≢ 80) × (session_key_decode bytes 16 k ≡ ok (false, k)))
session_key_bytes-decode bytes k = elim (Bool-cases (length bytes == 80)) [
  | inl same ↦
      let e : length bytes ≡ 80 = ground arith in
      inl (
        keys_of k bytes,
        e,
        session_key_decode_lem bytes k e,
        keys_of-HasKeys k bytes e,
        session_key_bytes-keys_of k bytes e,
      )
  | inr differs ↦
      let other : length bytes ≢ 80 = ground arith in
      inr (other, session_key_decode_other bytes k other)
]
