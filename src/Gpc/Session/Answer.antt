-- ===== src/Gpc/Session/Answer.antt =====
-- A card's answer to the mutual authentication (gpc/src/scp11.cpp, gpc/src/scp11c.cpp): its key, and
-- the receipt behind it.
use jubiter_sdk_c.Common.{
  ℕ, suc, ◌+◌, ◌%◌, ◌^◌, ◌<◌, ◌≤◌, ◌≡◌, refl, sym, Bool, true, false, List, [], ◌∷◌, ◌++◌,
  append-nil, le→leb, ◌==◌, length, length-append, slice-append, Outcome, ok, arith,
}
use jubiter_sdk_c.Gpc.TlvBuf.{encode, tag_bytes, same_bytes_self}
use jubiter_sdk_c.Gpc.TagParse.{gpc_tlv_get_tag}
use jubiter_sdk_c.Gpc.Session.{
  mutual_auth, mutual_auth_bytes, SessionKey, ResponseMsg, response_store, response_item,
  response_tag, decode_response,
}
use jubiter_sdk_c.Gpc.Session.Channel.{
  Crypto, Channel, key_derivation, check_receipt, open_with, derived, open_secure_channel,
}
use jubiter_sdk_c.Gpc.Session.Receipt.{blank_key, blank_response}

-- The answer of a card.
unfoldable pub answer_bytes : (pk mac : List ℕ) → List ℕ
answer_bytes pk mac =
    encode (record { tag = 0x5F49; value = pk }) ++ encode (record { tag = 0x86; value = mac })

abbrev pub response_of : (pk mac : List ℕ) → ResponseMsg
response_of pk mac = record {
  sd_pk = record { tag = 0x5F49; value = pk };
  receipt = record { tag = 0x86; value = mac };
}

response_item-key :
    (next : List ℕ → ResponseMsg → Outcome (Bool × ResponseMsg)) (pk rest : List ℕ)
    (m : ResponseMsg)
    → 3 + length pk < 256
    → 0 < length rest
    → response_item next (0x5F ∷ 0x49 ∷ length pk ∷ (pk ++ rest)) m 0x5F49 (length pk)
      ≡ next rest (record m { sd_pk = record { tag = 0x5F49; value = pk } })
unfolding response_item response_store
response_item-key next pk rest m h more =
    let head : List ℕ = 0x5F ∷ 0x49 ∷ length pk ∷ [] in
    let whole : List ℕ = 0x5F ∷ 0x49 ∷ length pk ∷ pk in
    let value = slice-append 3 (3 + length pk) head pk rest (omega arith) refl in
    let skip : (3 + length pk) % 2 ^ 8 ≡ 3 + length pk = omega arith in
    let size = length-append pk rest in
    let end : whole ++ (rest ++ []) ≡ whole ++ rest = rw append-nil in
    let behind = rw end at (
      slice-append (3 + length pk) (length (whole ++ rest)) whole rest [] (omega arith)
        (omega (arith, size))) in
    let some_rest : (length rest == 0) ≡ false = ground arith in rw (value, skip, behind, some_rest)

response_item-receipt :
    (next : List ℕ → ResponseMsg → Outcome (Bool × ResponseMsg)) (mac : List ℕ) (m : ResponseMsg)
    → 2 + length mac < 256
    → response_item next (0x86 ∷ length mac ∷ mac) m 0x86 (length mac)
      ≡ ok (true, record m { receipt = record { tag = 0x86; value = mac } })
unfolding response_item response_store
response_item-receipt next mac m h =
    let head : List ℕ = 0x86 ∷ length mac ∷ [] in
    let whole : List ℕ = 0x86 ∷ length mac ∷ mac in
    let end : mac ++ [] ≡ mac = append-nil mac in
    let value = rw end at (slice-append 2 (2 + length mac) head mac [] (omega arith) refl) in
    let skip : (2 + length mac) % 2 ^ 8 ≡ 2 + length mac = omega arith in
    let behind =
      rw end at
        (slice-append (2 + length mac) (length whole) whole [] [] (omega arith) (omega arith)) in
    rw (value, skip, behind)

module _ (room : List ℕ → ℕ) (enough : (xs : List ℕ) → length xs ≤ room xs) where
  decode_response-answer_bytes :
      (fuel : ℕ) (pk mac : List ℕ)
      → 3 + length pk < 256
      → 2 + length mac < 256
      → decode_response room (suc (suc fuel)) (answer_bytes pk mac) blank_response
        ≡ ok (true, response_of pk mac)
  unfolding decode_response response_tag answer_bytes encode tag_bytes gpc_tlv_get_tag
  decode_response-answer_bytes fuel pk mac h g =
      let n : length pk % 2 ^ 8 ≡ length pk = omega arith in
      let k : length mac % 2 ^ 8 ≡ length mac = omega arith in
      let rest : List ℕ = 0x86 ∷ length mac ∷ mac in
      let bytes : List ℕ = 0x5F ∷ 0x49 ∷ length pk ∷ (pk ++ rest) in
      let fits = le→leb (length bytes) (room bytes) (enough bytes) in
      let fits' = le→leb (length rest) (room rest) (enough rest) in
      let m : ResponseMsg = record blank_response { sd_pk = record { tag = 0x5F49; value = pk } } in
      let first =
        response_item-key (decode_response room (suc fuel)) pk rest blank_response h
          (omega arith) in
      let second = response_item-receipt (decode_response room fuel) mac m g in
      rw (n, k, fits, first, fits', second)

  -- A card that derives the same keys and answers with its key, of at most 252 bytes, and the MAC of
  -- the messages of both sides opens the channel, with two steps of fuel, if a MAC has 16 bytes.
  pub open_secure_channel-answer_bytes :
      (crypto : Crypto) (fuel : ℕ) (pk : List ℕ) (c : Channel) (k : SessionKey) (mac : List ℕ)
      → ((key message : List ℕ) → length (crypto.aes_cmac key message) ≡ 16)
      → 3 + length pk < 256
      → mac ≡ crypto.aes_cmac k.key_dek (mutual_auth_bytes (mutual_auth c.shared_info c.e_pk pk))
      → key_derivation crypto (response_of pk mac) c blank_key ≡ ok (true, k)
      → open_secure_channel crypto room (suc (suc fuel)) (answer_bytes pk mac) c
        ≡ ok (true, record c { sk = k; receipt_key = response_of pk mac })
  unfolding open_secure_channel derived open_with check_receipt
  open_secure_channel-answer_bytes crypto fuel pk c k mac size h right keys =
      let mac_size : length mac ≡ 16 =
        rw right (size k.key_dek (mutual_auth_bytes (mutual_auth c.shared_info c.e_pk pk))) in
      let read = decode_response-answer_bytes fuel pk mac h (omega arith) in
      rw (read, keys, sym right, same_bytes_self mac)
