-- ===== src/Apdu/Errors.antt =====
-- `ParseSafeApduResp` of src/device/ApduBuilder.cpp on responses that carry no answer.
use jubiter_sdk_c.Common.{
  ℕ, ◌+◌, ◌*◌, ◌≡◌, ◌≢◌, refl, true, false, Option, none, some, List, [], ◌∷◌, ◌++◌, ◌==◌,
  Bool-cases, inl, inr, take, length, ok, fail, fault, arith,
}
use jubiter_sdk_c.Status.{jubr_error}
use jubiter_sdk_c.Gpc.TlvBuf.{same_bytes, same_bytes_self, same_bytes→≡}
use jubiter_sdk_c.Gpc.Scp03
use jubiter_sdk_c.Gpc.Scp03.{Aes, IsCipher, Scp03, counter_block, icv, decrypt, unpad80}
use jubiter_sdk_c.Apdu.Format.{ResponseApdu, decode}
use jubiter_sdk_c.Apdu.Builder.{
  Scp11, parse_safe_apdu_resp, parse_decoded, check_cmac, unpack_data, unpack_bytes,
  response_mac_input, inc_counter,
}
use jubiter_sdk_c.Apdu.Card.{IsOpen}
use jubiter_sdk_c.Apdu.Command.{cmac_lem, vector_of}

-- The status that a response is read to have.
abbrev pub status : ResponseApdu → ℕ
status resp = resp.sw1 * 0x100 + resp.sw2

-- A response with another status than 0x9000 hands on its status and nothing else, and the counter
-- steps on; its MAC is not looked at.
pub parse_safe_apdu_resp-status :
    (aes : Aes) (s : Scp03) (k : Option Scp11) (raw : List ℕ) (room : Option ℕ)
    (resp : ResponseApdu)
    → decode raw ≡ ok resp
    → status resp ≢ 0x9000
    → parse_safe_apdu_resp aes (some s) k raw room
      ≡ (ok (record { w_ret = status resp; ret_data = none }), some (Scp03.inc_counter s))
unfolding parse_safe_apdu_resp parse_decoded inc_counter
parse_safe_apdu_resp-status aes s k raw room resp decoded other =
    let test : (0x9000 == status resp) ≡ false = ground arith in rw (decoded, test)

no_elems : (xs : List ℕ) → length xs ≡ 0 → xs ≡ []
no_elems [] h = refl
no_elems (x ∷ xs) h = absurd (omega arith)

module _ (aes : Aes) (law : IsCipher aes) (k : Scp11) (open_keys : IsOpen aes k) where
  check_cmac_lem :
      (s : Scp03) (resp : ResponseApdu)
      → resp.cmac ≢ take 8 (aes.mac k.s_rmac (response_mac_input s.mac_chain resp))
      → check_cmac aes (some s) (some k) resp ≡ fail jubr_error
  unfolding check_cmac
  check_cmac_lem s resp other =
      let mac =
        cmac_lem aes law k open_keys k.s_rmac (response_mac_input s.mac_chain resp)
          open_keys.rmac_size in
      let outmac = take 8 (aes.mac k.s_rmac (response_mac_input s.mac_chain resp)) in
      elim (Bool-cases (same_bytes resp.cmac outmac)) [
        | inl same ↦ absurd (other (same_bytes→≡ resp.cmac outmac same))
        | inr wrong ↦ rw (mac, wrong)
      ]

  -- Over an open channel, with the status 0x9000, a response whose MAC is not that of its data and status, one without a
  -- MAC included, is refused before anything is decrypted, and the state of the channel stays.
  pub parse_safe_apdu_resp_forged :
      (s : Scp03) (raw : List ℕ) (room : Option ℕ) (resp : ResponseApdu)
      → decode raw ≡ ok resp
      → status resp ≡ 0x9000
      → resp.cmac ≢ take 8 (aes.mac k.s_rmac (response_mac_input s.mac_chain resp))
      → parse_safe_apdu_resp aes (some s) (some k) raw room ≡ (fail jubr_error, some s)
  unfolding parse_safe_apdu_resp parse_decoded
  parse_safe_apdu_resp_forged s raw room resp decoded done other =
      let test : (0x9000 == status resp) ≡ true = ground arith in
      rw (decoded, test, check_cmac_lem s resp other)

  -- Over an open channel, a response with the status 0x9000, the right MAC and no data is a fault: the
  -- padding of nothing is looked for in front of the buffer.
  pub parse_safe_apdu_resp_no_data :
      (s : Scp03) (raw : List ℕ) (room : Option ℕ) (tag : List ℕ)
      → decode raw ≡ ok (record { body = []; cmac = tag; sw1 = 0x90; sw2 = 0x00 })
      → tag ≡ take 8 (aes.mac k.s_rmac (s.mac_chain ++ (0x90 ∷ 0x00 ∷ [])))
      → (parse_safe_apdu_resp aes (some s) (some k) raw room).0 ≡ fault
  unfolding parse_safe_apdu_resp parse_decoded check_cmac response_mac_input unpack_data
      unpack_bytes icv decrypt unpad80 Scp03.inc_counter
  parse_safe_apdu_resp_no_data s raw room tag decoded right =
      let mac =
        cmac_lem aes law k open_keys k.s_rmac (s.mac_chain ++ (0x90 ∷ 0x00 ∷ []))
          open_keys.rmac_size in
      let (vector, made) = vector_of aes law k open_keys 0x80 (s.counter + 1) in
      let (code, encrypted, size, decrypted) =
        law.encrypts k.s_enc vector [] open_keys.enc_ok refl in
      let empty = rw (no_elems code size) at decrypted in
      let same = same_bytes_self (take 8 (aes.mac k.s_rmac (s.mac_chain ++ (0x90 ∷ 0x00 ∷ [])))) in
      rw (decoded, right, mac, same, open_keys.enc_ok, made, empty)
