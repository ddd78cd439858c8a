-- ===== src/Apdu/Answer.antt =====
-- `ParseSafeApduResp` of src/device/ApduBuilder.cpp on an answer of the card of Apdu/Card.
use jubiter_sdk_c.Common.{
  ℕ, ◌+◌, ◌≤◌, ◌≡◌, refl, true, some, List, [], ◌∷◌, ◌++◌, ltb-false, length, take, replicate,
  length-take, slice_all, ok, arith,
}
use jubiter_sdk_c.Gpc.TlvBuf.{same_bytes, same_bytes_self}
use jubiter_sdk_c.Gpc.Scp03
use jubiter_sdk_c.Gpc.Scp03.{
  Aes, IsCipher, Scp03, counter_block, icv, cmac, mac_chaining, encrypt, decrypt,
}
use jubiter_sdk_c.Gpc.Scp03.Encryption.{decrypt_size, decrypts_padded}
use jubiter_sdk_c.Apdu.Format.{ResponseApdu}
use jubiter_sdk_c.Apdu.Response.{response_bytes, decode-response_bytes}
use jubiter_sdk_c.Apdu.Builder.{
  Scp11, parse_safe_apdu_resp, parse_decoded, check_cmac, unpack_data, unpack_bytes, copy_out,
  response_mac_input,
}
use jubiter_sdk_c.Apdu.Card.{Card, IsOpen, response_mac, seal_response}
use jubiter_sdk_c.Apdu.Command.{padded_size, vector_of, cmac_lem}

module _ (aes : Aes) (law : IsCipher aes) (k : Scp11) (open_keys : IsOpen aes k) where
  -- An answer that the card seals is read by the other end, whose counter steps on with the card's.
  pub answer_read :
      (s : Scp03) (c : Card) (text : List ℕ) (room : ℕ)
      → s.counter + 1 ≡ c.counter
      → s.mac_chain ≡ c.chain
      → padded_size text ≤ room
      → (raw : List ℕ) × (seal_response aes k c text ≡ ok raw)
        × (parse_safe_apdu_resp aes (some s) (some k) raw (some room)
            ≡ (ok (record { w_ret = 0x9000; ret_data = some text }), some (Scp03.inc_counter s)))
  unfolding seal_response parse_safe_apdu_resp parse_decoded check_cmac unpack_data unpack_bytes icv
      copy_out response_mac response_mac_input Scp03.inc_counter
  answer_read s c text room next same fits =
      let (vector, made) = vector_of aes law k open_keys 0x80 c.counter in
      let (code, encrypted, size, decrypted) =
        decrypts_padded aes law k.s_enc vector open_keys.enc_ok text in
      let tag = response_mac aes k c.chain code in
      let resp : ResponseApdu = record { body = code; cmac = tag; sw1 = 0x90; sw2 = 0x00 } in
      let tag_size : length tag ≡ 8 = omega (
        arith,
        length-take 8 (aes.mac k.s_rmac (c.chain ++ (code ++ (0x90 ∷ 0x00 ∷ [])))),
        law.mac_size k.s_rmac (c.chain ++ (code ++ (0x90 ∷ 0x00 ∷ []))),
      ) in
      let decoded = decode-response_bytes resp tag_size in
      let mac =
        cmac_lem aes law k open_keys k.s_rmac (s.mac_chain ++ (code ++ (0x90 ∷ 0x00 ∷ [])))
          open_keys.rmac_size in
      let right : same_bytes tag
            (take 8 (aes.mac k.s_rmac (s.mac_chain ++ (code ++ (0x90 ∷ 0x00 ∷ [])))))
          ≡ true =
        rw same (same_bytes_self tag) in
      let made' : aes.cbc_encrypt k.s_enc (replicate 16 0) (counter_block 0x80 (s.counter + 1))
          ≡ some vector =
        rw next made in
      let enough = ltb-false room (length code) (omega arith) in
      let whole = slice_all (length text) text refl in
      let sized = decrypt_size aes k.s_enc vector code in
      (
        response_bytes resp,
        rw (made, encrypted),
        rw (decoded, mac, right, open_keys.enc_ok, made', sized, decrypted, whole, enough),
      )
