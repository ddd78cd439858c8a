-- ===== src/Blade/Tokens.antt =====
-- The commands of src/token/JubiterBladeToken.cpp that select applets and hand over tokens, and those of
-- the handshake in src/token/JubiterLiteToken.cpp. Hexadecimal texts are given as their bytes.
use jubiter_sdk_c.Common.{
  after, ℕ, ◌+◌, ◌%◌, ◌^◌, ◌&&◌, Option, none, some, List, [], ◌∷◌, ◌++◌, map, concat, ltb, ◌==◌,
  if◌then◌else◌, length, get_elem?, slice, Outcome, ok, fail, ◌>>=◌, ◌>>◌, check, or_fault,
}
use jubiter_sdk_c.Status.{
  jubr_error, jubr_arguments_bad, jubr_memory_null_ptr, jubr_transmit_device_error,
}
use jubiter_sdk_c.Gpc.TlvBuf.{same_bytes}
use jubiter_sdk_c.Apdu.Format.{set_apdu}
use jubiter_sdk_c.Utility.Tlv.{tollv}
use jubiter_sdk_c.Blade.Send.{Sent, no_length, send_apdu, send_checked, verify_cos_error}
use jubiter_sdk_c.Blade.Commands.{buffer, question, ask, answered_by, or_error, or_cos_error}

abbrev pub kpkiaid_fido : List ℕ
kpkiaid_fido = 0xA0 ∷ 0x00 ∷ 0x00 ∷ 0x06 ∷ 0x47 ∷ 0x2F ∷ 0x00 ∷ 0x01 ∷ []

-- The version behind its length.
unfoldable pub select_version : Sent → Outcome (List ℕ)
select_version s = do
  size ← or_fault (get_elem? (buffer 1024 s) 3)
  or_fault (slice 4 (4 + size) (buffer 1024 s))

-- The version of an applet other than the one for FIDO.
unfoldable pub applet_version : Sent → Outcome (List ℕ)
applet_version s = do
  form ← or_fault (get_elem? (buffer 1024 s) 2)
  size ← or_fault (get_elem? (buffer 1024 s) 3)
  check (form == 0x84 && size == 0x04) jubr_error
  or_fault (slice 4 8 (buffer 1024 s))

pub record Erc20TokenInfo : Type 0 where
  pub token_name : List ℕ
  pub unit_dp : ℕ
  pub contract_address : List ℕ

-- A name with its length, and an address with its length.
unfoldable pub named_address : (token_name contract_address : List ℕ) → List ℕ
named_address token_name contract_address =
    length (tollv token_name) % 2 ^ 8
    ∷ (tollv token_name ++ (length contract_address % 2 ^ 8 ∷ contract_address))

unfoldable pub token_bytes : Erc20TokenInfo → List ℕ
token_bytes t = t.unit_dp % 2 ^ 8 ∷ named_address t.token_name t.contract_address

module _ {D : Type 0} (device : Option (List ℕ → D → Outcome (List ℕ) × D)) where
  unfoldable pub select_app : (pkiaid : List ℕ) → D → Outcome (List ℕ) × D
  select_app pkiaid d =
      answered_by device (ask device 0x00 0xA4 0x04 0x00 (some pkiaid) 0 1024 d)
        (or_cos_error select_version)

  -- The text of the identifier, and its bytes.
  unfoldable pub get_applet_version : (app_id id : List ℕ) → D → Outcome (List ℕ) × D
  get_applet_version app_id id d =
      if length app_id == 0
      then (fail jubr_arguments_bad, d)
      else after (ask device 0x00 0xA4 0x04 0x00 (some id) 0 1024 d) (λ s d'.
        after (verify_cos_error s.w_ret, d')
          (λ done d''.
            if same_bytes id kpkiaid_fido
            then answered_by device
                (ask device 0x80 0xE2 0x80 0x00 (some (question 0x80 0x01)) 0 1024 d'')
                (or_cos_error (λ t. or_fault (slice 6 10 (buffer 1024 t))))
            else (applet_version s, d'')))

  -- The bytes of a command are sent as they are, and the response is returned.
  unfoldable pub sent_by :
      Option (List ℕ → D → Outcome (List ℕ) × D) → List ℕ → D → Outcome (List ℕ) × D
  sent_by none apdu d = (fail jubr_memory_null_ptr, d)
  sent_by (some send_data) apdu d = or_transmit_error (send_data apdu d)
    where
      or_transmit_error : Outcome (List ℕ) × D → Outcome (List ℕ) × D
      or_transmit_error (fail e, d') = (fail jubr_transmit_device_error, d')
      or_transmit_error r = r

  unfoldable pub send_one_apdu : List ℕ → D → Outcome (List ℕ) × D
  send_one_apdu apdu d = sent_by device apdu d

  unfoldable pub set_erc20_tokens : List Erc20TokenInfo → D → Outcome (Unit {0}) × D
  set_erc20_tokens tokens d =
      if ltb 2 (length tokens)
      then (fail jubr_arguments_bad, d)
      else let body = length tokens % 2 ^ 8 ∷ concat (map token_bytes tokens) in
        after (set_apdu 0x00 0xC7 0x02 0x00 (length body) (some body) 0, d)
          (λ apdu d'.
            after (send_apdu device apdu no_length d')
              (λ s d''. (check (s.w_ret == 0x9000) jubr_transmit_device_error, d'')))

  unfoldable pub set_erc20_token : Erc20TokenInfo → D → Outcome (Unit {0}) × D
  set_erc20_token t d =
      let body = token_bytes t in
      after (set_apdu 0x00 0xC7 0x00 0x00 (length body) (some body) 0, d) (send_checked device)

  unfoldable pub set_erc721_token :
      (token_name contract_address : List ℕ) → D → Outcome (Unit {0}) × D
  set_erc721_token token_name contract_address d =
      let body = named_address token_name contract_address in
      after (set_apdu 0x00 0xC7 0x01 0x00 (length body) (some body) 0, d) (send_checked device)

  unfoldable pub perform_security_operation : (oce_cert : List ℕ) → D → Outcome (Unit {0}) × D
  perform_security_operation oce_cert d =
      if length oce_cert == 0
      then (fail jubr_arguments_bad, d)
      else answered_by device (ask device 0x80 0x2A 0x18 0x10 (some oce_cert) 0 1024 d)
          (or_error (λ s. ok tt))

  unfoldable pub mutual_authenticate : List ℕ → D → Outcome (List ℕ) × D
  mutual_authenticate body d =
      if length body == 0
      then (fail jubr_arguments_bad, d)
      else answered_by device (ask device 0x80 0x82 0x18 0x15 (some body) 0 1024 d)
          (or_error (λ s. ok s.ret_data))
