-- ===== src/Blade/Commands.antt =====
-- The commands of src/token/JubiterBladeToken.cpp that send one APDU and look at its answer.
use jubiter_sdk_c.Common.{
  after, ℕ, ◌+◌, ◌-◌, ◌*◌, ◌/◌, ◌%◌, ◌^◌, Bool, false, not, ◌||◌, Option, none, some, List, [], ◌∷◌,
  ◌++◌, map, ◌==◌, if◌then◌else◌, length, replicate, get_elem?, slice, Outcome, ok, fail, fault,
  stuck, ◌>>=◌, or_fault,
}
use jubiter_sdk_c.Status.{jubr_error, jubr_device_pin_error, jubr_pin_locked}
use jubiter_sdk_c.Gpc.TlvBuf.{encode}
use jubiter_sdk_c.Apdu.Format.{set_apdu}
use jubiter_sdk_c.Utility.Tlv.{to_tlv, parse_tlv}
use jubiter_sdk_c.Blade.Send.{no_length, into, Sent, verify_cos_error, send_apdu, send_checked}

-- A local array of `size` zeros after `_SendApdu` has written into it.
unfoldable pub buffer : ℕ → Sent → List ℕ
buffer size sent = sent.ret_data ++ replicate (size - length sent.ret_data) 0

abbrev pub tag_path_08 : ℕ
tag_path_08 = 0x08

-- The states of a root key that a device may report.
abbrev pub has_pin : ℕ
has_pin = 0x00

abbrev pub resetted : ℕ
resetted = 0x02

abbrev pub has_root_key : ℕ
has_root_key = 0x5A

-- `tlv_buf(0xDFFF, ...)` around the two bytes of a question.
unfoldable pub question : (first second : ℕ) → List ℕ
question first second = encode (record { tag = 0xDFFF; value = first ∷ second ∷ [] })

-- The answer of a command with the status 0x9000, and `JUBR_ERROR` with any other.
abbrev pub or_error : {A : Type 0} → (Sent → Outcome A) → Sent → Outcome A
or_error read sent = if sent.w_ret == 0x9000 then read sent else fail jubr_error

-- The answer of a command whose status is mapped to the SDK's errors.
abbrev pub or_cos_error : {A : Type 0} → (Sent → Outcome A) → Sent → Outcome A
or_cos_error read sent = verify_cos_error sent.w_ret >>= λ done. read sent

-- Whether the PIN is locked comes before the other errors.
unfoldable pub unless_locked : Sent → Outcome (Unit {0})
unless_locked s = if s.w_ret == 0x6985 then fail jubr_pin_locked else verify_cos_error s.w_ret

unfoldable pub root_key_status : Sent → Outcome ℕ
root_key_status s =
    if not (s.w_ret == 0x9000) || not (length s.ret_data == 1)
    then fail jubr_error
    else or_fault (get_elem? (buffer 1024 s) 0) >>= λ status.
        if status == has_pin || status == resetted || status == has_root_key
        then ok status
        else fail jubr_error

-- What `VerifyPIN` reports: the tries that are left, where it reports them, and its result.
pub record Verified : Type 0 where
  pub retry : Option ℕ
  pub result : Outcome (Unit {0})

unfoldable pub pin_result : Sent → Verified
pin_result s =
    if s.w_ret == 0x6985
    then record { retry = none; result = fail jubr_pin_locked }
    else if s.w_ret / 2 ^ 4 * 2 ^ 4 == 0x63C0
    then record { retry = some (s.w_ret % 2 ^ 4); result = fail jubr_device_pin_error }
    else record { retry = none; result = verify_cos_error s.w_ret }

module _ {D : Type 0} (device : Option (List ℕ → D → Outcome (List ℕ) × D)) where
  -- The command, its data behind a length, and a buffer for its answer.
  unfoldable pub ask : (cla ins p1 p2 : ℕ) → Option (List ℕ) → (le room : ℕ) → D → Outcome Sent × D
  ask c i p q none le room d =
      after (set_apdu c i p q 0 none le, d) (λ apdu d'. send_apdu device apdu (into room) d')
  ask c i p q (some body) le room d =
      after (set_apdu c i p q (length body) (some body) le, d)
        (λ apdu d'. send_apdu device apdu (into room) d')

  abbrev pub answered_by : {A : Type 0} → Outcome Sent × D → (Sent → Outcome A) → Outcome A × D
  answered_by sent read = after sent (λ s d. (read s, d))

  -- The path of a node is sent as bytes.
  unfoldable pub get_hd_node : (p1 p2 : ℕ) → (path : List ℕ) → D → Outcome (List ℕ) × D
  get_hd_node p1 p2 path d =
      answered_by (ask 0x00 0xE6 p1 p2 (some (to_tlv tag_path_08 path)) 0 2048 d)
        (or_cos_error (λ s. ok s.ret_data))

  unfoldable pub get_address : (p1 p2 : ℕ) → List ℕ → D → Outcome (List ℕ) × D
  get_address p1 p2 body d =
      answered_by (ask 0x00 0xF6 p1 p2 (some body) (length body) 2048 d)
        (or_cos_error (λ s. ok s.ret_data))

  unfoldable pub query_battery : D → Outcome ℕ × D
  query_battery d =
      answered_by (ask 0x00 0xD6 0xFE 0xED none 0x01 1024 d)
        (or_cos_error (λ s. or_fault (get_elem? (buffer 1024 s) 0)))

  unfoldable pub show_virtual_pwd : D → Outcome (Unit {0}) × D
  show_virtual_pwd d = answered_by (ask 0x00 0x29 0x00 0x00 none 0 1024 d) unless_locked

  unfoldable pub cancel_virtual_pwd : D → Outcome (Unit {0}) × D
  cancel_virtual_pwd d =
      answered_by (ask 0x00 0x29 0x80 0x00 none 0 1024 d) (λ s. verify_cos_error s.w_ret)

  unfoldable pub get_root_key_status : D → Outcome ℕ × D
  get_root_key_status d =
      answered_by (ask 0x80 0xCB 0x80 0x00 (some (question 0x81 0x05)) 0 1024 d) root_key_status

  -- A failed command leaves `ret` at 0, or at 0x6aa4.
  unfoldable pub boots : Outcome Sent × D → Outcome Bool × D
  boots (ok s, d) = (ok (s.w_ret == 0x6e00 || s.w_ret == 0x9000), d)
  boots (fail e, d) = (ok false, d)
  boots (fault, d) = (fault, d)
  boots (stuck, d) = (stuck, d)

  unfoldable pub is_boot_loader : D → Outcome Bool × D
  is_boot_loader d = boots (ask 0x00 0xA4 0x04 0x00 none 0 1024 d)

  unfoldable pub select_main_security_domain : D → Outcome (Unit {0}) × D
  select_main_security_domain d =
      after (set_apdu 0x00 0xA4 0x04 0x00 0x00 none 0, d) (send_checked device)

  unfoldable pub get_sn : D → Outcome (List ℕ) × D
  get_sn d =
      answered_by (ask 0x80 0xCB 0x80 0x00 (some (question 0x81 0x01)) 0 1024 d)
        (or_error (λ s. or_fault (slice 0 24 (buffer 1024 s))))

  unfoldable pub get_label : D → Outcome (List ℕ) × D
  get_label d =
      answered_by (ask 0x80 0xCB 0x80 0x00 (some (question 0x81 0x04)) 0 1024 d)
        (or_error (λ s. or_fault (slice 0 32 (buffer 1024 s))))

  unfoldable pub get_pin_retry : D → Outcome ℕ × D
  get_pin_retry d =
      answered_by (ask 0x80 0xCB 0x80 0x00 (some (question 0x81 0x02)) 0 1024 d)
        (or_error (λ s. or_fault (get_elem? (buffer 1024 s) 0)))

  unfoldable pub get_pin_max_retry : D → Outcome ℕ × D
  get_pin_max_retry d =
      answered_by (ask 0x80 0xCB 0x80 0x00 (some (question 0x81 0x03)) 0 1024 d)
        (or_error (λ s. or_fault (get_elem? (buffer 1024 s) 0)))

  -- The identifiers of the applets, before they are printed in hexadecimal.
  unfoldable pub enum_applet : D → Outcome (List (List ℕ)) × D
  enum_applet d =
      answered_by (ask 0x80 0xCB 0x80 0x00 (some (question 0x81 0x06)) 0 1024 d)
        (or_cos_error (λ s. parse_tlv s.ret_data))

  -- The certificate, before it is printed in hexadecimal; with fewer than 4 bytes its end would
  -- stand before its start.
  unfoldable pub get_device_cert : D → Outcome (List ℕ) × D
  get_device_cert d =
      answered_by
        (ask 0x80 0xCA 0xBF 0x21
          (some (
            encode (record {
              tag = 0xA6;
              value = encode (record { tag = 0x83; value = 0x15 ∷ 0x18 ∷ [] });
            })))
          0 1024 d)
        (or_error (λ s. or_fault (slice 4 (length s.ret_data) s.ret_data)))

  -- The digits are sent as numbers; a `uint8_t` wraps around below the digit 0.
  unfoldable pub verify_pin : (pin_mix : List ℕ) → D → Outcome Verified × D
  verify_pin pin_mix d =
      let coord = map (λ elem. (elem + 2 ^ 8 - 0x30) % 2 ^ 8) pin_mix in
      answered_by (ask 0x00 0x20 0x02 0x00 (some coord) 0 1024 d) (λ s. ok (pin_result s))

  unfoldable pub set_timeout : (timeout : ℕ) → D → Outcome (Unit {0}) × D
  set_timeout timeout d =
      after (set_apdu 0x00 0xFB (timeout / 2 ^ 8) (timeout % 2 ^ 8) 0x00 none 0, d)
        (λ apdu d'. answered_by (send_apdu device apdu no_length d') (or_error (λ s. ok tt)))
