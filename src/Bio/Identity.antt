-- ===== src/Bio/Identity.antt =====
-- src/token/JubiterBIOToken.cpp: the commands that ask who the user is, and that delete a fingerprint.
use Prim.Native.Nat.{bit_and}
use jubiter_sdk_c.Common.{
  after, ℕ, ◌+◌, ◌-◌, ◌%◌, ◌^◌, Bool, Option, none, some, List, [], ◌∷◌, ◌++◌, map, ◌||◌, ◌==◌,
  if◌then◌else◌, Outcome, ok, fail, fault, stuck,
}
use jubiter_sdk_c.Status.{jubr_error, jubr_arguments_bad, jubr_pin_locked, jubr_device_pin_error}
use jubiter_sdk_c.Gpc.TlvBuf.{encode, encode_t}
use jubiter_sdk_c.Blade.Send.{Sent, verify_cos_error}
use jubiter_sdk_c.Blade.Commands.{ask}

abbrev pub jubr_conditions_not_satisfied : ℕ
jubr_conditions_not_satisfied = 0x40006985

abbrev pub default_fp_timeout : ℕ
default_fp_timeout = 8

abbrev pub via_device : ℕ
via_device = 0x01

abbrev pub via_9grids : ℕ
via_9grids = 0x02

abbrev pub via_apdu : ℕ
via_apdu = 0x03

abbrev pub via_fpgt : ℕ
via_fpgt = 0x04

-- `tlv_buf(tag, value).encode()`.
abbrev tlv : ℕ → List ℕ → List ℕ
tlv tag value = encode (record { tag = tag; value = value })

-- The status of a command that verifies, where 0x63CX counts the tries that are left.
unfoldable pub identity_result : ℕ → Outcome (Unit {0})
identity_result w =
    if w == 0x6985
    then fail jubr_pin_locked
    else if bit_and w 0xfff0 == 0x63C0
    then fail jubr_device_pin_error
    else verify_cos_error w

-- What is written to `retry`.
unfoldable pub retries : ℕ → Option ℕ
retries w =
    if w == 0x6985 then none else if bit_and w 0xfff0 == 0x63C0 then some (bit_and w 0xf) else none

unfoldable pub identity_answer : {D : Type 0} → Outcome Sent × D → Outcome (Unit {0}) × Option ℕ × D
unfolding identity_result retries
identity_answer (ok s, d) = (identity_result s.w_ret, retries s.w_ret, d)
identity_answer (fail e, d) = (fail e, none, d)
identity_answer (fault, d) = (fault, none, d)
identity_answer (stuck, d) = (stuck, none, d)

unfoldable pub ui_result : ℕ → Outcome (Unit {0})
ui_result w = if w == 0x6985 then fail jubr_conditions_not_satisfied else verify_cos_error w

unfoldable pub grids_result : ℕ → Outcome (Unit {0})
grids_result w = if w == 0x6985 then fail jubr_pin_locked else verify_cos_error w

unfoldable pub delete_result : ℕ → Outcome (Unit {0})
delete_result w =
    if w == 0x9000
    then ok tt
    else if w == 0x6982 || w == 0x6985
    then fail jubr_conditions_not_satisfied
    else if w == 0x9bef
    then fail jubr_device_pin_error
    else fail jubr_error

-- The bytes of a PIN, which a PIN on a grid of nine gives as numbers.
unfoldable pub pin_bytes : ℕ → List ℕ → Outcome (List ℕ)
pin_bytes mode pin_mix =
    if mode == via_9grids
    then ok (map (λ c. (c + 2 ^ 8 - 0x30) % 2 ^ 8) pin_mix)
    else if mode == via_apdu
    then ok pin_mix
    else fail jubr_arguments_bad

-- A timeout that is not the usual one is cut to a byte.
unfoldable pub delete_data : ℕ → ℕ → List ℕ
delete_data fp_timeout fgpt_id =
    let first = fgpt_id ∷ [] in
    let tag_data =
      if fp_timeout == default_fp_timeout then first else first ++ fp_timeout % 2 ^ 8 ∷ [] in
    tlv 0xDFFE (tlv 0x8213 tag_data)

module _ {D : Type 0} (device : Option (List ℕ → D → Outcome (List ℕ) × D)) where
  -- A command with its data, and room for 1024 bytes of answer.
  unfoldable pub ask_bio : List ℕ → D → Outcome Sent × D
  ask_bio body d = ask device 0x80 0xCB 0x80 0x00 (some body) 0 1024 d

  unfoldable pub ui_show_main : D → Outcome (Unit {0}) × D
  unfolding ask_bio ui_result
  ui_show_main d =
      after (ask_bio (tlv 0xDFFF (encode_t (record { tag = 0x8144; value = [] }))) d)
        (λ s d1. (ui_result s.w_ret, d1))

  unfoldable pub identity_verify : ℕ → D → Outcome (Unit {0}) × Option ℕ × D
  unfolding ask_bio identity_answer
  identity_verify mode d =
      if mode == via_device || mode == via_fpgt
      then identity_answer (ask_bio (tlv 0xDFFF (tlv 0x8220 (mode ∷ []))) d)
      else (fail jubr_arguments_bad, none, d)

  unfoldable pub identity_verify_pin : ℕ → List ℕ → D → Outcome (Unit {0}) × Option ℕ × D
  unfolding ask_bio identity_answer pin_bytes
  identity_verify_pin mode pin_mix d = identity_answer (
      after (pin_bytes mode pin_mix, d)
        (λ pin d1. ask_bio (tlv 0xDFFF (tlv 0x8220 (tlv mode pin))) d1))

  unfoldable pub identity_nine_grids : Bool → D → Outcome (Unit {0}) × D
  unfolding ask_bio grids_result
  identity_nine_grids b_show d =
      let value = if b_show then 0x00 else 0x80 in
      after (ask_bio (tlv 0xDFFF (tlv 0x8220 (tlv via_9grids (value ∷ [])))) d)
        (λ s d1. (grids_result s.w_ret, d1))

  unfoldable pub verify_fingerprint : D → Outcome (Unit {0}) × Option ℕ × D
  unfolding identity_answer
  verify_fingerprint d = identity_answer (ask device 0x00 0x20 0x04 0x00 none 0 1024 d)

  unfoldable pub delete_fingerprint : ℕ → ℕ → D → Outcome (Unit {0}) × D
  unfolding ask_bio delete_data delete_result
  delete_fingerprint fp_timeout fgpt_id d =
      after (ask_bio (delete_data fp_timeout fgpt_id) d) (λ s d1. (delete_result s.w_ret, d1))
