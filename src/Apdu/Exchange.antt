-- ===== src/Apdu/Exchange.antt =====
-- `_SendSafeApdu` of src/token/JubiterLiteToken.cpp over a channel that is open: the command is
-- built, sent, and its response read. The transport is the device's `SendData`.
use jubiter_sdk_c.Common.{ℕ, Option, some, List, [], Outcome, ok, fail, fault, stuck}
use jubiter_sdk_c.Status.{jubr_arguments_bad, jubr_transmit_device_error}
use jubiter_sdk_c.Gpc.Scp03.{Aes, Scp03}
use jubiter_sdk_c.Apdu.Format.{Apdu}
use jubiter_sdk_c.Apdu.Builder.{
  Scp11, Builder, Parsed, set_scp03, set_scp11, build_safe_apdu, parse_safe_apdu_resp,
}

module _ {D : Type 0} (aes : Aes) (send_data : List ℕ → D → Outcome (List ℕ) × D) where
  -- The response, the state of the channel and the device's after it.
  abbrev pub Reply : Type 0
  Reply = Outcome Parsed × Option Scp03 × D

  unfoldable pub after_send : Option Scp03 → Option Scp11 → Option ℕ → Outcome (List ℕ) × D → Reply
  after_send s k room (ok response, d) =
      let parsed = parse_safe_apdu_resp aes s k response room in (parsed.0, parsed.1, d)
  after_send s k room (fail e, d) = (fail jubr_transmit_device_error, s, d)
  after_send s k room (fault, d) = (fault, s, d)
  after_send s k room (stuck, d) = (stuck, s, d)

  unfoldable pub after_build :
      Option Scp03 → Option Scp11 → Option ℕ → D → Outcome (List ℕ × Option Scp03) → Reply
  after_build s k room d (ok (command, s')) = after_send s' k room (send_data command d)
  after_build s k room d (fail e) = (fail jubr_transmit_device_error, s, d)
  after_build s k room d fault = (fault, s, d)
  after_build s k room d stuck = (stuck, s, d)

  unfoldable pub after_set : Option ℕ → Apdu → D → Builder → Outcome Builder → Reply
  after_set room apdu d b (ok b') =
      after_build b'.scp03_ptr b'.scp11_ptr room d
        (build_safe_apdu aes b'.scp03_ptr b'.scp11_ptr apdu [])
  after_set room apdu d b (fail e) = (fail jubr_arguments_bad, b.scp03_ptr, d)
  after_set room apdu d b fault = (fault, b.scp03_ptr, d)
  after_set room apdu d b stuck = (stuck, b.scp03_ptr, d)

  unfoldable pub send_safe_apdu : Builder → Scp03 → Scp11 → Apdu → Option ℕ → D → Reply
  send_safe_apdu builder s k apdu room d =
      let b = set_scp03 (some s) builder in after_set room apdu d b (set_scp11 k b)
