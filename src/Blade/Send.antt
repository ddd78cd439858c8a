-- ===== src/Blade/Send.antt =====
-- `_SendApdu` of src/token/JubiterBladeToken.cpp, and the status words of a token
-- (include/token/ErrorHandler.h). The transport is the device's `SendData`.
use jubiter_sdk_c.Common.{
  after, ℕ, ◌+◌, ◌-◌, ◌*◌, Option, none, some, List, [], ltb, leb, ◌==◌, if◌then◌else◌, length,
  get_elem?, slice, Outcome, ok, fail, fault, stuck, ◌>>=◌, ◌>>◌, within, or_fault,
}
use jubiter_sdk_c.Status.{
  jubr_memory_null_ptr, jubr_buffer_too_small, jubr_transmit_device_error, jubr_transact_timeout,
  jubr_unknown_cos_error,
}
use jubiter_sdk_c.Apdu.Format.{Apdu, build_apdu}

-- `pulRetDataLen` is a null pointer, or only `retData` is, or neither.
pub data Dest : Type 0 where
  no_length length_only : Dest
  into : ℕ → Dest

-- `wRet`, `*pulRetDataLen`, and the bytes written to `retData`.
pub record Sent : Type 0 where
  pub w_ret : ℕ
  pub ret_len : Option ℕ
  pub ret_data : List ℕ

-- `_retData[n - 2] * 0x100 + _retData[n - 1]`; the indices of an unsigned `n` below 2 wrap around.
unfoldable pub last_word : List ℕ → Outcome ℕ
last_word response = do
  within (leb 2 (length response))
  high ← or_fault (get_elem? response (length response - 2))
  low ← or_fault (get_elem? response (length response - 1))
  ok (high * 0x100 + low)

-- The response is taken over; the unsigned `n - 2` of a response of fewer than 2 bytes is larger
-- than any room.
unfoldable pub received : Dest → List ℕ → Outcome Sent
received no_length response =
    last_word response >>= λ w. ok (record { w_ret = w; ret_len = none; ret_data = [] })
received length_only response = last_word response >>= λ w.
    ok (record { w_ret = w; ret_len = some (length response - 2); ret_data = [] })
received (into room) response =
    if ltb (length response) 2
    then fail jubr_buffer_too_small
    else if ltb room (length response - 2)
    then fail jubr_buffer_too_small
    else (do
      bytes ← or_fault (slice 0 (length response - 2) response)
      w ← last_word response
      if w == 0x6aa4
          then fail jubr_transact_timeout
          else ok (record { w_ret = w; ret_len = some (length response - 2); ret_data = bytes }))

unfoldable pub cos_error2_sdk_error : ℕ → ℕ
cos_error2_sdk_error cos_error = jubr_unknown_cos_error + cos_error

-- `JUB_VERIFY_COS_ERROR`.
unfoldable pub verify_cos_error : ℕ → Outcome (Unit {0})
verify_cos_error w = if w == 0x9000 then ok tt else fail (cos_error2_sdk_error w)

module _ {D : Type 0} (device : Option (List ℕ → D → Outcome (List ℕ) × D)) where
  unfoldable pub transmitted : Dest → Outcome (List ℕ) × D → Outcome Sent × D
  transmitted dest (ok response, d) = (received dest response, d)
  transmitted dest (fail e, d) = (fail jubr_transmit_device_error, d)
  transmitted dest (fault, d) = (fault, d)
  transmitted dest (stuck, d) = (stuck, d)

  unfoldable pub send_by :
      Option (List ℕ → D → Outcome (List ℕ) × D) → Apdu → Dest → D → Outcome Sent × D
  send_by none apdu dest d = (fail jubr_memory_null_ptr, d)
  send_by (some send_data) apdu dest d =
      after (build_apdu apdu [], d) (λ command d'. transmitted dest (send_data command d'))

  unfoldable pub send_apdu : Apdu → Dest → D → Outcome Sent × D
  send_apdu apdu dest d = send_by device apdu dest d

  -- A command without an answer, with its status checked.
  unfoldable pub send_checked : Apdu → D → Outcome (Unit {0}) × D
  send_checked apdu d =
      after (send_apdu apdu no_length d) (λ sent d'. (verify_cos_error sent.w_ret, d'))
