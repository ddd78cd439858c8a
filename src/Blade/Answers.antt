-- ===== src/Blade/Answers.antt =====
-- What the commands of src/token/JubiterBladeToken.cpp make of the answers of a device.
use jubiter_sdk_c.Common.{
  ℕ, ◌+◌, ◌-◌, ◌*◌, ◌/◌, ◌%◌, ◌^◌, ◌<◌, ◌≡◌, ◌≢◌, refl, false, some, List, [], ◌∷◌, map, ltb,
  ==_iff, Bool-cases, ◌⊎◌, inl, inr, ◌==◌, length, slice, slice_all, Outcome, ok, fail, arith,
}
use jubiter_sdk_c.Status.{jubr_device_pin_error, jubr_pin_locked, jubr_unknown_cos_error}
use jubiter_sdk_c.Apdu.Format.{set_apdu, set_data}
use jubiter_sdk_c.Apdu.Parse.{build_apdu_total}
use jubiter_sdk_c.Blade.Send.{
  into, Sent, last_word, received, verify_cos_error, cos_error2_sdk_error, send_by, send_apdu,
  transmitted,
}
use jubiter_sdk_c.Blade.Commands.{ask, Verified, pin_result, verify_pin}

-- The two bytes of a status, without data.
received_status :
    (high low room : ℕ)
    → high * 0x100 + low ≢ 0x6aa4
    → received (into room) (high ∷ low ∷ [])
      ≡ ok (record { w_ret = high * 0x100 + low; ret_len = some 0; ret_data = [] })
unfolding received last_word slice
received_status high low room h =
    let room_enough : ltb room 0 ≡ false = ground arith in
    let other : (high * 0x100 + low == 0x6aa4) ≡ false = ground arith in rw (room_enough, other)

-- What is reported for a status.
abbrev status_only : ℕ → Sent
status_only w = record { w_ret = w; ret_len = some 0; ret_data = [] }

pin_result_cases :
    (w : ℕ)
    → ((w ≡ 0x9000) × ((pin_result (status_only w)).result ≡ ok tt))
      ⊎ ((w ≡ 0x6985) × ((pin_result (status_only w)).result ≡ fail jubr_pin_locked))
      ⊎ ((n : ℕ) × (n < 16)
          × (w ≡ 0x63C0 + n)
          × ((pin_result (status_only w)).retry ≡ some n)
          × ((pin_result (status_only w)).result ≡ fail jubr_device_pin_error))
      ⊎ ((w ≢ 0x9000)
          × (w ≢ 0x6985)
          × (w / 16 ≢ 0x63C)
          × ((pin_result (status_only w)).result ≡ fail (jubr_unknown_cos_error + w)))
unfolding pin_result verify_cos_error cos_error2_sdk_error
pin_result_cases w = elim (Bool-cases (w == 0x6985)) [
  | inl locked ↦ inr (inl ((==_iff _ _).0 locked, rw locked))
  | inr open_pin ↦ elim (Bool-cases (w / 16 * 16 == 0x63C0)) [
    | inl tries ↦
        let base : w / 16 * 16 ≡ 0x63C0 = (==_iff _ _).0 tries in
        inr (
          inr (
            inl (
              w % 16,
              omega arith,
              omega (arith, base),
              rw (open_pin, tries),
              rw (open_pin, tries),
            )))
    | inr no_tries ↦ elim (Bool-cases (w == 0x9000)) [
      | inl done ↦ inl ((==_iff _ _).0 done, rw (open_pin, no_tries, done))
      | inr failed ↦ inr (
          inr (
            inr (
              ground arith,
              ground arith,
              λ e. ground (arith, e),
              rw (open_pin, no_tries, failed),
            )))
    ]
  ]
]

module _ {D : Type 0} where
  -- A device that gives one answer to every command.
  unfoldable pub answering : List ℕ → List ℕ → D → Outcome (List ℕ) × D
  answering response command d = (ok response, d)

  ask_body :
      (response : List ℕ) (c i p q : ℕ) (body : List ℕ) (le room : ℕ) (d : D)
      → ask (some (answering response)) c i p q (some body) le room d
        ≡ (received (into room) response, d)
  unfolding ask set_apdu set_data send_apdu send_by answering transmitted
  ask_body response c i p q [] le room d =
      let (bytes, built) =
        build_apdu_total (record { cla = c; ins = i; p1 = p; p2 = q; lc = 0; le = le; body = [] })
          refl in
      rw built
  ask_body response c i p q (x ∷ body) le room d =
      let (bytes, built) =
        build_apdu_total
          (record {
            cla = c;
            ins = i;
            p1 = p;
            p2 = q;
            lc = length (x ∷ body);
            le = le;
            body = x ∷ body;
          })
          refl in
      let some_data : (length (x ∷ body) == 0) ≡ false = ground arith in
      rw (some_data, slice_all (length (x ∷ body)) (x ∷ body) refl, built)

  -- What a PIN check reports for every status but that of a timeout: success for 0x9000, a locked
  -- PIN for 0x6985, the number of tries that are left for 0x63C0 to 0x63CF, and otherwise the error
  -- of the status.
  pub verify_pin_status :
      (pin : List ℕ) (high low : ℕ) (d : D)
      → high * 0x100 + low ≢ 0x6aa4
      → (v : Verified) × (verify_pin (some (answering (high ∷ low ∷ []))) pin d ≡ (ok v, d))
        × (((high * 0x100 + low ≡ 0x9000) × (v.result ≡ ok tt))
            ⊎ ((high * 0x100 + low ≡ 0x6985) × (v.result ≡ fail jubr_pin_locked))
            ⊎ ((n : ℕ) × (n < 16)
                × (high * 0x100 + low ≡ 0x63C0 + n)
                × (v.retry ≡ some n)
                × (v.result ≡ fail jubr_device_pin_error))
            ⊎ ((high * 0x100 + low ≢ 0x9000)
                × (high * 0x100 + low ≢ 0x6985)
                × ((high * 0x100 + low) / 16 ≢ 0x63C)
                × (v.result ≡ fail (jubr_unknown_cos_error + (high * 0x100 + low)))))
  unfolding verify_pin
  verify_pin_status pin high low d h =
      let w = high * 0x100 + low in
      let sent : Sent = record { w_ret = w; ret_len = some 0; ret_data = [] } in
      let coord = map (λ elem. (elem + 2 ^ 8 - 0x30) % 2 ^ 8) pin in
      (
        pin_result sent,
        rw (
          ask_body (high ∷ low ∷ []) 0x00 0x20 0x02 0x00 coord 0 1024 d,
          received_status high low 1024 h,
        ),
        pin_result_cases w,
      )
