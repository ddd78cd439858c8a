-- ===== src/Device/Ble/Waiting.antt =====
-- The wait of `SendData` for the packets of an answer.
use jubiter_sdk_c.Common.{
  ℕ, zero, suc, ◌≤◌, ◌<◌, ◌≡◌, refl, ap, ◌∙◌, Bool, true, false, List, [], ◌∷◌, ◌++◌, map, length,
  take, arith,
}
use jubiter_sdk_c.Fido.{recv_call_back}
use jubiter_sdk_c.Fido.Receive.{recv_all}
use jubiter_sdk_c.Device.Ble.{
  Event, packet, found, BleDevice, call_back, call_backs, ble_read_call_back, wait_for,
}

module _ {W : Type 0} (mine : Bool) where
  pub call_backs-packet :
      (ps : List (List ℕ)) (d : BleDevice W)
      → call_backs (found mine) (map packet ps) d ≡ record d { fido = recv_all d.fido ps }
  unfolding call_backs call_back ble_read_call_back recv_all
  call_backs-packet [] d = refl
  call_backs-packet (p ∷ ps) d = call_backs-packet ps (record d { fido = recv_call_back d.fido p })

  wait_told :
      (e : Event) (es : List Event) (d : BleDevice W)
      → (call_back (found mine) e d).fido.notified ≡ true
      → wait_for (found mine) (e ∷ es) d ≡ (false, call_back (found mine) e d)
  unfolding wait_for
  wait_told e es d h =
      let d' : BleDevice W = call_back (found mine) e d in
      ap (λ b. elim b [ true ↦ (false, d') | false ↦ wait_for (found mine) es d' ]) h

  wait_quiet :
      (e : Event) (es : List Event) (d : BleDevice W)
      → (call_back (found mine) e d).fido.notified ≡ false
      → wait_for (found mine) (e ∷ es) d ≡ wait_for (found mine) es (call_back (found mine) e d)
  unfolding wait_for
  wait_quiet e es d h =
      let d' : BleDevice W = call_back (found mine) e d in
      ap (λ b. elim b [ true ↦ (false, d') | false ↦ wait_for (found mine) es d' ]) h

  -- The wait ends with the first packet that wakes the sender.
  pub wait_for-packet :
      (ps : List (List ℕ)) (rest : List Event) (d : BleDevice W)
      → 0 < length ps
      → (recv_all d.fido ps).notified ≡ true
      → ((j : ℕ) → j < length ps → (recv_all d.fido (take j ps)).notified ≡ false)
      → wait_for (found mine) (map packet ps ++ rest) d
        ≡ (false, record d { fido = recv_all d.fido ps })
  unfolding call_back ble_read_call_back recv_all
  wait_for-packet [] rest d l told quiet = absurd (omega arith)
  wait_for-packet (p ∷ []) rest d l told quiet = wait_told (packet p) rest d told
  wait_for-packet (p ∷ q ∷ ps) rest d l told quiet =
      wait_quiet (packet p) (map packet (q ∷ ps) ++ rest) d (quiet 1 (omega arith))
      ∙ wait_for-packet (q ∷ ps) rest (record d { fido = recv_call_back d.fido p }) (omega arith)
          told (λ j h. quiet (suc j) (omega arith))

  -- It goes on as long as no packet wakes the sender.
  pub wait_for-quiet :
      (ps : List (List ℕ)) (j : ℕ) (rest : List Event) (d : BleDevice W)
      → ((i : ℕ) → i ≤ j → (recv_all d.fido (take i ps)).notified ≡ false)
      → wait_for (found mine) (map packet (take j ps) ++ rest) d
        ≡ wait_for (found mine) rest (record d { fido = recv_all d.fido (take j ps) })
  unfolding call_back ble_read_call_back recv_all
  wait_for-quiet ps zero rest d quiet = refl
  wait_for-quiet [] (suc j) rest d quiet = refl
  wait_for-quiet (p ∷ ps) (suc j) rest d quiet =
      wait_quiet (packet p) (map packet (take j ps) ++ rest) d (quiet 1 (omega arith))
      ∙ wait_for-quiet ps j rest (record d { fido = recv_call_back d.fido p })
          (λ i h. quiet (suc i) (omega arith))
