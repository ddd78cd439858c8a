-- ===== src/Device/Ble/Exchange.antt =====
-- A whole call of `SendData` on a Bluetooth device.
use jubiter_sdk_c.Common.{
  ℕ, ◌+◌, ◌-◌, ◌≤◌, ◌<◌, ◌≡◌, refl, ap, ◌∙◌, Bool, true, false, some, List, [], ◌++◌, map, length,
  concat, ◌==◌, Outcome, ok, fail, after, arith,
}
use jubiter_sdk_c.Status.{jubr_transact_timeout}
use jubiter_sdk_c.Fido.{Fido, done, clear, check_response}
use jubiter_sdk_c.Fido.Packets.{blocks, packets}
use jubiter_sdk_c.Fido.Wrap.{wrap_fido_apdu-packets}
use jubiter_sdk_c.Fido.Receive.{recv_all}
use jubiter_sdk_c.Fido.RoundTrip.{
  Awaiting, answer_round_trip, recv_all-early, check_response-m_recv_msg, check_response-notified,
}
use jubiter_sdk_c.Device.Ble.{
  Event, packet, found, BleApi, BleDevice, match_error_code, send_data, transmit, receive,
  read_response, parsed, send_wrapped, call_backs, wait_for,
}
use jubiter_sdk_c.Device.Ble.Waiting.{call_backs-packet, wait_for-packet}

-- The state of the packet protocol once a message is sent, and once the wait begins.
abbrev pub sent_state : Fido → Fido
sent_state f = record (clear f) { cmd_header = 0x83 }

abbrev pub waiting_state : Fido → Fido
waiting_state f = let g = sent_state f in record g { notified = false }

sent-Awaiting : (f : Fido) → Awaiting (sent_state f)
unfolding clear
sent-Awaiting f = record {
  nothing = refl;
  clean = refl;
  at_start = refl;
  plain = (omega arith, omega arith);
}

pub waiting-Awaiting : (f : Fido) → Awaiting (waiting_state f)
unfolding clear
waiting-Awaiting f = record {
  nothing = refl;
  clean = refl;
  at_start = refl;
  plain = (omega arith, omega arith);
}

no_error : (android : Bool) → match_error_code android 0 ≡ ok tt
unfolding match_error_code
no_error true = refl
no_error false = refl

module _ {W : Type 0} (api : BleApi W) where
  -- The link is up, and the library takes the packets of the message.
  pub record Sends (msg : List ℕ) (d : BleDevice W) (w : W) : Type 0 where
    pub opened : (d.handle == 0) ≡ false
    pub up : (api.ft_ble_is_conn d.handle d.world == 0) ≡ false
    pub taken : api.ft_ble_send_apdu d.handle (concat (packets 0x83 msg)) d.world ≡ (0, w)
    pub fits : 3 + length msg + blocks (length msg - 17) ≤ 2048

module _ {W : Type 0} (api : BleApi W) (android mine : Bool) where
  pub send_data-receive :
      (msg : List ℕ) (timeout room : ℕ) (d : BleDevice W) (w : W)
      → Sends api msg d w
      → send_data api android (found mine) msg timeout (some room) d
        ≡ receive api android
            (found mine)
            timeout
            (some room)
            (record d { fido = sent_state d.fido; world = w })
  unfolding send_data send_wrapped transmit
  send_data-receive msg timeout room d w s =
      rw (s.opened, s.up)
        (ap (send_wrapped api android (found mine) timeout (some room) d)
          (wrap_fido_apdu-packets (clear d.fido) 0x83 msg 2048 s.fits))
      ∙ ap
          (λ (r : ℕ × W).
            after (match_error_code android r.0, record d { fido = sent_state d.fido; world = r.1 })
              (λ _ d'. receive api android (found mine) timeout (some room) d'))
          s.taken
      ∙ ap
          (λ (o : Outcome (Unit {0})).
            after (o, record d { fido = sent_state d.fido; world = w })
              (λ _ d'. receive api android (found mine) timeout (some room) d'))
          (no_error android)

-- What is read of the packets of an answer once they are all in.
read-packets :
    (android : Bool) (f : Fido) (answer : List ℕ) (room : ℕ)
    → Awaiting f
    → 0 < length answer
    → length answer ≤ 509
    → length answer ≤ room
    → (read_response android (some room) (recv_all f (packets f.cmd_header answer))).0
      ≡ ok (some answer)
unfolding read_response parsed
read-packets android f answer room a p l r =
    let t : Fido = recv_all f (packets f.cmd_header answer) in
    let arrived = answer_round_trip f answer room a p l r in
    rw (read_response, arrived.0, check_response-m_recv_msg t, arrived.2) refl

module _ {W : Type 0} (api : BleApi W) (android mine : Bool) where
  -- A message whose packets fit `sendMsg`, sent over a link that is up, and an answer of 1 to 509 bytes
  -- that fits the buffer, whose packets come in order while the wait lasts, whatever comes behind
  -- them: `SendData` returns the answer, the message was sent in its packets, and the device is
  -- connected with the handle that it had.
  pub send_data-packets :
      (msg answer : List ℕ) (rest : List Event) (timeout room : ℕ) (d : BleDevice W) (w : W)
      → Sends api msg d w
      → d.connected ≡ true
      → api.early w ≡ []
      → api.late timeout w ≡ map packet (packets 0x83 answer) ++ rest
      → 0 < length answer
      → length answer ≤ 509
      → length answer ≤ room
      → let (result, d') = send_data api android (found mine) msg timeout (some room) d in
        (result ≡ ok (some answer)) × (d'.handle ≡ d.handle) × (d'.connected ≡ true)
  unfolding receive call_backs
  send_data-packets msg answer rest timeout room d w s c e l p n r =
      let f : Fido = waiting_state d.fido in
      let before : BleDevice W = record d { fido = f; world = w } in
      let a = waiting-Awaiting d.fido in
      let waited =
        wait_for-packet mine (packets 0x83 answer) rest before (omega arith)
          (answer_round_trip f answer room a p n r).1
          (λ j h. recv_all-early f answer j a (omega arith) h) in
      rw (send_data-receive api android mine msg timeout room d w s, e, l, waited, c)
        (read-packets android f answer room a p n r, refl, refl)

  -- The same message and an answer whose packets are all in before the wait begins, with nothing
  -- called back while it lasts: nobody is waiting when the last packet wakes the sender, and `SendData`
  -- returns `JUBR_TRANSACT_TIMEOUT`, although the answer is complete.
  pub send_data-lost :
      (msg answer : List ℕ) (timeout room : ℕ) (d : BleDevice W) (w : W)
      → Sends api msg d w
      → d.connected ≡ true
      → api.early w ≡ map packet (packets 0x83 answer)
      → api.late timeout w ≡ []
      → 0 < length answer
      → length answer ≤ 509
      → length answer ≤ room
      → let (result, d') = send_data api android (found mine) msg timeout (some room) d in
        (result ≡ fail jubr_transact_timeout) × ((check_response d'.fido).0 ≡ done)
  unfolding receive wait_for
  send_data-lost msg answer timeout room d w s c e l p n r =
      let f : Fido = sent_state d.fido in
      let before : BleDevice W = record d { fido = f; world = w } in
      let t : Fido = recv_all f (packets 0x83 answer) in
      rw
        (
          send_data-receive api android mine msg timeout room d w s,
          e,
          l,
          call_backs-packet mine (packets 0x83 answer) before,
          c,
        )
        (
          refl,
          check_response-notified t false
              ∙ (answer_round_trip f answer room (sent-Awaiting d.fido) p n r).0,
        )
