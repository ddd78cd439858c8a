-- ===== src/Device/Ble/Gone.antt =====
-- A Bluetooth device that goes while `SendData` waits.
use jubiter_sdk_c.Common.{
  ℕ, zero, suc, ◌<◌, ◌≤◌, ◌≡◌, refl, Bool, not, true, false, if◌then◌else◌, Option, some, List, [],
  ◌∷◌, ◌++◌, map, length, take, ◌==◌, Outcome, fail, arith,
}
use jubiter_sdk_c.Status.{
  jubr_not_connect_device, jubr_transmit_device_error, jubr_transact_timeout,
}
use jubiter_sdk_c.Fido.{Fido, receiving, clear, check_response}
use jubiter_sdk_c.Fido.Packets.{packets}
use jubiter_sdk_c.Fido.Receive.{recv_all}
use jubiter_sdk_c.Fido.RoundTrip.{recv_all-early}
use jubiter_sdk_c.Fido.Prefix.{prefix-Pending, check_response-Pending}
use jubiter_sdk_c.Device.Ble.{
  Event, packet, gone, found, BleApi, BleDevice, send_data, receive, read_response, call_backs,
  call_back, ble_disc_call_back, wait_for,
}
use jubiter_sdk_c.Device.Ble.Waiting.{wait_for-quiet}
use jubiter_sdk_c.Device.Ble.Exchange.{Sends, waiting_state, waiting-Awaiting, send_data-receive}

-- The end of `SendData` behind the wait.
after_wait : {W : Type 0} → Bool → ℕ → Bool × BleDevice W → Outcome (Option (List ℕ)) × BleDevice W
after_wait android room (timed_out, d') =
    if not d'.connected
    then (fail jubr_not_connect_device, d')
    else if timed_out
    then (fail jubr_transact_timeout, d')
    else (let (result, f) = read_response android (some room) d'.fido in
        (result, record d' { fido = f }))

module _ {W : Type 0} (api : BleApi W) (android mine : Bool) where
  -- What `SendData` returns, with the handle and the connection that it leaves.
  gone_state :
      (msg answer : List ℕ) (j : ℕ) (rest : List Event) (timeout room : ℕ) (d : BleDevice W) (w : W)
      → Sends api msg d w
      → api.early w ≡ []
      → api.late timeout w ≡ map packet (take j (packets 0x83 answer)) ++ gone ∷ rest
      → length answer ≤ 2449
      → j < length (packets 0x83 answer)
      → send_data api android (found mine) msg timeout (some room) d
        ≡ after_wait android room (
            wait_for (found mine) (gone ∷ rest) (record d {
              fido = recv_all (waiting_state d.fido) (take j (packets 0x83 answer));
              world = w;
            }))
  unfolding receive call_backs after_wait
  gone_state msg answer j rest timeout room d w s e l n h =
      let f : Fido = waiting_state d.fido in
      let before : BleDevice W = record d { fido = f; world = w } in
      let a = waiting-Awaiting d.fido in
      let quiet =
        wait_for-quiet mine (packets 0x83 answer) j (gone ∷ rest) before
          (λ i g. recv_all-early f answer i a n (omega arith)) in
      rw (send_data-receive api android mine msg timeout room d w s, e, l, quiet) refl

read_receiving :
    (android : Bool) (room : ℕ) (f : Fido)
    → (check_response f).0 ≡ receiving
    → (read_response android (some room) f).0 ≡ fail jubr_transact_timeout
unfolding read_response
read_receiving android room f e = rw (read_response, e) refl

-- What is made of `j` packets of an answer.
read_some :
    (android : Bool) (room j : ℕ) (f : Fido) (answer : List ℕ)
    → length answer ≤ 2449
    → j < length (packets 0x83 answer)
    → let t = recv_all (waiting_state f) (take j (packets 0x83 answer)) in
      (read_response android (some room) (record t { notified = true })).0
      ≡ fail (if j == 0 then jubr_transmit_device_error else jubr_transact_timeout)
unfolding clear recv_all read_response check_response
read_some android room zero f answer n h = refl
read_some android room (suc i) f answer n h =
    let t : Fido = recv_all (waiting_state f) (take (suc i) (packets 0x83 answer)) in
    let (left, more, xs, p) = prefix-Pending (waiting_state f) answer i (waiting-Awaiting f) n h in
    let some_in : (suc i == 0) ≡ false = ground arith in
    rw some_in (
      read_receiving android room (record t { notified = true })
        (check_response-Pending t (length answer) i left more xs t.has_error true p))

module _ {W : Type 0} where
  -- What `SendData` leaves where the device is gone, and the callback finds the device in use or not.
  unfoldable pub Left : Bool → ℕ → BleDevice W → Outcome (Option (List ℕ)) × BleDevice W → Type 0
  Left true j d (result, d') =
      (result ≡ fail jubr_not_connect_device) × (d'.handle ≡ 0) × (d'.connected ≡ false)
  Left false j d (result, d') =
      (result ≡ fail (if j == 0 then jubr_transmit_device_error else jubr_transact_timeout))
      × (d'.handle ≡ d.handle)
      × (d'.connected ≡ true)

  after_gone :
      (android mine : Bool) (answer : List ℕ) (j : ℕ) (rest : List Event) (room : ℕ)
      (d : BleDevice W) (w : W)
      → d.connected ≡ true
      → length answer ≤ 2449
      → j < length (packets 0x83 answer)
      → Left mine j d (
          after_wait android room (
            wait_for (found mine) (gone ∷ rest) (record d {
              fido = recv_all (waiting_state d.fido) (take j (packets 0x83 answer));
              world = w;
            })))
  unfolding Left after_wait wait_for call_back ble_disc_call_back
  after_gone android true answer j rest room d w c n h = (refl, refl, refl)
  after_gone android false answer j rest room d w c n h =
      rw c (read_some android room j d.fido answer n h, refl, refl)

module _ {W : Type 0} (api : BleApi W) (android mine : Bool) where
  -- A message whose packets fit `sendMsg`, sent over a link that is up by a device that is connected,
  -- which goes while it waits and packets of an answer of at most 2449 bytes are missing. Where the
  -- callback finds the device in use, `SendData` returns `JUBR_NOT_CONNECT_DEVICE`, and the device is
  -- left not connected and with no handle. Where it finds another one, `SendData` returns
  -- `JUBR_TRANSMIT_DEVICE_ERROR` if no packet is in and else `JUBR_TRANSACT_TIMEOUT`, and the device in
  -- use keeps its handle and stays connected.
  pub send_data-gone :
      (msg answer : List ℕ) (j : ℕ) (rest : List Event) (timeout room : ℕ) (d : BleDevice W) (w : W)
      → Sends api msg d w
      → d.connected ≡ true
      → api.early w ≡ []
      → api.late timeout w ≡ map packet (take j (packets 0x83 answer)) ++ gone ∷ rest
      → length answer ≤ 2449
      → j < length (packets 0x83 answer)
      → Left mine j d (send_data api android (found mine) msg timeout (some room) d)
  send_data-gone msg answer j rest timeout room d w s c e l n h =
      rw (gone_state api android mine msg answer j rest timeout room d w s e l n h)
        (after_gone android mine answer j rest room d w c n h)
