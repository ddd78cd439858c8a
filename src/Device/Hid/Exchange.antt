-- ===== src/Device/Hid/Exchange.antt =====
-- A whole call of `SendData` on a HID device.
use jubiter_sdk_c.Common.{
  ℕ, suc, ◌+◌, ◌^◌, ◌≤◌, ◌<◌, ◌≡◌, ap, ◌∙◌, Option, false, some, List, [], ◌++◌, length, ok, fail,
  lt→ltb, ◌*◌, ◌/◌, ◌%◌, arith,
}
use jubiter_sdk_c.Status.{jubr_buffer_too_small}
use jubiter_sdk_c.Device.Hid.{
  HidApi, HidDevice, too_small, first_command, receive_loop, exchange, send_with, send_data,
  is_wait, absorb, zero_filled,
}
use jubiter_sdk_c.Device.Hid.Reports.{reports, first_report}
use jubiter_sdk_c.Device.Hid.Sending.{write_all, send_loop-reports}
use jubiter_sdk_c.Device.Hid.Rounds.{Arrives}
use jubiter_sdk_c.Device.Hid.Receiving.{Reads, receive_loop-reports}

module _ {W : Type 0} (api : HidApi W) where
  initialised : (h : ℕ) (d : HidDevice W) → d.first_cmd ≡ false → first_command api h d ≡ (ok tt, d)
  unfolding first_command
  initialised h d e = simp e

  exchange-reports :
      (fuel h timeout room : ℕ) (msg : List ℕ) (d : HidDevice W) (w : W)
      → d.first_cmd ≡ false
      → 0 < length msg
      → write_all api h (reports msg) d ≡ (ok tt, record d { world = w })
      → exchange api fuel h msg room timeout d
        ≡ receive_loop api fuel h timeout room 0 [] (record d { world = w })
  unfolding exchange
  exchange-reports fuel h timeout room msg d w init m sent =
      rw (initialised h d init, send_loop-reports api h msg d m, sent)

  -- On a device that is open and was initialised, a message of at least one byte of which every
  -- report is written, and an answer of at most 11090 bytes that fits the buffer and whose reports are
  -- read in order with any number of wait reports in between: `SendData` returns the answer, writes
  -- and reads nothing else, and the device stays open.
  pub send_data-reports :
      (path : List ℕ) (fuel h timeout room : ℕ) (msg answer : List ℕ) (rs : List (List ℕ))
      (d : HidDevice W) (w w' : W)
      → d.handle ≡ some h
      → d.first_cmd ≡ false
      → 0 < length msg
      → write_all api h (reports msg) d ≡ (ok tt, record d { world = w })
      → Arrives (reports answer) rs
      → Reads api h timeout rs w w'
      → length answer ≤ room
      → length answer ≤ 11090
      → length rs ≤ fuel
      → send_data api path fuel msg room timeout d ≡ (ok answer, record d { world = w' })
  unfolding send_data send_with
  send_data-reports path fuel h timeout room msg answer rs d w w' open_ init m sent a q l n g =
      ap (λ (o : Option ℕ). send_with api path fuel msg room timeout o d) open_
      ∙ exchange-reports fuel h timeout room msg d w init m sent
      ∙ receive_loop-reports api h timeout room fuel answer rs (record d { world = w }) w' a q l n g

  too_small_lem :
      (room : ℕ) (answer fill : List ℕ)
      → room < length answer
      → length answer < 2 ^ 16
      → (is_wait (first_report answer ++ fill) ≡ false)
        × (absorb room 0 [] (zero_filled (first_report answer ++ fill)) ≡ too_small)
  unfolding absorb
  too_small_lem room answer fill h l =
      let size : length answer / 2 ^ 8 % 2 ^ 8 * 2 ^ 8 + length answer % 2 ^ 8 ≡ length answer =
        omega arith in
      (ground arith, rw (size, lt→ltb room (length answer) h))

  -- As above, but the answer is longer than the buffer and of less than 2 ^ 16 bytes: `SendData`
  -- returns `JUBR_BUFFER_TOO_SMALL` as soon as its first report is read. The device stays open, and
  -- the reports behind the first are still to be read.
  pub send_data-too_small :
      (path : List ℕ) (fuel h timeout room : ℕ) (msg answer fill : List ℕ) (d : HidDevice W)
      (w w' : W)
      → d.handle ≡ some h
      → d.first_cmd ≡ false
      → 0 < length msg
      → write_all api h (reports msg) d ≡ (ok tt, record d { world = w })
      → api.hid_read_timeout h timeout w ≡ (some (first_report answer ++ fill), w')
      → room < length answer
      → length answer < 2 ^ 16
      → send_data api path (suc fuel) msg room timeout d
        ≡ (fail jubr_buffer_too_small, record d { world = w' })
  unfolding send_data send_with receive_loop
  send_data-too_small path fuel h timeout room msg answer fill d w w' open_ init m sent got l n =
      let lem = too_small_lem room answer fill l n in
      ap (λ (o : Option ℕ). send_with api path (suc fuel) msg room timeout o d) open_
      ∙ exchange-reports (suc fuel) h timeout room msg d w init m sent
      ∙ rw (receive_loop, got, lem.0, lem.1)
          (ap (λ (g : Option (List ℕ) × W). (fail jubr_buffer_too_small, record d { world = g.1 }))
            got)
