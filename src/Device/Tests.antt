-- ===== src/Device/Tests.antt =====
-- HID and Bluetooth devices at concrete messages.
use jubiter_sdk_c.Common.{
  map, concat, ℕ, ◌≡◌, refl, inl, inr, true, false, Option, some, none, List, [], ◌∷◌, ◌++◌, ok,
  fail, slice, arith,
}
use jubiter_sdk_c.Status.{jubr_transmit_device_error, jubr_transact_timeout, jubr_buffer_too_small}
use jubiter_sdk_c.Fido.{check_response, done}
use jubiter_sdk_c.Fido.Packets.{packets, tails}
use jubiter_sdk_c.Device.Ble
use jubiter_sdk_c.Device.Ble.{Event, packet, gone, found, BleApi, BleDevice}
use jubiter_sdk_c.Device.Ble.Exchange.{Sends, send_data-packets, send_data-lost}
use jubiter_sdk_c.Device.Ble.Gone.{Left, send_data-gone}
use jubiter_sdk_c.Device.Ble.Link.{
  Call, connect_to, called_back, disconnected, IsLinked, run, run-IsLinked,
}
use jubiter_sdk_c.Device.Hid.{HidApi, HidDevice, write_report, send_data}
use jubiter_sdk_c.Device.Hid.Reports.{first_report, tail_reports}
use jubiter_sdk_c.Device.Hid.Sending.{write_all}
use jubiter_sdk_c.Device.Hid.Rounds.{Arrives}
use jubiter_sdk_c.Device.Hid.Receiving.{Reads}
use jubiter_sdk_c.Device.Hid.Exchange.{send_data-reports, send_data-too_small}
use jubiter_sdk_c.Device.Hid.Settled.{IsClosed}
use jubiter_sdk_c.Device.Hid.Closing.{Used, send_data-disconnected}

-- A device that keeps what is written to it, and gives what it holds ready.
abbrev next_read : List (List ℕ) × List (List ℕ) → Option (List ℕ) × (List (List ℕ) × List (List ℕ))
next_read (written, []) = (none, (written, []))
next_read (written, r ∷ rs) = (some r, (written, rs))

abbrev scripted : HidApi (List (List ℕ) × List (List ℕ))
scripted = record {
  hid_init = λ w. (true, w);
  hid_exit = λ w. (true, w);
  hid_open_path = λ _ w. (some 7, w);
  hid_close = λ _ w. w;
  hid_write = λ _ r w. (true, (w.0 ++ r ∷ [], w.1));
  hid_read = λ _ w. (true, w);
  hid_read_timeout = λ _ _ w. next_read w;
}

abbrev request : List ℕ
request = 0x80 ∷ 0xCB ∷ 0x80 ∷ 0x00 ∷ []

abbrev answer : List ℕ
answer = 0x20 ∷ 0x03 ∷ 0x90 ∷ 0x00 ∷ []

abbrev patience : List ℕ
patience = 0x00 ∷ 0x00 ∷ 0x00 ∷ 0x01 ∷ 0xBB ∷ 0x00 ∷ 0x01 ∷ []

abbrev ready : List (List ℕ)
ready = patience ∷ (first_report answer ++ 0x00 ∷ 0x00 ∷ []) ∷ []

abbrev device : HidDevice (List (List ℕ) × List (List ℕ))
device = record { handle = some 7; first_cmd = false; world = ([], ready) }

abbrev asked : List (List ℕ)
asked = (0x00 ∷ first_report request) ∷ []

send_data-reports_example :
    send_data scripted [] 2 request 256 1000 device
    ≡ (ok answer, record device { world = (asked, []) })
unfolding write_all Arrives Reads tail_reports write_report
send_data-reports_example =
    send_data-reports scripted [] 2 7 1000 256 request answer ready device (asked, ready)
      (asked, []) refl refl (omega arith) refl (inl (refl, inr (0x00 ∷ 0x00 ∷ [], refl, tt)))
      (refl, (refl, refl)) (omega arith) (omega arith) (omega arith)

abbrev hasty : HidDevice (List (List ℕ) × List (List ℕ))
hasty = record { handle = some 7; first_cmd = false; world = ([], first_report answer ∷ []) }

send_data-too_small_example :
    send_data scripted [] 1 request 3 1000 hasty
    ≡ (fail jubr_buffer_too_small, record hasty { world = (asked, []) })
unfolding write_all tail_reports write_report
send_data-too_small_example =
    send_data-too_small scripted [] 0 7 1000 3 request answer [] hasty
      (asked, first_report answer ∷ []) (asked, []) refl refl (omega arith) refl refl (omega arith)
      (omega arith)

-- The device takes the message and says nothing.
abbrev silent : HidDevice (List (List ℕ) × List (List ℕ))
silent = record { handle = none; first_cmd = true; world = ([], []) }

send_data-disconnected_example :
    (h : ℕ) × Used scripted [] 1 request 256 1000 silent h
    × IsClosed scripted h (send_data scripted [] 1 request 256 1000 silent).1
unfolding send_data slice
send_data-disconnected_example = send_data-disconnected scripted [] 1 request 256 1000 silent refl

-- A Bluetooth library that keeps what is sent, and calls back what is planned.
record Plan : Type 0 where
  sent : List (List ℕ)
  planned_early : List Event
  planned_late : List Event

abbrev planned : BleApi Plan
planned = record {
  ft_ble_conn_dev = λ _ _ _ w. ((0, 9), w);
  ft_ble_cancel_conn_dev = λ _ w. (0, w);
  ft_ble_dis_conn = λ _ w. (0, w);
  ft_ble_is_conn = λ _ w. 1;
  ft_ble_send_apdu = λ _ bytes w. (0, record w { sent = w.sent ++ bytes ∷ [] });
  early = λ w. w.planned_early;
  late = λ _ w. w.planned_late;
}

abbrev linked : List Event → List Event → BleDevice Plan
linked before during = record {
  handle = 9;
  connected = true;
  fido = record {
    m_recv_msg = [];
    cmd_header = 0;
    pkg_seq = 0;
    has_error = false;
    notified = false;
  };
  world = record { sent = []; planned_early = before; planned_late = during };
}

abbrev taken_by : List Event → List Event → Plan
taken_by before during = record {
  sent = concat (packets 0x83 request) ∷ [];
  planned_early = before;
  planned_late = during;
}

linked-Sends :
    (before during : List Event)
    → Sends planned request (linked before during) (taken_by before during)
unfolding tails
linked-Sends before during = record { opened = refl; up = refl; taken = refl; fits = omega arith }

abbrev answered : List Event
answered = map packet (packets 0x83 answer)

send_data-packets_example :
    let (result, d') =
      Ble.send_data planned true
        (found true)
        request
        1000
        (some 256)
        (linked [] (answered ++ gone ∷ [])) in
    (result ≡ ok (some answer)) × (d'.handle ≡ 9) × (d'.connected ≡ true)
send_data-packets_example =
    send_data-packets planned true true request answer (gone ∷ []) 1000 256
      (linked [] (answered ++ gone ∷ [])) (taken_by [] (answered ++ gone ∷ []))
      (linked-Sends [] (answered ++ gone ∷ [])) refl refl refl (omega arith) (omega arith)
      (omega arith)

send_data-lost_example :
    let (result, d') =
      Ble.send_data planned true (found true) request 1000 (some 256) (linked answered []) in
    (result ≡ fail jubr_transact_timeout) × ((check_response d'.fido).0 ≡ done)
send_data-lost_example =
    send_data-lost planned true true request answer 1000 256 (linked answered [])
      (taken_by answered []) (linked-Sends answered []) refl refl refl (omega arith) (omega arith)
      (omega arith)

-- A BIO is in use, and the callback finds the Blade.
send_data-gone_example :
    let (result, d') =
      Ble.send_data planned true (found false) request 1000 (some 256) (linked [] (gone ∷ [])) in
    (result ≡ fail jubr_transmit_device_error) × (d'.handle ≡ 9) × (d'.connected ≡ true)
unfolding Left
send_data-gone_example =
    send_data-gone planned true false request answer 0 [] 1000 256 (linked [] (gone ∷ []))
      (taken_by [] (gone ∷ [])) (linked-Sends [] (gone ∷ [])) refl refl refl (omega arith)
      (omega arith)

abbrev calls : List Call
calls = connect_to [] 1 5000 ∷ called_back (found true) gone ∷ disconnected ∷ []

run-IsLinked_example : IsLinked (run planned true calls (linked [] []))
unfolding IsLinked
run-IsLinked_example = run-IsLinked planned true calls (linked [] []) (inl refl)
