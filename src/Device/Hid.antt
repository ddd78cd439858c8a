-- ===== src/Device/Hid.antt =====
-- src/device/JubiterHidDevice.cpp: messages in HID reports. hidapi is a parameter.
pub mod Reports
pub mod Sending
pub mod Rounds
pub mod Receiving
pub mod Exchange
pub mod Settled
pub mod Closing
use jubiter_sdk_c.Common.{
  ℕ, zero, suc, ◌+◌, ◌-◌, ◌*◌, ◌/◌, ◌%◌, ◌^◌, Bool, true, false, ◌&&◌, Option, none, some, List, [],
  ◌∷◌, ◌++◌, ltb, leb, ◌==◌, if◌then◌else◌, length, get_elem?, replicate, slice, Outcome, ok, fail,
  fault, stuck, after,
}
use jubiter_sdk_c.Status.{
  jubr_error, jubr_buffer_too_small, jubr_transmit_device_error, jubr_init_device_lib_error,
  jubr_connect_device_error,
}

abbrev pub hid_packet_size : ℕ
hid_packet_size = 65

abbrev pub hid_packet_head_frist : ℕ
hid_packet_head_frist = 8

abbrev pub hid_packet_head_round : ℕ
hid_packet_head_round = 6

abbrev pub hid_packet_rhead_frist : ℕ
hid_packet_rhead_frist = 7

abbrev pub hid_packet_rhead_round : ℕ
hid_packet_rhead_round = 5

abbrev pub hid_packet_gnu_size : ℕ
hid_packet_gnu_size = 64

abbrev pub fido2_wait_flag : ℕ
fido2_wait_flag = 0xBB

-- hidapi as the code calls it; `W` is the state of the library and of the devices behind it. A test
-- of a result is its truth: `hid_init` and `hid_exit` gave 0, and writing or reading gave no
-- negative number. A handle is a number, and `none` for a null pointer; `hid_read_timeout` gives the
-- bytes that it read, and `none` where its result is not positive.
pub record HidApi (W : Type 0) : Type 0 where
  pub hid_init : W → Bool × W
  pub hid_exit : W → Bool × W
  pub hid_open_path : List ℕ → W → Option ℕ × W
  pub hid_close : ℕ → W → W
  pub hid_write : ℕ → List ℕ → W → Bool × W
  pub hid_read : ℕ → W → Bool × W
  pub hid_read_timeout : ℕ → ℕ → W → Option (List ℕ) × W

-- The fields of the class that change, and the world that the calls act on.
pub record HidDevice (W : Type 0) : Type 0 where
  pub handle : Option ℕ
  pub first_cmd : Bool
  pub world : W

-- The fixed channel.
abbrev pub cid : List ℕ
cid = 0x00 ∷ 0x00 ∷ 0x00 ∷ 0x01 ∷ []

-- What a round of the loop that receives makes of a report.
pub data Progress : Type 0 where
  go_on : ℕ → List ℕ → Progress
  too_small : Progress
  whole : List ℕ → Progress
  outside : Progress

-- `buff`, zeroed before `hid_read_timeout` fills it.
abbrev pub zero_filled : List ℕ → List ℕ
zero_filled report = report ++ replicate (hid_packet_size - length report) 0

abbrev pub byte_at : List ℕ → ℕ → ℕ
byte_at buff i = elim (get_elem? buff i) [ none ↦ 0 | some b ↦ b ]

-- `res > 5 && buff[4] == FIDO2_WAIT_FLAG`.
abbrev pub is_wait : List ℕ → Bool
is_wait report = ltb 5 (length report) && (byte_at (zero_filled report) 4 == fido2_wait_flag)

-- How many of the bytes behind the head of `head` bytes belong to the message, of which `rest`
-- bytes are missing.
abbrev pub chunk : ℕ → ℕ → ℕ
chunk head rest = if ltb rest (hid_packet_gnu_size - head) then rest else hid_packet_gnu_size - head

-- The `memcpy` out of the report, and the test at the end of a round.
unfoldable pub absorb_chunk : ℕ → ℕ → List ℕ → List ℕ → Progress
absorb_chunk head size acc buff = elim (slice head (head + chunk head (size - length acc)) buff) [
  | none ↦ outside
  | some part ↦
      if leb size (length (acc ++ part)) then whole (acc ++ part) else go_on size (acc ++ part)
]

-- A round behind the loop over the wait reports: the size stands in the first report.
unfoldable pub absorb : ℕ → ℕ → List ℕ → List ℕ → Progress
unfolding absorb_chunk
absorb room size acc buff =
    let announced = byte_at buff 5 * 2 ^ 8 + byte_at buff 6 in
    if length acc == 0
    then (if ltb room announced
        then too_small
        else absorb_chunk hid_packet_rhead_frist announced acc buff)
    else absorb_chunk hid_packet_rhead_round size acc buff

-- The bytes of the report that is sent at `offset` of a message, behind its report number.
unfoldable pub report_head : ℕ → ℕ → List ℕ → List ℕ
report_head offset n_packets msg =
    if offset == 0
    then cid ++ 0x83 ∷ length msg / 2 ^ 8 % 2 ^ 8 ∷ length msg % 2 ^ 8 ∷ []
    else cid ++ n_packets % 2 ^ 8 ∷ []

-- How many bytes of the message it takes.
unfoldable pub report_size : ℕ → List ℕ → ℕ
report_size offset msg =
    if offset == 0
    then (if ltb (length msg) (hid_packet_size - hid_packet_head_frist)
        then length msg
        else hid_packet_size - hid_packet_head_frist)
    else (if ltb (length msg - offset) (hid_packet_size - hid_packet_head_round)
        then length msg - offset
        else hid_packet_size - hid_packet_head_round)

-- `nPackets++` stands in the branch of the reports behind the first.
abbrev pub next_packet : ℕ → ℕ → ℕ
next_packet offset n_packets = if offset == 0 then n_packets else n_packets + 1

module _ {W : Type 0} (api : HidApi W) (path : List ℕ) where
  unfoldable pub connect : HidDevice W → Outcome (Unit {0}) × HidDevice W
  connect d =
      let (ready, w) = api.hid_init d.world in
      let (opened, w') = api.hid_open_path path w in
      elim ready [
        | false ↦ (fail jubr_init_device_lib_error, record d { world = w })
        | true ↦ elim opened [
          | none ↦ (fail jubr_connect_device_error, record d { handle = none; world = w' })
          | some h ↦ (ok tt, record d { handle = some h; world = w' })
        ]
      ]

module _ {W : Type 0} (api : HidApi W) where
  -- What `Disconnect` does with an open handle.
  close : ℕ → HidDevice W → Outcome (Unit {0}) × HidDevice W
  close h d =
      let (left, w) = api.hid_exit (api.hid_close h d.world) in
      (
        if left then ok tt else fail jubr_error,
        record d { handle = none; first_cmd = false; world = w },
      )

  unfoldable pub disconnect : HidDevice W → Outcome (Unit {0}) × HidDevice W
  unfolding close
  disconnect d = elim d.handle [
    | none ↦ (ok tt, record d { first_cmd = false })
    | some h ↦ close h d
  ]

  -- `Disconnect(); return JUBR_TRANSMIT_DEVICE_ERROR;`
  unfoldable pub give_up : {A : Type 0} → HidDevice W → Outcome A × HidDevice W
  unfolding disconnect
  give_up d = (fail jubr_transmit_device_error, (disconnect d).1)

  -- `_Write` and the test of its result.
  unfoldable pub write_report : ℕ → List ℕ → HidDevice W → Outcome (Unit {0}) × HidDevice W
  unfolding give_up
  write_report h report d =
      let (sent, w) = api.hid_write h report d.world in
      let d' = record d { world = w } in if sent then (ok tt, d') else give_up d'

  -- `_Read` and the test of its result; the bytes are not looked at.
  unfoldable pub read_report : ℕ → HidDevice W → Outcome (Unit {0}) × HidDevice W
  unfolding give_up
  read_report h d =
      let (received, w) = api.hid_read h d.world in
      let d' = record d { world = w } in if received then (ok tt, d') else give_up d'

  -- The initialisation report in front of the first message.
  unfoldable pub first_command : ℕ → HidDevice W → Outcome (Unit {0}) × HidDevice W
  unfolding write_report read_report
  first_command h d =
      if d.first_cmd
      then after
          (write_report h (0x00 ∷ cid ++ 0x86 ∷ 0x00 ∷ 0x00 ∷ []) (record d { first_cmd = false }))
          (λ _ d'. read_report h d')
      else (ok tt, d)

  -- The loop that sends: a report a round. No more rounds than bytes are needed.
  unfoldable pub send_loop : ℕ → ℕ → ℕ → ℕ → List ℕ → HidDevice W → Outcome (Unit {0}) × HidDevice W
  unfolding write_report report_head report_size
  send_loop zero h offset n_packets msg d = (stuck, d)
  send_loop (suc fuel) h offset n_packets msg d = elim (ltb offset (length msg)) [
    | false ↦ (ok tt, d)
    | true ↦ elim (slice offset (offset + report_size offset msg) msg) [
      | none ↦ (fault, d)
      | some part ↦
          after (write_report h (0x00 ∷ report_head offset n_packets msg ++ part) d) (λ _ d'.
            send_loop fuel h (offset + report_size offset msg) (next_packet offset n_packets) msg
              d')
    ]
  ]

  -- The loop that receives, on fuel: the device may ask for patience as often as it likes.
  unfoldable pub receive_loop :
      ℕ → ℕ → ℕ → ℕ → ℕ → List ℕ → HidDevice W → Outcome (List ℕ) × HidDevice W
  unfolding give_up absorb
  receive_loop zero h timeout room size acc d = (stuck, d)
  receive_loop (suc fuel) h timeout room size acc d =
      let (got, w) = api.hid_read_timeout h timeout d.world in
      let d' = record d { world = w } in
      elim got [
        | none ↦ give_up d'
        | some report ↦ elim (is_wait report) [
          | true ↦ receive_loop fuel h timeout room size acc d'
          | false ↦ elim (absorb room size acc (zero_filled report)) [
            | outside ↦ (fault, d')
            | too_small ↦ (fail jubr_buffer_too_small, d')
            | whole bytes ↦ (ok bytes, d')
            | go_on size' acc' ↦ receive_loop fuel h timeout room size' acc' d'
          ]
        ]
      ]

  -- `SendData` with an open handle.
  unfoldable pub exchange : ℕ → ℕ → List ℕ → ℕ → ℕ → HidDevice W → Outcome (List ℕ) × HidDevice W
  unfolding first_command send_loop receive_loop
  exchange fuel h msg room timeout d = after (first_command h d) (λ _ d1.
      after (send_loop (suc (length msg)) h 0 0 msg d1)
        (λ _ d2. receive_loop fuel h timeout room 0 [] d2))

module _ {W : Type 0} (api : HidApi W) (path : List ℕ) (fuel : ℕ) (msg : List ℕ)
    (room timeout : ℕ) where
  -- What `SendData` does with the handle that it finds.
  unfoldable pub send_with : Option ℕ → HidDevice W → Outcome (List ℕ) × HidDevice W
  unfolding connect exchange
  send_with (some h) d = exchange api fuel h msg room timeout d
  send_with none d = after (connect api path d) (λ _ d'. elim d'.handle [
    | some h ↦ exchange api fuel h msg room timeout d'
    | none ↦ (fault, d')
  ])

  -- `SendData` into a buffer of `room` bytes.
  unfoldable pub send_data : HidDevice W → Outcome (List ℕ) × HidDevice W
  unfolding send_with
  send_data d = send_with d.handle d
