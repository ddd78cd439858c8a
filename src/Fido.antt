-- ===== src/Fido.antt =====
-- The packet protocol on the Bluetooth link: src/device/Fido.cpp and include/device/Fido.h.
pub mod Packets
pub mod Wrap
pub mod Unwrap
pub mod Receive
pub mod RoundTrip
pub mod Prefix
pub mod Sequence
mod Tests
use jubiter_sdk_c.Common.{
  ℕ, zero, suc, ◌+◌, ◌-◌, ◌*◌, ◌/◌, ◌%◌, ◌^◌, Bool, true, false, not, ◌&&◌, ◌||◌, Option, none,
  some, List, [], ◌∷◌, ◌++◌, ltb, leb, ◌==◌, if◌then◌else◌, length, get_elem?, take, slice, Outcome,
  ok, fail, fault, stuck, ◌>>=◌, ◌>>◌, check, within, or_fault,
}
use jubiter_sdk_c.Status.{jubr_arguments_bad}
use Prim.Native.Nat.{bit_or}

abbrev pub cmd_keep_alive : ℕ
cmd_keep_alive = 0x82

abbrev pub cmd_msg : ℕ
cmd_msg = 0x83

abbrev pub cmd_error : ℕ
cmd_error = 0xBF

abbrev pub fido_header_len : ℕ
fido_header_len = 3

abbrev pub fido_data_block_size : ℕ
fido_data_block_size = 19

abbrev pub fido_block_size : ℕ
fido_block_size = 20

-- The fields of the singleton. `notified` records that `waiter.notify_one` was called.
pub record Fido : Type 0 where
  pub m_recv_msg : List ℕ
  pub cmd_header : ℕ
  pub pkg_seq : ℕ
  pub has_error : Bool
  pub notified : Bool

pub data ResponseStatus : Type 0 where
  empty receiving done invalid : ResponseStatus

unfoldable pub clear : Fido → Fido
clear f = record f { m_recv_msg = []; cmd_header = 0; pkg_seq = 0; has_error = false }

abbrev pub stop_receiving : Fido → Fido
stop_receiving f = record f { notified = true }

-- `CTOI` of the two bytes of a length.
abbrev pub ctoi : ℕ → ℕ → ℕ
ctoi hi lo = bit_or (hi * 0x100) lo

-- How many continuation packets a message of `recv_len` bytes has.
abbrev pub f_len : ℕ → ℕ
f_len recv_len =
    if ltb 17 recv_len
    then (if ltb 0 ((recv_len - 17) % 19) then (recv_len - 17) / 19 + 1 else (recv_len - 17) / 19)
    else 0

-- `checkResponse` past its test of the size: the first three bytes are there.
check_header : Fido → List ℕ → ResponseStatus × Fido
check_header f (b0 ∷ b1 ∷ b2 ∷ rest) =
    if b0 == f.cmd_header
    then (if leb (ctoi b1 b2 + fido_header_len + f_len (ctoi b1 b2)) (length f.m_recv_msg)
        then (done, f)
        else (receiving, f))
    else (invalid, record f { has_error = true })
check_header f _ = (invalid, f)

unfoldable pub check_response : Fido → ResponseStatus × Fido
unfolding check_header
check_response f =
    if length f.m_recv_msg == 0
    then (empty, f)
    else if leb (length f.m_recv_msg) fido_header_len
    then (invalid, f)
    else check_header f f.m_recv_msg

-- The test that `CHECK_SEQ` makes of a continuation packet's first byte.
abbrev pub seq_ok : ℕ → ℕ → Bool
seq_ok x seq = (x == 0 && x == seq) || (x == seq + 1 && (ltb 0 x && leb x 0x7F))

-- `notify_one` unless more packets are awaited.
notify_by : ResponseStatus → Fido → Fido
notify_by empty f = f
notify_by receiving f = f
notify_by done f = stop_receiving f
notify_by invalid f = stop_receiving f

-- The last part of `RecvCallBack`: merge the packet, and look whether the message is whole.
unfoldable pub merge_package : Fido → List ℕ → Fido
unfolding check_response notify_by
merge_package f packet =
    let (status, f') = check_response (record f { m_recv_msg = f.m_recv_msg ++ packet }) in
    notify_by status f'

-- `RecvCallBack`; no bytes stand for a null pointer too.
unfoldable pub recv_call_back : Fido → List ℕ → Fido
recv_call_back f [] = f
recv_call_back f (b ∷ bs) =
    if f.has_error
    then f
    else if b == cmd_keep_alive
    then f
    else if b == cmd_error
    then stop_receiving f
    else if ltb 0 (length f.m_recv_msg)
    then (if seq_ok b f.pkg_seq
        then merge_package (record f { pkg_seq = b }) (b ∷ bs)
        else stop_receiving (record f { has_error = true }))
    else merge_package f (b ∷ bs)

-- `basicApduAddHeadAndLength`. A destination is `none` for a null pointer, or its capacity.
unfoldable pub basic_apdu_add_head_and_length : ℕ → List ℕ → Option ℕ → Outcome (List ℕ)
basic_apdu_add_head_and_length header msg none = fail jubr_arguments_bad
basic_apdu_add_head_and_length header msg (some room) = do
  let framed = header ∷ length msg / 2 ^ 8 % 2 ^ 8 ∷ length msg % 2 ^ 8 ∷ msg
  within (leb (length framed) room)
  ok framed

-- Where the block that starts at `start` ends in a message of `len` bytes.
unfoldable pub block_end : ℕ → ℕ → ℕ
block_end start len =
    if ltb len (start + fido_data_block_size) then len else start + fido_data_block_size

-- The loop of `wrapFidoApdu`: an index byte and up to 19 bytes a round.
unfoldable pub wrap_loop : ℕ → ℕ → ℕ → List ℕ → List ℕ → Outcome (List ℕ)
wrap_loop zero f_index send_msg_index cmd msg = stuck
wrap_loop (suc fuel) f_index send_msg_index cmd msg = do
  block ← or_fault (slice send_msg_index (block_end send_msg_index (length msg)) msg)
  let cmd' = cmd ++ (f_index % 2 ^ 8 ∷ block)
  let more = wrap_loop fuel (f_index + 1) (send_msg_index + fido_data_block_size) cmd' msg
  if leb (length msg) (send_msg_index + fido_data_block_size) then ok cmd' else more

-- The body of `wrapFidoApdu`: what stands in the destination.
unfoldable pub wrap_message : ℕ → List ℕ → ℕ → Outcome (List ℕ)
wrap_message header msg room = do
  whole ← basic_apdu_add_head_and_length header msg (some room)
  if leb (length whole) fido_block_size then ok whole else (do
    cmd ← wrap_loop (length msg) 0 17 (take fido_block_size whole) msg
    within (leb (length cmd) room)
    ok cmd)

-- `wrapFidoApdu`: the new state and the result.
unfoldable pub wrap_fido_apdu : Fido → ℕ → List ℕ → Option ℕ → Fido × Outcome (List ℕ)
wrap_fido_apdu f header msg none = (f, fail jubr_arguments_bad)
wrap_fido_apdu f header msg (some room) =
    (record f { cmd_header = header }, wrap_message header msg room)

-- The loop of `removePkgIndex`: skip an index byte, copy up to 19 bytes.
unfoldable pub remove_loop : ℕ → ℕ → List ℕ → List ℕ → Outcome (List ℕ)
remove_loop zero remove_index temp msg = stuck
remove_loop (suc fuel) remove_index temp msg = do
  let start = remove_index + 1
  let end_index = block_end start (length msg)
  block ← or_fault (slice start end_index msg)
  let more = remove_loop fuel end_index (temp ++ block) msg
  if end_index == length msg then ok (temp ++ block) else more

-- `removePkgIndex` into a buffer of `room` bytes; the code does not test the capacity.
unfoldable pub remove_pkg_index : List ℕ → ℕ → Outcome (List ℕ)
remove_pkg_index msg room = do
  hi ← or_fault (get_elem? msg 1)
  lo ← or_fault (get_elem? msg 2)
  let recv_len = ctoi hi lo + fido_header_len
  if leb recv_len fido_block_size then (do within (leb (length msg) room); ok msg) else (do
    temp ← or_fault (slice 0 fido_block_size msg)
    temp' ← remove_loop (length msg) fido_block_size temp msg
    check (recv_len == length temp') jubr_arguments_bad
    within (leb (length temp') room)
    ok temp')

unfoldable pub remove_cmd_head_and_state_code : List ℕ → Option ℕ → Outcome (List ℕ)
remove_cmd_head_and_state_code msg none = fail jubr_arguments_bad
remove_cmd_head_and_state_code msg (some room) = do
  temp ← or_fault (slice fido_header_len (length msg) msg)
  within (leb (length temp) room)
  ok temp

abbrev pub temp_msg_size : ℕ
temp_msg_size = 512

unfoldable pub parse_fido_apdu : List ℕ → Option ℕ → Outcome (List ℕ)
unfolding remove_pkg_index remove_cmd_head_and_state_code
parse_fido_apdu msg none = fail jubr_arguments_bad
parse_fido_apdu msg (some room) = do
  temp ← remove_pkg_index msg temp_msg_size
  remove_cmd_head_and_state_code temp (some room)
