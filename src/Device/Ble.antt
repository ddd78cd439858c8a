-- ===== src/Device/Ble.antt =====
-- src/device/JubiterBLEDevice.cpp: a device on the Bluetooth link. The FT_BLE library is a parameter.
pub mod Waiting
pub mod Link
pub mod Exchange
pub mod Gone
use jubiter_sdk_c.Common.{
  ℕ, ◌+◌, Bool, true, false, not, ◌&&◌, Option, none, some, List, [], ◌∷◌, ◌==◌, if◌then◌else◌,
  length, replicate, Outcome, ok, fail, fault, stuck, after, ◌>>=◌,
}
use jubiter_sdk_c.Status.{
  jubr_not_connect_device, jubr_connect_device_error, jubr_transmit_device_error,
  jubr_transact_timeout, jubr_bt_bond_failed, jubr_impl_not_support,
}
use jubiter_sdk_c.Fido.{
  Fido, ResponseStatus, empty, receiving, done, invalid, clear, stop_receiving, check_response,
  recv_call_back, wrap_fido_apdu, parse_fido_apdu, cmd_msg,
}

abbrev pub ifd_success : ℕ
ifd_success = 0

abbrev pub ifd_no_device : ℕ
ifd_no_device = 615

abbrev pub bt_err_connect_fail : ℕ
bt_err_connect_fail = 0x8000008

abbrev pub bt_err_bond_fail : ℕ
bt_err_bond_fail = 0x8000010

abbrev pub ckr_ble_connect_fail : ℕ
ckr_ble_connect_fail = 0x81000003

abbrev pub ckr_ble_bond_fail : ℕ
ckr_ble_bond_fail = 0x81000004

abbrev pub send_msg_size : ℕ
send_msg_size = 2048

-- What the library calls back while `SendData` runs: bytes are read, or the device is gone.
pub data Event : Type 0 where
  packet : List ℕ → Event
  gone : Event

-- The FT_BLE library as the code calls it, with its results; `W` is its state. `ft_ble_conn_dev` gives
-- the handle that it leaves too. `early` lists what is called back from the call of
-- `FT_BLE_SendAPDU` until the wait begins, and `late` what is called back until its time is over.
pub record BleApi (W : Type 0) : Type 0 where
  pub ft_ble_conn_dev : List ℕ → ℕ → ℕ → W → (ℕ × ℕ) × W
  pub ft_ble_cancel_conn_dev : List ℕ → W → ℕ × W
  pub ft_ble_dis_conn : ℕ → W → ℕ × W
  pub ft_ble_is_conn : ℕ → W → ℕ
  pub ft_ble_send_apdu : ℕ → List ℕ → W → ℕ × W
  pub early : W → List Event
  pub late : ℕ → W → List Event

-- The fields that change, with the state of the packet protocol.
pub record BleDevice (W : Type 0) : Type 0 where
  pub handle : ℕ
  pub connected : Bool
  pub fido : Fido
  pub world : W

-- `MatchErrorCode`; `android` tells the two builds apart.
unfoldable pub match_error_code : Bool → ℕ → Outcome (Unit {0})
match_error_code true error =
    if error == 0
    then ok tt
    else if error == bt_err_connect_fail
    then fail jubr_connect_device_error
    else if error == bt_err_bond_fail
    then fail jubr_bt_bond_failed
    else fail jubr_transmit_device_error
match_error_code false error =
    if error == 0
    then ok tt
    else if error == ckr_ble_bond_fail
    then fail jubr_bt_bond_failed
    else if error == ckr_ble_connect_fail
    then fail jubr_connect_device_error
    else fail jubr_transmit_device_error

abbrev pub set_handle : {W : Type 0} → ℕ → BleDevice W → BleDevice W
set_handle h d = record d { handle = h }

abbrev pub set_connect_statute_false : {W : Type 0} → BleDevice W → BleDevice W
set_connect_statute_false d = record d { connected = false }

-- What `CreateProduct(BLE)` gives the two callbacks: no Bluetooth device, or the one device of the kind
-- Blade. The flag tells whether that is the device in use; it is another one where a BIO is in use.
pub data Given : Type 0 where
  nothing : Given
  found : Bool → Given

-- `BLE_DiscCallBack` and `BLE_ReadCallBack`, as the device in use sees them. The packet protocol is
-- one for all devices.
unfoldable pub ble_disc_call_back : {W : Type 0} → Given → BleDevice W → BleDevice W
ble_disc_call_back nothing d = d
ble_disc_call_back (found true) d =
    let d' = set_connect_statute_false (set_handle 0 d) in
    record d' { fido = stop_receiving d'.fido }
ble_disc_call_back (found false) d = record d { fido = stop_receiving d.fido }

unfoldable pub ble_read_call_back : {W : Type 0} → Given → List ℕ → BleDevice W → ℕ × BleDevice W
ble_read_call_back nothing bytes d = (ifd_no_device, d)
ble_read_call_back (found mine) bytes d =
    (ifd_success, record d { fido = recv_call_back d.fido bytes })

unfoldable pub call_back : {W : Type 0} → Given → Event → BleDevice W → BleDevice W
unfolding ble_disc_call_back ble_read_call_back
call_back given (packet bytes) d = (ble_read_call_back given bytes d).1
call_back given gone d = ble_disc_call_back given d

unfoldable pub call_backs : {W : Type 0} → Given → List Event → BleDevice W → BleDevice W
unfolding call_back
call_backs given [] d = d
call_backs given (e ∷ es) d = call_backs given es (call_back given e d)

-- `waitForReceive`: whether the wait timed out. It ends with the first `notify_one` that comes while
-- it lasts.
unfoldable pub wait_for : {W : Type 0} → Given → List Event → BleDevice W → Bool × BleDevice W
unfolding call_back
wait_for given [] d = (true, d)
wait_for given (e ∷ es) d =
    let d' = call_back given e d in
    elim d'.fido.notified [ true ↦ (false, d') | false ↦ wait_for given es d' ]

-- A notification before the wait is lost.
abbrev pub nobody_told : {W : Type 0} → BleDevice W → BleDevice W
nobody_told d = let f = d.fido in record d { fido = record f { notified = false } }

-- What `SendData` returns of the result of `parseFidoApdu`.
unfoldable pub parsed : Bool → Outcome (List ℕ) → Outcome (Option (List ℕ))
unfolding match_error_code
parsed android (ok bytes) = ok (some bytes)
parsed android (fail e) = match_error_code android e >>= λ _. ok none
parsed android fault = fault
parsed android stuck = stuck

-- The end of `SendData`: what is made of the packets. A destination is `none` for a null pointer,
-- and nothing is written then.
unfoldable pub read_response : Bool → Option ℕ → Fido → Outcome (Option (List ℕ)) × Fido
unfolding parsed
read_response android dest f =
    let (status, f') = check_response f in
    elim status [
      | empty ↦ (fail jubr_transmit_device_error, f')
      | invalid ↦ (fail jubr_transmit_device_error, f')
      | receiving ↦ (fail jubr_transact_timeout, f')
      | done ↦ elim dest [
        | none ↦ (ok none, f')
        | some room ↦ (parsed android (parse_fido_apdu f'.m_recv_msg (some room)), f')
      ]
    ]

module _ {W : Type 0} (api : BleApi W) where
  -- `Disconnect()`.
  unfoldable pub disconnect : BleDevice W → Outcome (Unit {0}) × BleDevice W
  disconnect d =
      let (ret, w) = api.ft_ble_dis_conn d.handle d.world in
      (
        ok tt,
        if d.handle == 0
            then d
            else if ret == ifd_success
            then record d { handle = 0; world = w }
            else record d { world = w },
      )

  unfoldable pub is_connect : ℕ → BleDevice W → Outcome (Unit {0})
  is_connect h d =
      if api.ft_ble_is_conn h d.world == 0 then fail jubr_connect_device_error else ok tt

module _ {W : Type 0} (api : BleApi W) (android : Bool) where
  -- `Connect` of a device; the library is told its UUID.
  unfoldable pub connect : List ℕ → ℕ → ℕ → BleDevice W → Outcome (Unit {0}) × BleDevice W
  unfolding match_error_code
  connect uuid connect_type timeout d =
      let (ret, w) = api.ft_ble_conn_dev uuid connect_type timeout d.world in
      (
        match_error_code android ret.0,
        if ret.0 == ifd_success
            then record d { handle = ret.1; connected = true; world = w }
            else record d { world = w },
      )

  unfoldable pub cancel_connect : List ℕ → BleDevice W → Outcome (Unit {0}) × BleDevice W
  unfolding match_error_code
  cancel_connect uuid d =
      let (ret, w) = api.ft_ble_cancel_conn_dev uuid d.world in
      (match_error_code android ret, record d { handle = 0; connected = false; world = w })

  -- `Disconnect(handle)`.
  unfoldable pub disconnect_handle : ℕ → BleDevice W → Outcome (Unit {0}) × BleDevice W
  unfolding match_error_code
  disconnect_handle h d =
      let (ret, w) = api.ft_ble_dis_conn h d.world in
      (
        match_error_code android ret,
        if ret == ifd_success
            then record d { handle = 0; connected = false; world = w }
            else record d { world = w },
      )

module _ {W : Type 0} (api : BleApi W) (android : Bool) (given : Given) where
  -- The wait, and the tests behind it.
  unfoldable pub receive : ℕ → Option ℕ → BleDevice W → Outcome (Option (List ℕ)) × BleDevice W
  unfolding call_backs wait_for read_response
  receive timeout dest d =
      let before = nobody_told (call_backs given (api.early d.world) d) in
      let (timed_out, d') = wait_for given (api.late timeout d.world) before in
      if not d'.connected
      then (fail jubr_not_connect_device, d')
      else if timed_out
      then (fail jubr_transact_timeout, d')
      else (let (result, f) = read_response android dest d'.fido in
          (result, record d' { fido = f }))

  -- `FT_BLE_SendAPDU` of the wrapped message, and what follows.
  unfoldable pub transmit :
      List ℕ → ℕ → Option ℕ → BleDevice W → Outcome (Option (List ℕ)) × BleDevice W
  unfolding match_error_code receive
  transmit send_msg timeout dest d =
      let (ret, w) = api.ft_ble_send_apdu d.handle send_msg d.world in
      after (match_error_code android ret, record d { world = w }) (λ _ d'. receive timeout dest d')

  -- What is sent of what `wrapFidoApdu` left in `sendMsg`; its result is not looked at.
  unfoldable pub send_wrapped :
      ℕ → Option ℕ → BleDevice W → Fido × Outcome (List ℕ) → Outcome (Option (List ℕ)) × BleDevice W
  unfolding transmit
  send_wrapped timeout dest d (f, ok send_msg) =
      transmit send_msg timeout dest (record d { fido = f })
  send_wrapped timeout dest d (f, fail e) =
      transmit (replicate send_msg_size 0) timeout dest (record d { fido = f })
  send_wrapped timeout dest d (f, fault) = (fault, record d { fido = f })
  send_wrapped timeout dest d (f, stuck) = (stuck, record d { fido = f })

  -- `SendData`.
  unfoldable pub send_data :
      List ℕ → ℕ → Option ℕ → BleDevice W → Outcome (Option (List ℕ)) × BleDevice W
  unfolding send_wrapped
  send_data msg timeout dest d =
      if d.handle == 0
      then (fail jubr_not_connect_device, d)
      else if api.ft_ble_is_conn d.handle d.world == 0
      then (fail jubr_not_connect_device, d)
      else send_wrapped timeout dest d
          (wrap_fido_apdu (clear d.fido) cmd_msg msg (some send_msg_size))
