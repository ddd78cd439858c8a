-- ===== src/Device/Ble/Link.antt =====
-- The connection that a Bluetooth device keeps.
use jubiter_sdk_c.Common.{
  ℕ, ◌≡◌, refl, Bool, true, false, inl, inr, List, [], ◌∷◌, if◌then◌else◌, ◌⊎◌,
}
use jubiter_sdk_c.Device.Ble.{
  Given, nothing, found, Event, packet, gone, BleApi, BleDevice, connect, cancel_connect,
  disconnect_handle, disconnect, call_back, ble_disc_call_back, ble_read_call_back,
}

-- The calls that change the connection, and the library's own calls.
pub data Call : Type 0 where
  connect_to : List ℕ → ℕ → ℕ → Call
  cancel_connect_to : List ℕ → Call
  disconnect_from : ℕ → Call
  disconnected : Call
  called_back : Given → Event → Call

-- A device that is not connected has no handle.
unfoldable pub IsLinked : {W : Type 0} → BleDevice W → Type 0
IsLinked d = (d.connected ≡ true) ⊎ (d.handle ≡ 0)

module _ {W : Type 0} (api : BleApi W) (android : Bool) where
  unfoldable pub step : Call → BleDevice W → BleDevice W
  unfolding connect cancel_connect disconnect_handle disconnect call_back
  step (connect_to uuid connect_type timeout) d =
      (connect api android uuid connect_type timeout d).1
  step (cancel_connect_to uuid) d = (cancel_connect api android uuid d).1
  step (disconnect_from h) d = (disconnect_handle api android h d).1
  step disconnected d = (disconnect api d).1
  step (called_back given e) d = call_back given e d

  unfoldable pub run : List Call → BleDevice W → BleDevice W
  run [] d = d
  run (c ∷ cs) d = run cs (step c d)

  either : (b : Bool) (x y : BleDevice W) → IsLinked x → IsLinked y → IsLinked (if b then x else y)
  either true x y p q = p
  either false x y p q = q

  step-IsLinked : (c : Call) (d : BleDevice W) → IsLinked d → IsLinked (step c d)
  unfolding step connect cancel_connect disconnect_handle disconnect call_back ble_disc_call_back
      ble_read_call_back IsLinked
  step-IsLinked (connect_to uuid t timeout) d h = either _ _ _ (inl refl) h
  step-IsLinked (cancel_connect_to uuid) d h = inr refl
  step-IsLinked (disconnect_from k) d h = either _ _ _ (inr refl) h
  step-IsLinked disconnected d h = either _ _ _ h (either _ _ _ (inr refl) h)
  step-IsLinked (called_back nothing (packet bytes)) d h = h
  step-IsLinked (called_back (found mine) (packet bytes)) d h = h
  step-IsLinked (called_back nothing gone) d h = h
  step-IsLinked (called_back (found true) gone) d h = inr refl
  step-IsLinked (called_back (found false) gone) d h = h

  -- Whatever calls the client and the library make, in any order, from a device that is connected or
  -- has no handle: it stays so. A device that is not connected keeps no handle to send to.
  pub run-IsLinked : (cs : List Call) (d : BleDevice W) → IsLinked d → IsLinked (run cs d)
  unfolding run
  run-IsLinked [] d h = h
  run-IsLinked (c ∷ cs) d h = run-IsLinked cs (step c d) (step-IsLinked c d h)
