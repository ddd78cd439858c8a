-- ===== src/Device/Hid/Closing.antt =====
-- How `SendData` of a HID device ends when the transmission fails.
use jubiter_sdk_c.Common.{
  ℕ, ◌≡◌, refl, Bool, Option, true, false, some, none, List, ◌⊎◌, inl, inr, arith, Outcome, ok,
  fail, fault, stuck, after, ◌==◌,
}
use mathlib.Core.Path.{subst}
use jubiter_sdk_c.Status.{
  jubr_transmit_device_error, jubr_init_device_lib_error, jubr_connect_device_error,
}
use jubiter_sdk_c.Device.Hid.{HidApi, HidDevice, connect, exchange, send_with, send_data}
use jubiter_sdk_c.Device.Hid.Settled.{IsClosed, Settled, exchange-Settled}

module _ {W : Type 0} where
  -- A failure is none of the transmission.
  unfoldable OtherError : Outcome (Unit {0}) × HidDevice W → Type 0
  OtherError (fail e, d) = (e == jubr_transmit_device_error) ≡ false
  OtherError (ok u, d) = Unit {0}
  OtherError (fault, d) = Unit {0}
  OtherError (stuck, d) = Unit {0}

  connect_other :
      (ready : Bool) (opened : Option ℕ) (x y : HidDevice W) (z : ℕ → HidDevice W)
      → OtherError (elim ready [
        | false ↦ (fail jubr_init_device_lib_error, x)
        | true ↦ elim opened [ none ↦ (fail jubr_connect_device_error, y) | some h ↦ (ok tt, z h) ]
      ])
  unfolding OtherError
  connect_other false opened x y z = refl
  connect_other true none x y z = refl
  connect_other true (some h) x y z = tt

module _ {W : Type 0} (api : HidApi W) (path : List ℕ) (fuel : ℕ) (msg : List ℕ)
    (room timeout : ℕ) where
  connect-OtherError : (d : HidDevice W) → OtherError (connect api path d)
  unfolding connect
  connect-OtherError d =
      let (ready, w) = api.hid_init d.world in
      let (opened, w') = api.hid_open_path path w in
      connect_other ready opened (record d { world = w }) (record d { handle = none; world = w' })
        (λ h. record d { handle = some h; world = w' })

  closed :
      (h : ℕ) (d : HidDevice W)
      → d.handle ≡ some h
      → (exchange api fuel h msg room timeout d).0 ≡ fail jubr_transmit_device_error
      → IsClosed api h (exchange api fuel h msg room timeout d).1
  unfolding Settled
  closed h d o e =
      let d' : HidDevice W = (exchange api fuel h msg room timeout d).1 in
      subst (λ (r : Outcome (List ℕ)). Settled api h (r, d')) e
        (exchange-Settled api h fuel msg room timeout d o)

  -- What is done with the handle behind `Connect`.
  with_handle : Option ℕ → HidDevice W → Outcome (List ℕ) × HidDevice W
  with_handle o d = elim o [ some h ↦ exchange api fuel h msg room timeout d | none ↦ (fault, d) ]

  closed_by :
      (o : Option ℕ) (d : HidDevice W)
      → d.handle ≡ o
      → (with_handle o d).0 ≡ fail jubr_transmit_device_error
      → (h : ℕ) × (d.handle ≡ some h) × IsClosed api h (with_handle o d).1
  unfolding with_handle
  closed_by none d o e = cc
  closed_by (some h) d o e = (h, o, closed h d o e)

  closed_after :
      (x : Outcome (Unit {0}) × HidDevice W)
      → OtherError x
      → (after x (λ _ d. with_handle d.handle d)).0 ≡ fail jubr_transmit_device_error
      → (h : ℕ) × (x.1.handle ≡ some h) × IsClosed api h (after x (λ _ d. with_handle d.handle d)).1
  unfolding OtherError
  closed_after (ok u, d) n e = closed_by d.handle d refl e
  closed_after (fail c, d) n e = let same : c ≡ jubr_transmit_device_error = cc in ground arith
  closed_after (fault, d) n e = cc
  closed_after (stuck, d) n e = cc

  -- The handle that `SendData` works with: the one that is open, or the one that `Connect` opens.
  unfoldable pub Used : HidDevice W → ℕ → Type 0
  Used d h = (d.handle ≡ some h) ⊎ ((d.handle ≡ none) × ((connect api path d).1.handle ≡ some h))

  closed_with :
      (o : Option ℕ) (d : HidDevice W)
      → d.handle ≡ o
      → (send_with api path fuel msg room timeout o d).0 ≡ fail jubr_transmit_device_error
      → (h : ℕ) × Used d h × IsClosed api h (send_with api path fuel msg room timeout o d).1
  unfolding send_with Used with_handle
  closed_with (some h) d o e = (h, inl o, closed h d o e)
  closed_with none d o e =
      let (h, opened, c) = closed_after (connect api path d) (connect-OtherError d) e in
      (h, inr (o, opened), c)

  -- For every library, device, message and number of reads: where `SendData` returns
  -- `JUBR_TRANSMIT_DEVICE_ERROR`, the last calls of the library were `hid_close` of the handle that was
  -- used, which was open or was opened first, and `hid_exit`; the device has no handle and its flag for
  -- the first command is cleared.
  pub send_data-disconnected :
      (d : HidDevice W)
      → (send_data api path fuel msg room timeout d).0 ≡ fail jubr_transmit_device_error
      → (h : ℕ) × Used d h × IsClosed api h (send_data api path fuel msg room timeout d).1
  unfolding send_data
  send_data-disconnected d e = closed_with d.handle d refl e
