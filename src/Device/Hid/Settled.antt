-- ===== src/Device/Hid/Settled.antt =====
-- What an exchange of a HID device leaves: an open handle, or one that was closed.
use jubiter_sdk_c.Common.{
  ℕ, zero, suc, ◌+◌, ◌≡◌, refl, Bool, Option, true, false, some, none, List, [], ◌∷◌, ◌++◌, length,
  Outcome, ok, fail, fault, stuck, after, ltb, ◌==◌, if◌then◌else◌, slice,
}
use jubiter_sdk_c.Status.{jubr_transmit_device_error, jubr_buffer_too_small}
use jubiter_sdk_c.Device.Hid.{
  HidApi, HidDevice, Progress, go_on, whole, too_small, outside, disconnect, give_up, write_report,
  read_report, first_command, send_loop, receive_loop, exchange, is_wait, absorb, zero_filled,
  report_size, next_packet, report_head, cid,
}

module _ {W : Type 0} (api : HidApi W) (h : ℕ) where
  -- The handle `h` was closed, then the library was left, and the device has no handle.
  pub record IsClosed (d : HidDevice W) : Type 0 where
    pub no_handle : d.handle ≡ none
    pub first_again : d.first_cmd ≡ false
    pub last_calls : (w : W) × (d.world ≡ (api.hid_exit (api.hid_close h w)).1)

  -- The handle is `h` as long as nothing fails, and a result of `JUBR_TRANSMIT_DEVICE_ERROR` comes with
  -- `h` closed.
  unfoldable pub Settled : {A : Type 0} → Outcome A × HidDevice W → Type 0
  Settled (ok a, d) = d.handle ≡ some h
  Settled (fail e, d) = if e == jubr_transmit_device_error then IsClosed d else Unit {0}
  Settled (fault, d) = Unit {0}
  Settled (stuck, d) = Unit {0}

  after-Settled :
      {A B : Type 0} (r : Outcome A × HidDevice W) (f : A → HidDevice W → Outcome B × HidDevice W)
      → Settled r
      → ((a : A) (d : HidDevice W) → d.handle ≡ some h → Settled (f a d))
      → Settled (after r f)
  unfolding Settled
  after-Settled (ok a, d) f s k = k a d s
  after-Settled (fail e, d) f s k = s
  after-Settled (fault, d) f s k = s
  after-Settled (stuck, d) f s k = s

  if-Settled :
      {A : Type 0} (b : Bool) (x y : Outcome A × HidDevice W)
      → Settled x
      → Settled y
      → Settled (if b then x else y)
  if-Settled true x y s t = s
  if-Settled false x y s t = t

  Bool-Settled :
      {A : Type 0} (b : Bool) (x y : Outcome A × HidDevice W)
      → Settled x
      → Settled y
      → Settled {A = A} (elim b [ false ↦ x | true ↦ y ])
  Bool-Settled true x y s t = t
  Bool-Settled false x y s t = s

  Option-Settled :
      {A B : Type 0} (o : Option A) (x : Outcome B × HidDevice W) (f : A → Outcome B × HidDevice W)
      → Settled x
      → ((a : A) → Settled (f a))
      → Settled {A = B} (elim o [ none ↦ x | some a ↦ f a ])
  Option-Settled none x f s t = s
  Option-Settled (some a) x f s t = t a

module _ {W : Type 0} (api : HidApi W) (h : ℕ) where
  give_up-Settled :
      (A : Type 0) (d : HidDevice W) → d.handle ≡ some h → Settled api h (give_up api {A = A} d)
  unfolding Settled give_up disconnect
  give_up-Settled A d o =
      rw o (record { no_handle = refl; first_again = refl; last_calls = (d.world, refl) })

  write_report-Settled :
      (r : List ℕ) (d : HidDevice W) → d.handle ≡ some h → Settled api h (write_report api h r d)
  unfolding Settled write_report
  write_report-Settled r d o =
      let (sent, w) = api.hid_write h r d.world in
      let d' : HidDevice W = record d { world = w } in
      if-Settled api h sent (ok tt, d') (give_up api d') o (give_up-Settled (Unit {0}) d' o)

  read_report-Settled : (d : HidDevice W) → d.handle ≡ some h → Settled api h (read_report api h d)
  unfolding Settled read_report
  read_report-Settled d o =
      let (received, w) = api.hid_read h d.world in
      let d' : HidDevice W = record d { world = w } in
      if-Settled api h received (ok tt, d') (give_up api d') o (give_up-Settled (Unit {0}) d' o)

  first_command-Settled :
      (d : HidDevice W) → d.handle ≡ some h → Settled api h (first_command api h d)
  unfolding Settled first_command
  first_command-Settled d o =
      let init : List ℕ = 0x00 ∷ cid ++ 0x86 ∷ 0x00 ∷ 0x00 ∷ [] in
      let d0 : HidDevice W = record d { first_cmd = false } in
      if-Settled api h d.first_cmd
        (after (write_report api h init d0) (λ _ d'. read_report api h d')) (ok tt, d)
        (after-Settled api h (write_report api h init d0) (λ _ d'. read_report api h d')
          (write_report-Settled init d0 o) (λ _ d' o'. read_report-Settled d' o'))
        o

  send_loop-Settled :
      (fuel i n : ℕ) (msg : List ℕ) (d : HidDevice W)
      → d.handle ≡ some h
      → Settled api h (send_loop api fuel h i n msg d)
  unfolding Settled send_loop
  send_loop-Settled zero i n msg d o = tt
  send_loop-Settled (suc fuel) i n msg d o = Bool-Settled api h (ltb i (length msg)) _ _ o (
      Option-Settled api h (slice i (i + report_size i msg) msg) _ _ tt (λ part.
        after-Settled api h (write_report api h (0x00 ∷ report_head i n msg ++ part) d) _
          (write_report-Settled (0x00 ∷ report_head i n msg ++ part) d o)
          (λ _ d' o'. send_loop-Settled fuel (i + report_size i msg) (next_packet i n) msg d' o')))

  absorbed-Settled :
      (p : Progress) (d : HidDevice W) (f : ℕ → List ℕ → Outcome (List ℕ) × HidDevice W)
      → d.handle ≡ some h
      → ((size : ℕ) (acc : List ℕ) → Settled api h (f size acc))
      → Settled api h {A = List ℕ} (elim p [
        | outside ↦ (fault, d)
        | too_small ↦ (fail jubr_buffer_too_small, d)
        | whole bytes ↦ (ok bytes, d)
        | go_on size' acc' ↦ f size' acc'
      ])
  unfolding Settled
  absorbed-Settled outside d f o k = tt
  absorbed-Settled too_small d f o k = tt
  absorbed-Settled (whole bytes) d f o k = o
  absorbed-Settled (go_on size acc) d f o k = k size acc

  receive_loop-Settled :
      (fuel timeout room size : ℕ) (acc : List ℕ) (d : HidDevice W)
      → d.handle ≡ some h
      → Settled api h (receive_loop api fuel h timeout room size acc d)
  unfolding Settled receive_loop
  receive_loop-Settled zero timeout room size acc d o = tt
  receive_loop-Settled (suc fuel) timeout room size acc d o =
      let (got, w) = api.hid_read_timeout h timeout d.world in
      let d' : HidDevice W = record d { world = w } in
      Option-Settled api h got _ _ (give_up-Settled (List ℕ) d' o) (λ report.
        Bool-Settled api h (is_wait report) _ _
          (absorbed-Settled (absorb room size acc (zero_filled report)) d' _ o
            (λ size' acc'. receive_loop-Settled fuel timeout room size' acc' d' o))
          (receive_loop-Settled fuel timeout room size acc d' o))

  pub exchange-Settled :
      (fuel : ℕ) (msg : List ℕ) (room timeout : ℕ) (d : HidDevice W)
      → d.handle ≡ some h
      → Settled api h (exchange api fuel h msg room timeout d)
  unfolding exchange
  exchange-Settled fuel msg room timeout d o =
      after-Settled api h (first_command api h d) _ (first_command-Settled d o) (λ _ d1 o1.
        after-Settled api h (send_loop api (suc (length msg)) h 0 0 msg d1) _
          (send_loop-Settled (suc (length msg)) 0 0 msg d1 o1)
          (λ _ d2 o2. receive_loop-Settled fuel timeout room 0 [] d2 o2))
