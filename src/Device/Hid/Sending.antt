-- ===== src/Device/Hid/Sending.antt =====
-- What `SendData` of a HID device writes.
use jubiter_sdk_c.Common.{
  ℕ, zero, suc, ◌+◌, ◌-◌, ◌%◌, ◌^◌, ◌≤◌, ◌<◌, ◌≡◌, refl, ap, ◌∙◌, inl, inr, Bool-cases, false, some,
  List, [], ◌∷◌, ◌++◌, length, take, drop, slice, slice_in_range, slice_all, take_short, take_all,
  drop_all, drop-drop, length-drop, ltb, ◌==◌, if◌then◌else◌, ltb→lt, lt→ltb, ltb-false, Outcome,
  ok, fail, fault, stuck, after, arith,
}
use jubiter_sdk_c.Device.Hid.{
  HidApi, HidDevice, write_report, send_loop, report_head, report_size, next_packet, cid,
}
use jubiter_sdk_c.Device.Hid.Reports.{tail_reports, blocks, first_report, reports}

pub after-cong :
    {A B S : Type 0} (r : Outcome A × S) (f g : A → S → Outcome B × S)
    → ((a : A) (s : S) → f a s ≡ g a s)
    → after r f ≡ after r g
after-cong (ok a, s) f g h = h a s
after-cong (fail e, s) f g h = refl
after-cong (fault, s) f g h = refl
after-cong (stuck, s) f g h = refl

ne_zero : (i : ℕ) → 0 < i → (i == 0) ≡ false
ne_zero i h = ground arith

-- A round behind the first takes the next 59 bytes, or what is left.
module _ (i : ℕ) (msg : List ℕ) (h : 0 < i) (l : i ≤ length msg) where
  tail_size : report_size i msg ≡ (if ltb (length msg - i) 59 then length msg - i else 59)
  unfolding report_size
  tail_size = rw (ne_zero i h)

  next_head : (n : ℕ) → report_head i n msg ≡ cid ++ n % 2 ^ 8 ∷ []
  unfolding report_head
  next_head n = rw (ne_zero i h)

  next_number : (n : ℕ) → next_packet i n ≡ n + 1
  next_number n = rw (ne_zero i h)

  next_part : slice i (i + report_size i msg) msg ≡ some (take 59 (drop i msg))
  next_part = elim (Bool-cases (ltb (length msg - i) 59)) [
    | inl last ↦
        let size : i + (length msg - i) - i ≡ length msg - i = omega arith in
        rw
          (
            tail_size,
            last,
            slice_in_range i (i + (length msg - i)) msg (omega arith) (omega arith),
            size,
          )
          (ap some (
            take_short (length msg - i) 59 (drop i msg) (omega (arith, length-drop {0} i msg))
              (omega (arith, length-drop {0} i msg, ltb→lt (length msg - i) 59 last))))
    | inr more ↦
        let size : i + 59 - i ≡ 59 = omega arith in
        rw (tail_size, more, slice_in_range i (i + 59) msg (omega arith) (ground arith), size)
  ]

  next_rest : drop (i + report_size i msg) msg ≡ drop 59 (drop i msg)
  next_rest = elim (Bool-cases (ltb (length msg - i) 59)) [
    | inl last ↦ rw (
      tail_size,
      last,
      drop_all (i + (length msg - i)) msg (omega arith),
      drop_all 59 (drop i msg)
          (omega (arith, length-drop {0} i msg, ltb→lt (length msg - i) 59 last)),
    )
    | inr more ↦ rw (tail_size, more, drop-drop 59 i (i + 59) msg refl)
  ]

  next_bounds :
      (0 < i + report_size i msg)
      × (i + report_size i msg ≤ length msg)
      × (blocks (length msg - (i + report_size i msg)) ≡ blocks (length msg - i) - 1)
  next_bounds = elim (Bool-cases (ltb (length msg - i) 59)) [
    | inl last ↦ rw (tail_size, last) (omega arith, omega arith, ground arith)
    | inr more ↦ rw (tail_size, more) (omega arith, ground arith, ground arith)
  ]

first_part : (msg : List ℕ) → slice 0 (report_size 0 msg) msg ≡ some (take 57 msg)
unfolding report_size
first_part msg = elim (Bool-cases (ltb (length msg) 57)) [
  | inl short ↦ rw (
    short,
    slice_all (length msg) msg refl,
    take_all 57 msg (omega (arith, ltb→lt (length msg) 57 short)),
  )
  | inr long ↦ rw (long, slice_in_range 0 57 msg (omega arith) (ground arith))
]

first_rest : (msg : List ℕ) → drop (report_size 0 msg) msg ≡ drop 57 msg
unfolding report_size
first_rest msg = elim (Bool-cases (ltb (length msg) 57)) [
  | inl short ↦ rw (
    short,
    drop_all (length msg) msg (omega arith),
    drop_all 57 msg (omega (arith, ltb→lt (length msg) 57 short)),
  )
  | inr long ↦ rw long
]

first_bounds :
    (msg : List ℕ)
    → 0 < length msg
    → (0 < report_size 0 msg)
      × (report_size 0 msg ≤ length msg)
      × (blocks (length msg - report_size 0 msg) ≡ blocks (length msg - 57))
unfolding report_size
first_bounds msg p = elim (Bool-cases (ltb (length msg) 57)) [
  | inl short ↦ rw short (p, omega arith, ground arith)
  | inr long ↦ rw long (omega arith, ground arith, refl)
]

module _ {W : Type 0} (api : HidApi W) (h : ℕ) where
  -- The reports one after the other, behind the report number; the first that is not written ends it.
  unfoldable pub write_all : List (List ℕ) → HidDevice W → Outcome (Unit {0}) × HidDevice W
  write_all [] d = (ok tt, d)
  write_all (r ∷ rs) d = after (write_report api h (0x00 ∷ r) d) (λ _ d'. write_all rs d')

  send_tails :
      (k fuel i n : ℕ) (msg : List ℕ) (d : HidDevice W)
      → 0 < i
      → i ≤ length msg
      → blocks (length msg - i) ≡ k
      → k < fuel
      → send_loop api fuel h i n msg d ≡ write_all (tail_reports k n (drop i msg)) d
  unfolding send_loop write_all tail_reports
  send_tails k zero i n msg d p l e f = absurd (omega arith)
  send_tails zero (suc fuel) i n msg d p l e f =
      rw (send_loop, ltb-false i (length msg) (omega arith))
  send_tails (suc k) (suc fuel) i n msg d p l e f =
      let bounds = next_bounds i msg p l in
      rw
        (send_loop, lt→ltb i (length msg) (omega arith), next_part i msg p l, next_head i msg p l n)
        (after-cong (write_report api h (0x00 ∷ cid ++ n % 2 ^ 8 ∷ take 59 (drop i msg)) d)
          (λ _ d'. send_loop api fuel h (i + report_size i msg) (next_packet i n) msg d')
          (λ _ d'. write_all (tail_reports k (n + 1) (drop 59 (drop i msg))) d')
          (λ _ d'.
            ap (λ (m : ℕ). send_loop api fuel h (i + report_size i msg) m msg d')
              (next_number i msg p l n)
            ∙ send_tails k fuel (i + report_size i msg) (n + 1) msg d' bounds.0 bounds.1
                (omega (arith, bounds)) (omega arith)
            ∙ ap (λ (xs : List ℕ). write_all (tail_reports k (n + 1) xs) d') (next_rest i msg p l)))

  -- Sending a message of at least one byte writes exactly its reports, in order, until one is not
  -- written.
  pub send_loop-reports :
      (msg : List ℕ) (d : HidDevice W)
      → 0 < length msg
      → send_loop api (suc (length msg)) h 0 0 msg d ≡ write_all (reports msg) d
  unfolding send_loop write_all report_head
  send_loop-reports msg d p =
      let bounds = first_bounds msg p in
      let start : 0 + report_size 0 msg ≡ report_size 0 msg = omega arith in
      rw (send_loop, lt→ltb 0 (length msg) p, start, first_part msg)
        (after-cong (write_report api h (0x00 ∷ first_report msg) d)
          (λ _ d'. send_loop api (length msg) h (0 + report_size 0 msg) 0 msg d')
          (λ _ d'. write_all (tail_reports (blocks (length msg - 57)) 0 (drop 57 msg)) d')
          (λ _ d'.
            ap (λ (o : ℕ). send_loop api (length msg) h o 0 msg d') start
            ∙ send_tails (blocks (length msg - 57)) (length msg) (report_size 0 msg) 0 msg d'
                bounds.0 bounds.1 bounds.2 (omega arith)
            ∙ ap (λ (xs : List ℕ). write_all (tail_reports (blocks (length msg - 57)) 0 xs) d')
                (first_rest msg)))
