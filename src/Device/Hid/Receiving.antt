-- ===== src/Device/Hid/Receiving.antt =====
-- What `SendData` of a HID device makes of the reports that it reads.
use jubiter_sdk_c.Common.{
  ℕ, zero, suc, ◌+◌, ◌-◌, ◌≤◌, ◌<◌, ◌≡◌, refl, ap, ◌∙◌, inl, inr, Bool-cases, some, List, [], ◌∷◌,
  ◌++◌, append_assoc, length, take, drop, take_all, take-append-drop, length-drop, length-take,
  length-append, leb, le→leb, leb-false, leb→le, ok, arith,
}
use jubiter_sdk_c.Device.Hid.{HidApi, HidDevice, receive_loop}
use jubiter_sdk_c.Device.Hid.Reports.{tail_reports, blocks, reports}
use mathlib.Core.Path.{subst}
use jubiter_sdk_c.Device.Hid.Rounds.{Arrives, tail_round, first_round}

-- The reports that reading gives, one after the other, and the world behind the last one.
module _ {W : Type 0} (api : HidApi W) (h timeout : ℕ) where
  unfoldable pub Reads : List (List ℕ) → W → W → Type 0
  Reads [] w w' = w ≡ w'
  Reads (r ∷ rs) w w' =
      ((api.hid_read_timeout h timeout w).0 ≡ some r)
      × Reads rs (api.hid_read_timeout h timeout w).1 w'

module _ {W : Type 0} (api : HidApi W) (h timeout room : ℕ) where
  receive_tails :
      (k fuel size f : ℕ) (acc xs : List ℕ) (rs : List (List ℕ)) (d : HidDevice W) (w' : W)
      → Arrives (tail_reports (suc k) f xs) rs
      → Reads api h timeout rs d.world w'
      → blocks (length xs) ≡ suc k
      → f + suc k ≤ 0xBB
      → 0 < length acc
      → length acc + length xs ≡ size
      → length rs ≤ fuel
      → receive_loop api fuel h timeout room size acc d ≡ (ok (acc ++ xs), record d { world = w' })
  unfolding Arrives Reads receive_loop tail_reports
  receive_tails k fuel size f acc xs [] d w' a r e l p s g = absurd a
  receive_tails k zero size f acc xs (r ∷ rs) d w' a q e l p s g = absurd (omega arith)
  receive_tails k (suc fuel) size f acc xs (r ∷ rs) d w' (inl (patience, more)) (got, q) e l p s g =
      rw (receive_loop, got, patience)
        (receive_tails k fuel size f acc xs rs
          (record d { world = (api.hid_read_timeout h timeout d.world).1 }) w' more q e l p s
          (omega arith))
  receive_tails zero (suc fuel) size f acc xs (r ∷ []) d w' (inr (fill, same, more)) (got, q) e l p
        s g =
      let round = tail_round room size f acc xs fill r same (omega arith) p s in
      rw
        (
          receive_loop,
          got,
          round.0,
          round.1,
          le→leb (length xs) 59 (omega arith),
          take_all 59 xs (omega arith),
          q,
        )
        refl
  receive_tails zero (suc fuel) size f acc xs (r ∷ r' ∷ rs) d w' (inr (fill, same, more)) q e l p s
        g =
      absurd more
  receive_tails (suc k) (suc fuel) size f acc xs (r ∷ rs) d w' (inr (fill, same, more)) (got, q) e l
        p s g =
      let round = tail_round room size f acc xs fill r same (omega arith) p s in
      rw
        (
          receive_loop,
          got,
          round.0,
          round.1,
          leb-false (length xs) 59 (omega arith),
          receive_tails k fuel size (f + 1) (acc ++ take 59 xs) (drop 59 xs) rs
              (record d { world = (api.hid_read_timeout h timeout d.world).1 }) w' more q
              (omega (arith, length-drop {0} 59 xs)) (omega arith)
              (rw (length-append acc (take 59 xs)) (omega arith))
              (rw (length-append acc (take 59 xs), length-take 59 xs, length-drop 59 xs)
                (omega arith))
              (omega arith),
          append_assoc acc (take 59 xs) (drop 59 xs),
          take-append-drop 59 xs,
        )
        refl

  -- The reports behind the first: none for a short message.
  receive_rest :
      (fuel : ℕ) (msg : List ℕ) (rs : List (List ℕ)) (d : HidDevice W) (w' : W)
      → Arrives (tail_reports (blocks (length msg - 57)) 0 (drop 57 msg)) rs
      → Reads api h timeout rs d.world w'
      → 57 < length msg
      → length msg ≤ 11090
      → length rs ≤ fuel
      → receive_loop api fuel h timeout room (length msg) (take 57 msg) d
        ≡ (ok msg, record d { world = w' })
  receive_rest fuel msg rs d w' a q l m g =
      let k : ℕ = blocks (length msg - 57) - 1 in
      let more : blocks (length msg - 57) ≡ suc k = omega arith in
      receive_tails k fuel (length msg) 0 (take 57 msg) (drop 57 msg) rs d w'
        (subst (λ n. Arrives (tail_reports n 0 (drop 57 msg)) rs) more a) q
        (omega (arith, length-drop {0} 57 msg)) (omega arith)
        (omega (arith, length-take {0} 57 msg))
        (omega (arith, length-take {0} 57 msg, length-drop {0} 57 msg)) g
      ∙ ap (λ (xs : List ℕ). (ok xs, record d { world = w' })) (take-append-drop 57 msg)

  receive_short :
      (fuel : ℕ) (msg : List ℕ) (rs : List (List ℕ)) (d : HidDevice W) (w' : W)
      → Arrives (tail_reports (blocks (length msg - 57)) 0 (drop 57 msg)) rs
      → Reads api h timeout rs d.world w'
      → length msg ≤ 57
      → d.world ≡ w'
  unfolding Arrives Reads tail_reports
  receive_short fuel msg [] d w' a q l = q
  receive_short fuel msg (r ∷ rs) d w' a q l =
      let none_left : blocks (length msg - 57) ≡ 0 = omega arith in
      absurd (subst (λ n. Arrives (tail_reports n 0 (drop 57 msg)) (r ∷ rs)) none_left a)

  -- A message of at most 11090 bytes that fits the buffer, and whose reports arrive in order with any
  -- number of wait reports in between, is received whole, and nothing behind its last report is read.
  pub receive_loop-reports :
      (fuel : ℕ) (msg : List ℕ) (rs : List (List ℕ)) (d : HidDevice W) (w' : W)
      → Arrives (reports msg) rs
      → Reads api h timeout rs d.world w'
      → length msg ≤ room
      → length msg ≤ 11090
      → length rs ≤ fuel
      → receive_loop api fuel h timeout room 0 [] d ≡ (ok msg, record d { world = w' })
  unfolding Arrives Reads receive_loop
  receive_loop-reports fuel msg [] d w' a q l m g = absurd a
  receive_loop-reports zero msg (r ∷ rs) d w' a q l m g = absurd (omega arith)
  receive_loop-reports (suc fuel) msg (r ∷ rs) d w' (inl (patience, more)) (got, q) l m g =
      rw (receive_loop, got, patience)
        (receive_loop-reports fuel msg rs
          (record d { world = (api.hid_read_timeout h timeout d.world).1 }) w' more q l m
          (omega arith))
  receive_loop-reports (suc fuel) msg (r ∷ rs) d w' (inr (fill, same, more)) (got, q) l m g =
      let round = first_round room msg fill r same l (omega arith) in
      let d' : HidDevice W = record d { world = (api.hid_read_timeout h timeout d.world).1 } in
      elim (Bool-cases (leb (length msg) 57)) [
        | inl short ↦ rw (
          receive_loop,
          got,
          round.0,
          round.1,
          short,
          take_all 57 msg (leb→le (length msg) 57 short),
          receive_short fuel msg rs d' w' more q (leb→le (length msg) 57 short),
        )
        | inr long ↦
            rw (receive_loop, got, round.0, round.1, long)
              (receive_rest fuel msg rs d' w' more q (ground arith) m (omega arith))
      ]
