-- ===== src/Device/Hid/Rounds.antt =====
-- What a round of the loop that receives makes of a report.
use jubiter_sdk_c.Common.{
  ℕ, ◌+◌, ◌-◌, ◌*◌, ◌/◌, ◌%◌, ◌^◌, ◌≤◌, ◌<◌, ◌≡◌, ◌⊎◌, refl, inl, inr, Bool-cases, true, false,
  List, [], ◌∷◌, ◌++◌, append_assoc, length, take, slice-append, length-take, length-append,
  replicate, leb, ltb, ◌==◌, if◌then◌else◌, ltb→lt, ltb-false, arith,
}
use jubiter_sdk_c.Device.Hid.{go_on, whole, cid, zero_filled, is_wait, chunk, absorb, absorb_chunk}
use jubiter_sdk_c.Device.Hid.Reports.{first_report}

-- The reports that are read for the reports of a message: each with anything behind it, and any
-- number of wait reports before it.
unfoldable pub Arrives : List (List ℕ) → List (List ℕ) → Type 0
Arrives [] [] = Unit {0}
Arrives [] (r ∷ rs) = ⊥
Arrives (b ∷ bs) [] = ⊥
Arrives (b ∷ bs) (r ∷ rs) =
    ((is_wait r ≡ true) × Arrives (b ∷ bs) rs) ⊎ ((fill : List ℕ) × (r ≡ b ++ fill) × Arrives bs rs)

chunk-take :
    (head n rest : ℕ) (xs : List ℕ)
    → n ≡ 64 - head
    → rest ≡ length xs
    → chunk head rest ≡ length (take n xs)
chunk-take head n rest xs e s = elim (Bool-cases (ltb rest (64 - head))) [
  | inl last ↦ rw last (omega (arith, length-take {0} n xs, ltb→lt rest (64 - head) last))
  | inr more ↦ rw more (ground (arith, length-take {0} n xs))
]

-- A round of the loop copies what the report holds of the bytes `xs` that are missing.
absorb_chunk_lem :
    (head n size : ℕ) (acc xs front z : List ℕ)
    → head ≡ length front
    → n ≡ 64 - head
    → length acc + length xs ≡ size
    → absorb_chunk head size acc (front ++ (take n xs ++ z))
      ≡ (if leb (length xs) n then whole (acc ++ take n xs) else go_on size (acc ++ take n xs))
unfolding absorb_chunk
absorb_chunk_lem head n size acc xs front z hf hn hs =
    let missing = chunk-take head n (size - length acc) xs hn (omega arith) in
    rw
      (
        absorb_chunk,
        missing,
        slice-append head (head + length (take n xs)) front (take n xs) z hf refl,
        length-append acc (take n xs),
        length-take n xs,
      )
      (elim (Bool-cases (leb (length xs) n)) [
        | inl last ↦ rw last (ground arith)
        | inr more ↦ rw more (ground arith)
      ])

absorb_first :
    (room : ℕ) (msg z : List ℕ)
    → length msg ≤ room
    → length msg < 2 ^ 16
    → absorb room 0 []
        (cid ++ 0x83 ∷ length msg / 2 ^ 8 % 2 ^ 8 ∷ length msg % 2 ^ 8 ∷ (take 57 msg ++ z))
      ≡ (if leb (length msg) 57 then whole (take 57 msg) else go_on (length msg) (take 57 msg))
unfolding absorb
absorb_first room msg z h l =
    let size : length msg / 2 ^ 8 % 2 ^ 8 * 2 ^ 8 + length msg % 2 ^ 8 ≡ length msg = omega arith in
    rw (size, ltb-false room (length msg) h)
      (absorb_chunk_lem 7 57 (length msg) [] msg
        (cid ++ 0x83 ∷ length msg / 2 ^ 8 % 2 ^ 8 ∷ length msg % 2 ^ 8 ∷ []) z refl refl
        (omega arith))

ne_zero : (i : ℕ) → 0 < i → (i == 0) ≡ false
ne_zero i h = ground arith

absorb_tail :
    (room size f : ℕ) (acc xs z : List ℕ)
    → 0 < length acc
    → length acc + length xs ≡ size
    → absorb room size acc (cid ++ f ∷ (take 59 xs ++ z))
      ≡ (if leb (length xs) 59 then whole (acc ++ take 59 xs) else go_on size (acc ++ take 59 xs))
unfolding absorb
absorb_tail room size f acc xs z p s =
    rw (ne_zero (length acc) p) (absorb_chunk_lem 5 59 size acc xs (cid ++ f ∷ []) z refl refl s)

not_wait : (f : ℕ) (xs : List ℕ) → f < 0xBB → is_wait (cid ++ f % 2 ^ 8 ∷ xs) ≡ false
not_wait f xs h = ground arith

-- What the loop does with a report behind the first that belongs to the message.
pub tail_round :
    (room size f : ℕ) (acc xs fill r : List ℕ)
    → r ≡ (cid ++ f % 2 ^ 8 ∷ take 59 xs) ++ fill
    → f < 0xBB
    → 0 < length acc
    → length acc + length xs ≡ size
    → (is_wait r ≡ false)
      × (absorb room size acc (zero_filled r) ≡ (
          if leb (length xs) 59 then whole (acc ++ take 59 xs) else go_on size (acc ++ take 59 xs)))
tail_round room size f acc xs fill r e l p s =
    let b : List ℕ = cid ++ f % 2 ^ 8 ∷ take 59 xs in
    let zeros : List ℕ = replicate (65 - length (b ++ fill)) 0 in
    rw e (
      not_wait f (take 59 xs ++ fill) l,
      rw (append_assoc (take 59 xs) fill zeros)
          (absorb_tail room size (f % 2 ^ 8) acc xs (fill ++ zeros) p s),
    )

pub first_round :
    (room : ℕ) (msg fill r : List ℕ)
    → r ≡ first_report msg ++ fill
    → length msg ≤ room
    → length msg < 2 ^ 16
    → (is_wait r ≡ false)
      × (absorb room 0 [] (zero_filled r)
          ≡ (if leb (length msg) 57 then whole (take 57 msg) else go_on (length msg) (take 57 msg)))
first_round room msg fill r e h l =
    let zeros : List ℕ = replicate (65 - length (first_report msg ++ fill)) 0 in
    rw e (
      ground arith,
      rw (append_assoc (take 57 msg) fill zeros) (absorb_first room msg (fill ++ zeros) h l),
    )
