-- ===== src/Fido/Unwrap.antt =====
-- `parseFidoApdu` undoes `wrapFidoApdu`.
use jubiter_sdk_c.Common.{
  ℕ, zero, suc, ◌+◌, ◌-◌, ◌/◌, ◌%◌, ◌^◌, ◌≤◌, ◌<◌, ◌≡◌, refl, sym, ap, ◌∙◌, inl, inr, true, false,
  Bool-cases, some, List, [], ◌∷◌, ◌++◌, append_assoc, append-nil, length, take, drop, concat,
  slice, slice-append, slice_in_range, take_all, take-append-drop, length-drop, length-append,
  length-take, leb, ◌==◌, ==_self, le→leb, leb→le, leb-false, ok, fault, within, ◌>>◌, arith,
}
use jubiter_sdk_c.Common.Bits.{bit_or_word}
use jubiter_sdk_c.Fido.{block_end, ctoi, remove_loop, remove_pkg_index, parse_fido_apdu}
use jubiter_sdk_c.Fido.Packets.{tails, blocks, packets, first_packet}
use jubiter_sdk_c.Fido.Wrap.{length-tails, length-packets}

-- One round: behind `front` stand an index byte, the block, and what follows.
next_slice :
    (f : ℕ) (front block back : List ℕ)
    → slice (length front + 1) (length front + 1 + length block) (front ++ (f ∷ (block ++ back)))
      ≡ some block
next_slice f front block back =
    let e : (front ++ (f ∷ [])) ++ (block ++ back) ≡ front ++ (f ∷ (block ++ back)) =
      append_assoc front (f ∷ []) (block ++ back) in
    rw (← e) (
      slice-append (length front + 1) (length front + 1 + length block) (front ++ (f ∷ [])) block
        back (rw (length-append front (f ∷ [])) (omega arith)) (omega arith))

block_end_last : (start n : ℕ) → n ≤ start + 19 → block_end start n ≡ n
unfolding block_end
block_end_last start n h = ground arith

block_end_next : (start n : ℕ) → start + 19 < n → block_end start n ≡ start + 19
unfolding block_end
block_end_next start n h = ground arith

length_next :
    (f : ℕ) (front block back : List ℕ)
    → length (front ++ (f ∷ (block ++ back))) ≡ length front + 1 + length block + length back
length_next f front block back =
    rw (length-append front (f ∷ (block ++ back)), length-append block back) (omega arith)

remove_loop_last :
    (fuel f : ℕ) (front temp block : List ℕ)
    → length block ≤ 19
    → remove_loop (suc fuel) (length front) temp (front ++ (f ∷ (block ++ []))) ≡ ok (temp ++ block)
unfolding remove_loop
remove_loop_last fuel f front temp block h =
    let n : length (front ++ (f ∷ (block ++ []))) ≡ length front + 1 + length block =
      rw (length_next f front block []) (omega arith) in
    rw (
      n,
      block_end_last (length front + 1) (length front + 1 + length block) (omega arith),
      next_slice f front block [],
      ==_self (length front + 1 + length block),
    )

ne_eq : (a b : ℕ) → a < b → (a == b) ≡ false
ne_eq a b h = ground arith

remove_loop_next :
    (fuel f : ℕ) (front temp block back : List ℕ)
    → length block ≡ 19
    → 0 < length back
    → remove_loop (suc fuel) (length front) temp (front ++ (f ∷ (block ++ back)))
      ≡ remove_loop fuel
          (length (front ++ (f ∷ block)))
          (temp ++ block)
          ((front ++ (f ∷ block)) ++ back)
unfolding remove_loop
remove_loop_next fuel f front temp block back h g =
    let part : List ℕ = front ++ (f ∷ block) in
    let stop : length part ≡ length front + 1 + 19 =
      rw (length-append front (f ∷ block)) (omega arith) in
    let e : block_end (length front + 1) (length (front ++ (f ∷ (block ++ back)))) ≡ length part =
      block_end_next (length front + 1) (length (front ++ (f ∷ (block ++ back))))
        (rw (length_next f front block back) (omega arith))
      ∙ sym stop in
    let size : length part ≡ length front + 1 + length block = omega arith in
    rw (
      e,
      ap (λ (b : ℕ). slice (length front + 1) b (front ++ (f ∷ (block ++ back)))) size,
      next_slice f front block back,
      ne_eq (length part) (length (front ++ (f ∷ (block ++ back))))
          (rw (length_next f front block back) (omega arith)),
      append_assoc front (f ∷ block) back,
    )

remove_loop-tails :
    (k fuel f : ℕ) (front temp xs : List ℕ)
    → blocks (length xs) ≡ suc k
    → suc k ≤ fuel
    → remove_loop fuel (length front) temp (front ++ concat (tails (suc k) f xs)) ≡ ok (temp ++ xs)
unfolding tails
remove_loop-tails k zero f front temp xs e g = absurd (omega arith)
remove_loop-tails zero (suc fuel) f front temp xs e g =
    rw (take_all 19 xs (omega arith))
      (remove_loop_last fuel (f % 2 ^ 8) front temp xs (omega arith))
remove_loop-tails (suc k) (suc fuel) f front temp xs e g = rw (
  remove_loop_next fuel (f % 2 ^ 8) front temp (take 19 xs)
      (concat (tails (suc k) (f + 1) (drop 19 xs))) (omega (arith, length-take {0} 19 xs))
      (omega
        (arith, length-tails (suc k) (f + 1) (drop 19 xs) (omega (arith, length-drop {0} 19 xs)))),
  remove_loop-tails k fuel (f + 1) (front ++ (f % 2 ^ 8 ∷ take 19 xs)) (temp ++ take 19 xs)
      (drop 19 xs) (omega (arith, length-drop {0} 19 xs)) (omega arith),
  append_assoc temp (take 19 xs) (drop 19 xs),
  take-append-drop 19 xs,
)

pub ctoi_length : (n : ℕ) → n < 2 ^ 16 → ctoi (n / 2 ^ 8 % 2 ^ 8) (n % 2 ^ 8) ≡ n
ctoi_length n h = bit_or_word (n / 2 ^ 8 % 2 ^ 8) (n % 2 ^ 8) (omega arith) ∙ omega arith

abbrev framed : ℕ → List ℕ → List ℕ
framed header msg = header ∷ length msg / 2 ^ 8 % 2 ^ 8 ∷ length msg % 2 ^ 8 ∷ msg

remove_short :
    (header : ℕ) (msg : List ℕ) (room : ℕ)
    → length msg ≤ 17
    → 3 + length msg ≤ room
    → remove_pkg_index (concat (packets header msg)) room ≡ ok (framed header msg)
unfolding remove_pkg_index tails
remove_short header msg room s g =
    let none_left : blocks (length msg - 17) ≡ 0 = omega arith in
    rw (
      ctoi_length (length msg) (omega arith),
      le→leb (length msg + 3) 20 (omega arith),
      none_left,
      append-nil,
      take_all 17 msg s,
      le→leb (suc (suc (suc (length msg)))) room (omega arith),
    )

looped_first :
    (k fuel header : ℕ) (msg : List ℕ)
    → 17 < length msg
    → blocks (length msg - 17) ≡ suc k
    → suc k ≤ fuel
    → remove_loop fuel 20 (first_packet header msg) (concat (packets header msg))
      ≡ ok (framed header msg)
looped_first k fuel header msg s e g =
    let twenty : length (first_packet header msg) ≡ 20 = omega (arith, length-take {0} 17 msg) in
    let blocks_left : blocks (length (drop 17 msg)) ≡ suc k = ap blocks (length-drop 17 msg) ∙ e in
    let whole =
      remove_loop-tails k fuel 0 (first_packet header msg) (first_packet header msg) (drop 17 msg)
        blocks_left g in
    rw (twenty, take-append-drop 17 msg, ← e) at whole

plus_three : (n : ℕ) → (n + 3 == suc (suc (suc n))) ≡ true
plus_three n = ground arith

three_plus : (n : ℕ) → 3 + n ≡ suc (suc (suc n))
three_plus n = omega arith

payload :
    (a b c : ℕ) (msg : List ℕ) → slice 3 (length (a ∷ b ∷ c ∷ msg)) (a ∷ b ∷ c ∷ msg) ≡ some msg
payload a b c msg =
    let size : suc (suc (suc (length msg))) - 3 ≡ length msg = omega arith in
    rw (
      slice_in_range 3 (length (a ∷ b ∷ c ∷ msg)) (a ∷ b ∷ c ∷ msg) (omega arith) (omega arith),
      size,
      take_all (length msg) msg (omega arith),
    )

remove_long :
    (header : ℕ) (msg : List ℕ) (room k : ℕ)
    → 17 < length msg
    → length msg < 2 ^ 16
    → blocks (length msg - 17) ≡ suc k
    → remove_pkg_index (concat (packets header msg)) room
      ≡ (within (leb (3 + length msg) room) >> ok (framed header msg))
unfolding remove_pkg_index
remove_long header msg room k s h e =
    let first : List ℕ = first_packet header msg in
    let back : List ℕ = concat (tails (blocks (length msg - 17)) 0 (drop 17 msg)) in
    let twenty : length first ≡ 20 = omega (arith, length-take {0} 17 msg) in
    let looped : remove_loop (length (first ++ back)) 20 first (first ++ back)
        ≡ ok (framed header msg) =
      looped_first k (length (first ++ back)) header msg s e
        (omega (arith, length-packets header msg)) in
    rw (
      ctoi_length (length msg) h,
      leb-false (length msg + 3) 20 (omega arith),
      slice-append 0 20 [] first back refl (omega arith),
      looped,
      plus_three (length msg),
      three_plus (length msg),
    )

remove_pkg_index-packets :
    (header : ℕ) (msg : List ℕ) (room : ℕ)
    → length msg < 2 ^ 16
    → 3 + length msg ≤ room
    → remove_pkg_index (concat (packets header msg)) room ≡ ok (framed header msg)
remove_pkg_index-packets header msg room h g = elim (Bool-cases (leb (length msg) 17)) [
  | inl short ↦ remove_short header msg room (leb→le (length msg) 17 short) g
  | inr long ↦
      remove_long header msg room (blocks (length msg - 17) - 1) (ground arith) h (ground arith)
      ∙ rw (le→leb (3 + length msg) room g)
]

-- Taking the packets of a message of at most 509 bytes apart gives the message back, in any
-- destination that holds it.
pub parse_fido_apdu-packets :
    (header : ℕ) (msg : List ℕ) (room : ℕ)
    → length msg ≤ 509
    → length msg ≤ room
    → parse_fido_apdu (concat (packets header msg)) (some room) ≡ ok msg
unfolding parse_fido_apdu
parse_fido_apdu-packets header msg room h g = rw (
  remove_pkg_index-packets header msg 512 (omega arith) (omega arith),
  payload header (length msg / 2 ^ 8 % 2 ^ 8) (length msg % 2 ^ 8) msg,
  le→leb (length msg) room g,
)

-- A longer answer is written past the end of the 512 bytes of `tempMsg`, whatever room the caller
-- has.
pub parse_fido_apdu_overflow :
    (header : ℕ) (msg : List ℕ) (room : ℕ)
    → 509 < length msg
    → length msg < 2 ^ 16
    → parse_fido_apdu (concat (packets header msg)) (some room) ≡ fault
unfolding parse_fido_apdu
parse_fido_apdu_overflow header msg room h g = rw (
  remove_long header msg 512 (blocks (length msg - 17) - 1) (omega arith) g (omega arith),
  leb-false (3 + length msg) 512 (omega arith),
)
