-- ===== src/Fido/Wrap.antt =====
-- What `wrapFidoApdu` sends.
use jubiter_sdk_c.Common.{
  ℕ, zero, suc, ◌+◌, ◌-◌, ◌/◌, ◌%◌, ◌^◌, ◌≤◌, ◌<◌, ◌≡◌, refl, ap, inl, inr, Bool-cases, some, List,
  ◌∷◌, ◌++◌, append_assoc, append-nil, length, take, drop, concat, slice, slice_in_range,
  take_short, take_all, drop-drop, length-drop, length-append, length-take, ltb, leb, le→leb,
  leb→le, leb-false, ltb→lt, ok, arith,
}
use jubiter_sdk_c.Fido.{
  Fido, block_end, wrap_loop, wrap_message, wrap_fido_apdu, basic_apdu_add_head_and_length,
}
use jubiter_sdk_c.Fido.Packets.{tails, blocks, packets, first_packet}

-- The block that a round copies is the next 19 bytes, or what is left.
next_block :
    (i : ℕ) (msg : List ℕ)
    → i ≤ length msg
    → slice i (block_end i (length msg)) msg ≡ some (take 19 (drop i msg))
unfolding block_end
next_block i msg h = elim (Bool-cases (ltb (length msg) (i + 19))) [
  | inl last ↦ rw (
    last,
    slice_in_range i (length msg) msg h (omega arith),
    take_short (length msg - i) 19 (drop i msg) (omega (arith, length-drop {0} i msg))
        (omega (arith, length-drop {0} i msg, ltb→lt (length msg) (i + 19) last)),
  )
  | inr more ↦
      let size : i + 19 - i ≡ 19 = omega arith in
      rw (more, slice_in_range i (i + 19) msg (omega arith) (ground arith), size)
]

wrap_loop-tails :
    (k fuel f i : ℕ) (cmd msg : List ℕ)
    → i < length msg
    → length msg ≤ fuel + i
    → blocks (length msg - i) ≡ suc k
    → wrap_loop fuel f i cmd msg ≡ ok (cmd ++ concat (tails (suc k) f (drop i msg)))
unfolding wrap_loop tails
wrap_loop-tails k zero f i cmd msg h g e = absurd (omega arith)
wrap_loop-tails zero (suc fuel) f i cmd msg h g e =
    rw (next_block i msg (omega arith), le→leb (length msg) (i + 19) (omega arith), append-nil)
wrap_loop-tails (suc k) (suc fuel) f i cmd msg h g e =
    rw
      (
        next_block i msg (omega arith),
        leb-false (length msg) (i + 19) (omega arith),
        wrap_loop-tails k fuel (f + 1) (i + 19) (cmd ++ (f % 2 ^ 8 ∷ take 19 (drop i msg))) msg
            (omega arith) (omega arith) (omega arith),
        drop-drop 19 i (i + 19) msg refl,
      )
      (ap ok (
        append_assoc cmd (f % 2 ^ 8 ∷ take 19 (drop i msg))
          (concat (tails (suc k) (f + 1) (drop (i + 19) msg)))))

-- The size of the continuation packets: their bytes and an index each.
pub length-tails :
    (k f : ℕ) (xs : List ℕ)
    → blocks (length xs) ≡ k
    → length (concat (tails k f xs)) ≡ length xs + k
unfolding tails
length-tails zero f xs e = omega arith
length-tails (suc k) f xs e =
    rw (length-append (take 19 xs) (concat (tails k (f + 1) (drop 19 xs)))) (
      omega (
        arith,
        length-tails k (f + 1) (drop 19 xs) (omega (arith, length-drop {0} 19 xs)),
        length-take {0} 19 xs,
        length-drop {0} 19 xs,
      ))

pub length-packets :
    (header : ℕ) (msg : List ℕ)
    → length (concat (packets header msg)) ≡ 3 + length msg + blocks (length msg - 17)
length-packets header msg =
    rw (length-append (take 17 msg) (concat (tails (blocks (length msg - 17)) 0 (drop 17 msg)))) (
      omega (
        arith,
        length-tails (blocks (length msg - 17)) 0 (drop 17 msg) (ap blocks (length-drop 17 msg)),
        length-take {0} 17 msg,
        length-drop {0} 17 msg,
      ))

framed_lem :
    (header : ℕ) (msg : List ℕ) (room : ℕ)
    → 3 + length msg ≤ room
    → basic_apdu_add_head_and_length header msg (some room)
      ≡ ok (header ∷ length msg / 2 ^ 8 % 2 ^ 8 ∷ length msg % 2 ^ 8 ∷ msg)
unfolding basic_apdu_add_head_and_length
framed_lem header msg room h = rw (le→leb (suc (suc (suc (length msg)))) room (omega arith))

wrap_short :
    (header : ℕ) (msg : List ℕ) (room : ℕ)
    → length msg ≤ 17
    → 3 + length msg ≤ room
    → wrap_message header msg room ≡ ok (concat (packets header msg))
unfolding wrap_message tails
wrap_short header msg room s h =
    let none_left : blocks (length msg - 17) ≡ 0 = omega arith in
    rw (
      framed_lem header msg room h,
      le→leb (suc (suc (suc (length msg)))) 20 (omega arith),
      none_left,
      append-nil,
      take_all 17 msg s,
    )

wrap_long :
    (header : ℕ) (msg : List ℕ) (room k : ℕ)
    → 17 < length msg
    → blocks (length msg - 17) ≡ suc k
    → 3 + length msg + blocks (length msg - 17) ≤ room
    → wrap_message header msg room ≡ ok (concat (packets header msg))
unfolding wrap_message
wrap_long header msg room k s e h = rw (
  framed_lem header msg room (omega arith),
  leb-false (suc (suc (suc (length msg)))) 20 (omega arith),
  wrap_loop-tails k (length msg) 0 17 (first_packet header msg) msg s (omega arith) e,
  ← e,
  le→leb (length (concat (packets header msg))) room (rw (length-packets header msg) h),
)

-- Sending a message of any length into a large enough buffer leaves the packets there, one after
-- the other, and the command is remembered for the answer.
pub wrap_fido_apdu-packets :
    (f : Fido) (header : ℕ) (msg : List ℕ) (room : ℕ)
    → 3 + length msg + blocks (length msg - 17) ≤ room
    → wrap_fido_apdu f header msg (some room)
      ≡ (record f { cmd_header = header }, ok (concat (packets header msg)))
unfolding wrap_fido_apdu
wrap_fido_apdu-packets f header msg room h = elim (Bool-cases (leb (length msg) 17)) [
  | inl short ↦ rw (wrap_short header msg room (leb→le (length msg) 17 short) (omega arith))
  | inr long ↦
      rw (wrap_long header msg room (blocks (length msg - 17) - 1) (ground arith) (ground arith) h)
]
