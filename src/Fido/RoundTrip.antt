-- ===== src/Fido/RoundTrip.antt =====
-- A whole message over the link: sent as packets, received packet by packet, taken apart.
use jubiter_sdk_c.Common.{
  ℕ, zero, suc, ◌+◌, ◌-◌, ◌/◌, ◌%◌, ◌^◌, ◌≤◌, ◌<◌, ◌≡◌, ◌≢◌, refl, sym, ap, ◌∙◌, inl, inr, true,
  false, Bool, Bool-cases, some, List, [], ◌∷◌, ◌++◌, append_assoc, append-nil, length, take, drop,
  concat, length-drop, length-take, leb, ◌==◌, leb→le, ltb-false, ok, arith,
}
use jubiter_sdk_c.Fido.{
  Fido, ResponseStatus, done, check_header, check_response, merge_package, recv_call_back,
  parse_fido_apdu,
}
use jubiter_sdk_c.Fido.Packets.{tails, blocks, packets, first_packet}
use jubiter_sdk_c.Fido.Wrap.{length-packets}
use jubiter_sdk_c.Fido.Unwrap.{parse_fido_apdu-packets}
use jubiter_sdk_c.Fido.Receive.{
  recv_all, Pending, Received, recv_tails, recv_some_tails, merge_receiving, merge_done,
  check_response_done,
}

-- The state in which an answer is awaited: after `clear`, with the command remembered.
pub record Awaiting (s : Fido) : Type 0 where
  pub nothing : s.m_recv_msg ≡ []
  pub clean : s.has_error ≡ false
  pub at_start : s.pkg_seq ≡ 0
  pub plain : (s.cmd_header ≢ 0x82) × (s.cmd_header ≢ 0xBF)

ne_eq : (a b : ℕ) → a ≢ b → (a == b) ≡ false
ne_eq a b h = ground arith

recv_first :
    (s : Fido) (msg : List ℕ)
    → Awaiting s
    → recv_call_back s (first_packet s.cmd_header msg)
      ≡ merge_package s (first_packet s.cmd_header msg)
unfolding recv_call_back
recv_first s msg a = rw (
  a.clean,
  ne_eq s.cmd_header 130 a.plain.0,
  ne_eq s.cmd_header 191 a.plain.1,
  ltb-false 0 (length s.m_recv_msg) (omega (arith, ap length a.nothing)),
)

first_in :
    (s : Fido) (msg : List ℕ)
    → Awaiting s
    → s.m_recv_msg ++ first_packet s.cmd_header msg ≡ first_packet s.cmd_header msg
first_in s msg a = ap (λ (xs : List ℕ). xs ++ first_packet s.cmd_header msg) a.nothing

first_state :
    (s : Fido) (msg : List ℕ)
    → Awaiting s
    → 17 < length msg
    → length msg < 2 ^ 16
    → recv_call_back s (first_packet s.cmd_header msg)
      ≡ record s { m_recv_msg = s.m_recv_msg ++ first_packet s.cmd_header msg }
first_state s msg a h g =
    recv_first s msg a
    ∙ merge_receiving s (length msg) (take 17 msg) (first_packet s.cmd_header msg)
        (first_in s msg a) g (omega (arith, length-take {0} 17 msg))
        (omega (arith, length-take {0} 17 msg))

pub first-Pending :
    (s : Fido) (msg : List ℕ) (k : ℕ)
    → Awaiting s
    → 17 < length msg
    → length msg ≤ 2449
    → blocks (length msg - 17) ≡ suc k
    → Pending
        (recv_call_back s (first_packet s.cmd_header msg))
        (length msg)
        0
        (suc k)
        (take 17 msg)
        (drop 17 msg)
first-Pending s msg k a h g e = rw (first_state s msg a h (omega arith)) (record {
  fits = omega arith;
  clean = a.clean;
  numbered = a.at_start;
  buffered = first_in s msg a;
  some_in = omega (arith, length-take {0} 17 msg);
  to_come = ap blocks (length-drop 17 msg) ∙ e;
  counted = omega (arith, length-take {0} 17 msg, length-drop {0} 17 msg);
  few = omega arith;
})

short_state :
    (s : Fido) (msg : List ℕ)
    → Awaiting s
    → 0 < length msg
    → length msg ≤ 17
    → recv_call_back s (first_packet s.cmd_header msg)
      ≡ record s { m_recv_msg = s.m_recv_msg ++ first_packet s.cmd_header msg; notified = true }
short_state s msg a h g =
    recv_first s msg a
    ∙ merge_done s (length msg) (take 17 msg) (first_packet s.cmd_header msg) (first_in s msg a)
        (omega arith) (omega (arith, length-take {0} 17 msg))
        (omega (arith, length-take {0} 17 msg))

recv_short :
    (s : Fido) (msg : List ℕ)
    → Awaiting s
    → 0 < length msg
    → length msg ≤ 17
    → Received s (recv_all s (packets s.cmd_header msg)) (concat (packets s.cmd_header msg))
unfolding recv_all tails
recv_short s msg a h g =
    let none_left : blocks (length msg - 17) ≡ 0 = omega arith in
    rw (none_left, append-nil, short_state s msg a h g)
      (record { whole = refl; header = refl; clean = a.clean; told = refl })

recv_long :
    (s : Fido) (msg : List ℕ) (k : ℕ)
    → Awaiting s
    → 17 < length msg
    → length msg ≤ 2449
    → blocks (length msg - 17) ≡ suc k
    → Received s (recv_all s (packets s.cmd_header msg)) (concat (packets s.cmd_header msg))
unfolding recv_all
recv_long s msg k a h g e =
    let first : List ℕ = first_packet s.cmd_header msg in
    let back : List ℕ = concat (tails (suc k) 0 (drop 17 msg)) in
    let state = first_state s msg a h (omega arith) in
    let r =
      recv_tails (recv_call_back s first) (length msg) 0 k (take 17 msg) (drop 17 msg)
        (first-Pending s msg k a h g e) in
    rw e (record {
      whole =
          r.whole
          ∙ ap (λ (t : Fido). t.m_recv_msg ++ back) state
          ∙ append_assoc s.m_recv_msg first back;
      header = r.header ∙ ap (λ (t : Fido). t.cmd_header) state;
      clean = r.clean;
      told = r.told;
    })

-- A message of 1 to 2449 bytes arrives whole: after its last packet the buffer holds the packets one
-- after the other, no error is noted, and the sender is woken.
pub recv_all-packets :
    (s : Fido) (msg : List ℕ)
    → Awaiting s
    → 0 < length msg
    → length msg ≤ 2449
    → Received s (recv_all s (packets s.cmd_header msg)) (concat (packets s.cmd_header msg))
recv_all-packets s msg a h g = elim (Bool-cases (leb (length msg) 17)) [
  | inl short ↦ recv_short s msg a h (leb→le (length msg) 17 short)
  | inr long ↦ recv_long s msg (blocks (length msg - 17) - 1) a (ground arith) g (ground arith)
]

pub length-tails_list : (k f : ℕ) (xs : List ℕ) → length (tails k f xs) ≡ k
unfolding tails
length-tails_list zero f xs = refl
length-tails_list (suc k) f xs = ap suc (length-tails_list k (f + 1) (drop 19 xs))

early_long :
    (s : Fido) (msg : List ℕ) (k j : ℕ)
    → Awaiting s
    → 17 < length msg
    → length msg ≤ 2449
    → blocks (length msg - 17) ≡ suc k
    → j ≤ suc k
    → (recv_all s (take j (packets s.cmd_header msg))).notified ≡ s.notified
unfolding recv_all
early_long s msg k zero a h g e l = refl
early_long s msg k (suc j) a h g e l = rw e (
    recv_some_tails (recv_call_back s (first_packet s.cmd_header msg)) (length msg) 0 k j
      (take 17 msg) (drop 17 msg) (first-Pending s msg k a h g e) (omega arith)
    ∙ ap (λ (t : Fido). t.notified) (first_state s msg a h (omega arith)))

-- While packets are missing, nobody is woken: the wait ends with the last packet only.
pub recv_all-early :
    (s : Fido) (msg : List ℕ) (j : ℕ)
    → Awaiting s
    → length msg ≤ 2449
    → j < length (packets s.cmd_header msg)
    → (recv_all s (take j (packets s.cmd_header msg))).notified ≡ s.notified
unfolding recv_all
recv_all-early s msg zero a g l = refl
recv_all-early s msg (suc j) a g l =
    let count = length-tails_list (blocks (length msg - 17)) 0 (drop 17 msg) in
    early_long s msg (blocks (length msg - 17) - 1) (suc j) a (omega (arith, count)) g
      (omega (arith, count)) (omega (arith, count))

-- An answer of 1 to 509 bytes that the device sends in packets is recognised as complete when its
-- last packet is in, and `SendData` reads back exactly its bytes into a large enough buffer.
pub answer_round_trip :
    (s : Fido) (msg : List ℕ) (room : ℕ)
    → Awaiting s
    → 0 < length msg
    → length msg ≤ 509
    → length msg ≤ room
    → let t = recv_all s (packets s.cmd_header msg) in
      ((check_response t).0 ≡ done)
      × (t.notified ≡ true)
      × (parse_fido_apdu t.m_recv_msg (some room) ≡ ok msg)
answer_round_trip s msg room a h g l =
    let header = s.cmd_header in
    let back : List ℕ = take 17 msg ++ concat (tails (blocks (length msg - 17)) 0 (drop 17 msg)) in
    let r = recv_all-packets s msg a h (omega arith) in
    let bytes : (recv_all s (packets header msg)).m_recv_msg ≡ concat (packets header msg) =
      r.whole ∙ ap (λ (xs : List ℕ). xs ++ concat (packets header msg)) a.nothing in
    let size = length-packets header msg in
    (
      ap (λ (c : ResponseStatus × Fido). c.0)
          (check_response_done (recv_all s (packets header msg)) (length msg) back
            (bytes
              ∙ ap (λ (b : ℕ). b ∷ length msg / 2 ^ 8 % 2 ^ 8 ∷ length msg % 2 ^ 8 ∷ back)
                  (sym r.header))
            (omega arith) (omega arith) (omega arith)),
      r.told,
      rw bytes (parse_fido_apdu-packets header msg room g l),
    )

check_header-m_recv_msg :
    (f : Fido) (bytes : List ℕ) → (check_header f bytes).1.m_recv_msg ≡ f.m_recv_msg
unfolding check_header
check_header-m_recv_msg f [] = refl
check_header-m_recv_msg f (b0 ∷ []) = refl
check_header-m_recv_msg f (b0 ∷ b1 ∷ []) = refl
check_header-m_recv_msg f (b0 ∷ b1 ∷ b2 ∷ rest) = ground arith

-- Looking at the packets leaves them in place.
pub check_response-m_recv_msg : (f : Fido) → (check_response f).1.m_recv_msg ≡ f.m_recv_msg
unfolding check_response
check_response-m_recv_msg f = ground (arith, check_header-m_recv_msg f f.m_recv_msg)

check_header-notified :
    (f : Fido) (b : Bool) (bytes : List ℕ)
    → (check_header (record f { notified = b }) bytes).0 ≡ (check_header f bytes).0
unfolding check_header
check_header-notified f b [] = refl
check_header-notified f b (b0 ∷ []) = refl
check_header-notified f b (b0 ∷ b1 ∷ []) = refl
check_header-notified f b (b0 ∷ b1 ∷ b2 ∷ rest) = ground arith

-- What the packets amount to does not depend on whether the sender was woken.
pub check_response-notified :
    (f : Fido) (b : Bool) → (check_response (record f { notified = b })).0 ≡ (check_response f).0
unfolding check_response
check_response-notified f b = ground (arith, check_header-notified f b f.m_recv_msg)
