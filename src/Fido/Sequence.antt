-- ===== src/Fido/Sequence.antt =====
-- Packets out of turn: `CHECK_SEQ` and `RecvCallBack` in src/device/Fido.cpp.
use jubiter_sdk_c.Common.{
  ℕ, zero, suc, ◌+◌, ◌≤◌, ◌≢◌, ◌⊎◌, inl, inr, ◌*◌, ◌<◌, ◌≡◌, refl, ap, ◌∙◌, true, false, List, [],
  ◌∷◌, ◌++◌, length, take, length-append, ◌-◌, ◌/◌, ◌%◌, ◌^◌, ltb, lt→ltb, ◌==◌, arith,
}
use jubiter_sdk_c.Fido.{Fido, receiving, check_response, recv_call_back, seq_ok}
use jubiter_sdk_c.Fido.Receive.{recv_all, merge_receiving}
use jubiter_sdk_c.Fido.Packets.{blocks, packets}
use jubiter_sdk_c.Fido.RoundTrip.{Awaiting}
use jubiter_sdk_c.Fido.Prefix.{recv_all-append, prefix-Pending, check_response-Pending}

recv_stopped : (s : Fido) (p : List ℕ) → s.has_error ≡ true → recv_call_back s p ≡ s
unfolding recv_call_back
recv_stopped s [] e = refl
recv_stopped s (b ∷ bs) e = simp e

recv_all_stopped : (s : Fido) (ps : List (List ℕ)) → s.has_error ≡ true → recv_all s ps ≡ s
unfolding recv_all
recv_all_stopped s [] e = refl
recv_all_stopped s (p ∷ ps) e =
    ap (λ (t : Fido). recv_all t ps) (recv_stopped s p e) ∙ recv_all_stopped s ps e

recv_all_refused :
    (s : Fido) (b : ℕ) (bs : List ℕ) (ps : List (List ℕ))
    → s.has_error ≡ false
    → 0 < length s.m_recv_msg
    → (b == 0x82) ≡ false
    → (b == 0xBF) ≡ false
    → seq_ok b s.pkg_seq ≡ false
    → recv_all s ((b ∷ bs) ∷ ps) ≡ record s { has_error = true; notified = true }
unfolding recv_all recv_call_back
recv_all_refused s b bs ps clean some_in plain no_error turn =
    rw (clean, plain, no_error, lt→ltb 0 (length s.m_recv_msg) some_in, turn)
      (recv_all_stopped (record s { has_error = true; notified = true }) ps refl)

-- `CHECK_SEQ` refuses a number that is not the one that follows, but takes 0 and 1 for each other.
seq_refused : (b j : ℕ) → b ≢ j → (1 < b) ⊎ (1 < j) → seq_ok b (j - 1) ≡ false
seq_refused b zero n (inl h) = ground arith
seq_refused b zero n (inr h) = absurd (omega arith)
seq_refused b (suc zero) n (inl h) = ground arith
seq_refused b (suc zero) n (inr h) = absurd (omega arith)
seq_refused b (suc (suc j)) n h = ground arith

-- An awaiting receiver gets the first packet of a message of at most 2449 bytes and `j` of its
-- continuation packets in order, with some still missing, and then a packet that has another number
-- than `j`, the number of the next one, where that number or `j` is more than 1; 0x82 and 0xBF are no
-- numbers. The packet is not merged, the error is marked, the waiter is woken, and whatever follows
-- changes nothing: the message is never taken for complete.
pub recv_all_out_of_order :
    (s : Fido) (msg : List ℕ) (j b : ℕ) (bs : List ℕ) (ps : List (List ℕ))
    → Awaiting s
    → length msg ≤ 2449
    → suc j < length (packets s.cmd_header msg)
    → b ≢ j
    → (1 < b) ⊎ (1 < j)
    → b ≢ 0x82
    → b ≢ 0xBF
    → let before = recv_all s (take (suc j) (packets s.cmd_header msg)) in
      let after = recv_all s (take (suc j) (packets s.cmd_header msg) ++ ((b ∷ bs) ∷ ps)) in
      (after ≡ record before { has_error = true; notified = true })
      × ((check_response after).0 ≡ receiving)
recv_all_out_of_order s msg j b bs ps a g l n large plain no_error =
    let t : Fido = recv_all s (take (suc j) (packets s.cmd_header msg)) in
    let (left, more, xs, p) = prefix-Pending s msg j a g l in
    let refused : seq_ok b t.pkg_seq ≡ false = ap (seq_ok b) p.numbered ∙ seq_refused b j n large in
    let e =
      recv_all-append s (take (suc j) (packets s.cmd_header msg)) ((b ∷ bs) ∷ ps)
      ∙ recv_all_refused t b bs ps p.clean (omega (arith, ap length p.buffered)) (ground arith)
          (ground arith) refused in
    (
      e,
      ap (λ (f : Fido). (check_response f).0) e
          ∙ check_response-Pending t (length msg) j left more xs true true p,
    )

recv_zero :
    (s : Fido) (n : ℕ) (rest xs : List ℕ)
    → s.has_error ≡ false
    → s.pkg_seq ≡ 0
    → s.m_recv_msg ≡ s.cmd_header ∷ n / 2 ^ 8 % 2 ^ 8 ∷ n % 2 ^ 8 ∷ rest
    → n < 2 ^ 16
    → length rest + suc (length xs) < n + blocks (n - 17)
    → recv_call_back s (0 ∷ xs)
      ≡ record s { m_recv_msg = s.m_recv_msg ++ (0 ∷ xs); pkg_seq = 0; has_error = false }
unfolding recv_call_back
recv_zero s n rest xs clean first held h g =
    let some_in : ltb 0 (length s.m_recv_msg) ≡ true =
      rw held (lt→ltb 0 (suc (suc (suc (length rest)))) (omega arith)) in
    let t : Fido = record s { pkg_seq = 0; has_error = false } in
    let size = length-append rest (0 ∷ xs) in
    let merged =
      merge_receiving t n (rest ++ (0 ∷ xs)) (0 ∷ xs) (rw held) h (omega (arith, size))
        (omega (arith, size)) in
    let turn : seq_ok 0 s.pkg_seq ≡ true = rw first in simp (clean, some_in, turn) merged

-- The packet numbered 0 is accepted again while no other continuation packet has come: its bytes are
-- merged twice.
pub recv_all_duplicate :
    (s : Fido) (n : ℕ) (rest xs : List ℕ)
    → s.has_error ≡ false
    → s.pkg_seq ≡ 0
    → s.m_recv_msg ≡ s.cmd_header ∷ n / 2 ^ 8 % 2 ^ 8 ∷ n % 2 ^ 8 ∷ rest
    → n < 2 ^ 16
    → length rest + 2 * suc (length xs) < n + blocks (n - 17)
    → recv_all s ((0 ∷ xs) ∷ (0 ∷ xs) ∷ []) ≡ record s {
      m_recv_msg = (s.m_recv_msg ++ (0 ∷ xs)) ++ (0 ∷ xs);
      pkg_seq = 0;
      has_error = false;
    }
unfolding recv_all
recv_all_duplicate s n rest xs clean first held h g =
    let size = length-append rest (0 ∷ xs) in
    let once = recv_zero s n rest xs clean first held h (omega arith) in
    let t : Fido = record s {
      m_recv_msg = s.m_recv_msg ++ (0 ∷ xs);
      pkg_seq = 0;
      has_error = false;
    } in
    let twice = recv_zero t n (rest ++ (0 ∷ xs)) xs refl refl (rw held) h (omega (arith, size)) in
    ap (λ (u : Fido). recv_call_back u (0 ∷ xs)) once ∙ twice
