-- ===== src/Fido/Receive.antt =====
-- `RecvCallBack` over the packets of a message.
use jubiter_sdk_c.Common.{
  ℕ, zero, suc, ◌+◌, ◌-◌, ◌/◌, ◌%◌, ◌^◌, ◌≤◌, ◌<◌, ◌≡◌, refl, ap, ◌∙◌, true, false, List, [], ◌∷◌,
  ◌++◌, append_assoc, append-nil, length, take, drop, concat, length-drop, length-append,
  length-take, leb, ◌==◌, ==_self, le→leb, leb-false, lt→ltb, if◌then◌else◌, arith,
}
use jubiter_sdk_c.Fido.{
  Fido, receiving, done, f_len, check_response, merge_package, recv_call_back, seq_ok,
}
use jubiter_sdk_c.Fido.Packets.{tails, blocks}
use jubiter_sdk_c.Fido.Unwrap.{ctoi_length}

-- The packets reach the callback one by one.
unfoldable pub recv_all : Fido → List (List ℕ) → Fido
recv_all f [] = f
recv_all f (p ∷ ps) = recv_all (recv_call_back f p) ps

-- The number of continuation packets that the receiver works out is that of the sender.
f_len-blocks : (n : ℕ) → f_len n ≡ blocks (n - 17)
f_len-blocks n = ground arith

-- `CHECK_SEQ` accepts the number that follows, up to the 128th continuation packet.
seq_ok_next : (f : ℕ) → f < 128 → seq_ok (f % 2 ^ 8) (f - 1) ≡ true
seq_ok_next zero h = refl
seq_ok_next (suc f) h = ground arith

suc-eq-zero : (n : ℕ) → (suc n == 0) ≡ false
suc-eq-zero n = ground arith

index_ne : (f c : ℕ) → f < 128 → 128 ≤ c → (f % 2 ^ 8 == c) ≡ false
index_ne f c h g = ground arith

-- A buffer that starts with the header of `n` bytes is whole once all continuation packets are in.
pub check_response_lem :
    (f : Fido) (n : ℕ) (rest : List ℕ)
    → f.m_recv_msg ≡ f.cmd_header ∷ n / 2 ^ 8 % 2 ^ 8 ∷ n % 2 ^ 8 ∷ rest
    → n < 2 ^ 16
    → 0 < length rest
    → check_response f ≡ (
        if leb (n + 3 + blocks (n - 17)) (suc (suc (suc (length rest))))
        then (done, f)
        else (receiving, f))
unfolding check_response
check_response_lem f n rest e h g = rw (
  e,
  suc-eq-zero (suc (suc (length rest))),
  leb-false (suc (suc (suc (length rest)))) 3 (omega arith),
  ==_self f.cmd_header,
  ctoi_length n h,
  f_len-blocks n,
)

pub check_response_done :
    (f : Fido) (n : ℕ) (rest : List ℕ)
    → f.m_recv_msg ≡ f.cmd_header ∷ n / 2 ^ 8 % 2 ^ 8 ∷ n % 2 ^ 8 ∷ rest
    → n < 2 ^ 16
    → 0 < length rest
    → n + blocks (n - 17) ≤ length rest
    → check_response f ≡ (done, f)
check_response_done f n rest e h g l =
    check_response_lem f n rest e h g
    ∙ rw (le→leb (n + 3 + blocks (n - 17)) (suc (suc (suc (length rest)))) (omega arith))

pub merge_receiving :
    (f : Fido) (n : ℕ) (rest packet : List ℕ)
    → f.m_recv_msg ++ packet ≡ f.cmd_header ∷ n / 2 ^ 8 % 2 ^ 8 ∷ n % 2 ^ 8 ∷ rest
    → n < 2 ^ 16
    → 0 < length rest
    → length rest < n + blocks (n - 17)
    → merge_package f packet ≡ record f { m_recv_msg = f.m_recv_msg ++ packet }
unfolding merge_package
merge_receiving f n rest packet e h g l = rw (
  check_response_lem (record f { m_recv_msg = f.m_recv_msg ++ packet }) n rest e h g,
  leb-false (n + 3 + blocks (n - 17)) (suc (suc (suc (length rest)))) (omega arith),
)

pub merge_done :
    (f : Fido) (n : ℕ) (rest packet : List ℕ)
    → f.m_recv_msg ++ packet ≡ f.cmd_header ∷ n / 2 ^ 8 % 2 ^ 8 ∷ n % 2 ^ 8 ∷ rest
    → n < 2 ^ 16
    → 0 < length rest
    → n + blocks (n - 17) ≤ length rest
    → merge_package f packet ≡ record f { m_recv_msg = f.m_recv_msg ++ packet; notified = true }
unfolding merge_package
merge_done f n rest packet e h g l =
    rw (check_response_done (record f { m_recv_msg = f.m_recv_msg ++ packet }) n rest e h g l)

-- The state after the packets up to number `f`, with `xs` still to come.
pub record Pending (s : Fido) (n f k : ℕ) (rest xs : List ℕ) : Type 0 where
  pub fits : n < 2 ^ 16
  pub clean : s.has_error ≡ false
  pub numbered : s.pkg_seq ≡ f - 1
  pub buffered : s.m_recv_msg ≡ s.cmd_header ∷ n / 2 ^ 8 % 2 ^ 8 ∷ n % 2 ^ 8 ∷ rest
  pub some_in : 0 < length rest
  pub to_come : blocks (length xs) ≡ k
  pub counted : length rest + length xs + k ≡ n + blocks (n - 17)
  pub few : f + k ≤ 128

-- A continuation packet in its turn is passed on to be merged.
recv_tail :
    (s : Fido) (n f k : ℕ) (rest xs : List ℕ)
    → Pending s n f (suc k) rest xs
    → recv_call_back s (f % 2 ^ 8 ∷ take 19 xs)
      ≡ merge_package (record s { pkg_seq = f % 2 ^ 8 }) (f % 2 ^ 8 ∷ take 19 xs)
unfolding recv_call_back
recv_tail s n f k rest xs p = rw (
  p.clean,
  index_ne f 130 (omega arith) (omega arith),
  index_ne f 191 (omega arith) (omega arith),
  lt→ltb 0 (length s.m_recv_msg) (omega (arith, ap length p.buffered)),
  p.numbered,
  seq_ok_next f (omega arith),
)

grown :
    (s : Fido) (a b : ℕ) (rest more : List ℕ)
    → s.m_recv_msg ≡ s.cmd_header ∷ a ∷ b ∷ rest
    → s.m_recv_msg ++ more ≡ s.cmd_header ∷ a ∷ b ∷ (rest ++ more)
grown s a b rest more e = ap (λ (xs : List ℕ). xs ++ more) e

recv_next_state :
    (s : Fido) (n f k : ℕ) (rest xs : List ℕ)
    → Pending s n f (suc (suc k)) rest xs
    → recv_call_back s (f % 2 ^ 8 ∷ take 19 xs)
      ≡ record s { m_recv_msg = s.m_recv_msg ++ (f % 2 ^ 8 ∷ take 19 xs); pkg_seq = f % 2 ^ 8 }
recv_next_state s n f k rest xs p =
    let packet : List ℕ = f % 2 ^ 8 ∷ take 19 xs in
    recv_tail s n f (suc k) rest xs p
    ∙ merge_receiving (record s { pkg_seq = f % 2 ^ 8 }) n (rest ++ packet) packet
        (grown s (n / 2 ^ 8 % 2 ^ 8) (n % 2 ^ 8) rest packet p.buffered) p.fits
        (rw (length-append rest packet) (omega arith))
        (rw (length-append rest packet) (omega (arith, length-take {0} 19 xs)))

-- A packet that is not the last is added, and the state is pending again.
pub recv_next :
    (s : Fido) (n f k : ℕ) (rest xs : List ℕ)
    → Pending s n f (suc (suc k)) rest xs
    → Pending
        (recv_call_back s (f % 2 ^ 8 ∷ take 19 xs))
        n
        (f + 1)
        (suc k)
        (rest ++ (f % 2 ^ 8 ∷ take 19 xs))
        (drop 19 xs)
recv_next s n f k rest xs p = rw (recv_next_state s n f k rest xs p) (record {
  fits = p.fits;
  clean = p.clean;
  numbered = omega arith;
  buffered = grown s (n / 2 ^ 8 % 2 ^ 8) (n % 2 ^ 8) rest (f % 2 ^ 8 ∷ take 19 xs) p.buffered;
  some_in = rw (length-append rest (f % 2 ^ 8 ∷ take 19 xs)) (omega arith);
  to_come = omega (arith, length-drop {0} 19 xs);
  counted =
      rw (length-append rest (f % 2 ^ 8 ∷ take 19 xs))
        (omega (arith, length-take {0} 19 xs, length-drop {0} 19 xs));
  few = omega arith;
})

-- The last packet completes the message.
recv_last :
    (s : Fido) (n f : ℕ) (rest xs : List ℕ)
    → Pending s n f 1 rest xs
    → recv_call_back s (f % 2 ^ 8 ∷ take 19 xs) ≡ record s {
      m_recv_msg = s.m_recv_msg ++ (f % 2 ^ 8 ∷ take 19 xs);
      pkg_seq = f % 2 ^ 8;
      notified = true;
    }
recv_last s n f rest xs p =
    let packet : List ℕ = f % 2 ^ 8 ∷ take 19 xs in
    recv_tail s n f 0 rest xs p
    ∙ merge_done (record s { pkg_seq = f % 2 ^ 8 }) n (rest ++ packet) packet
        (grown s (n / 2 ^ 8 % 2 ^ 8) (n % 2 ^ 8) rest packet p.buffered) p.fits
        (rw (length-append rest packet) (omega arith))
        (rw (length-append rest packet) (omega (arith, length-take {0} 19 xs)))

-- What the state is once a message is in.
pub record Received (s t : Fido) (bytes : List ℕ) : Type 0 where
  pub whole : t.m_recv_msg ≡ s.m_recv_msg ++ bytes
  pub header : t.cmd_header ≡ s.cmd_header
  pub clean : t.has_error ≡ false
  pub told : t.notified ≡ true

pub recv_tails :
    (s : Fido) (n f k : ℕ) (rest xs : List ℕ)
    → Pending s n f (suc k) rest xs
    → Received s (recv_all s (tails (suc k) f xs)) (concat (tails (suc k) f xs))
unfolding recv_all tails
recv_tails s n f zero rest xs p =
    rw (recv_last s n f rest xs p)
      (record { whole = rw append-nil; header = refl; clean = p.clean; told = refl })
recv_tails s n f (suc k) rest xs p =
    let packet : List ℕ = f % 2 ^ 8 ∷ take 19 xs in
    let r =
      recv_tails (recv_call_back s packet) n (f + 1) k (rest ++ packet) (drop 19 xs)
        (recv_next s n f k rest xs p) in
    let e = recv_next_state s n f k rest xs p in
    record {
      whole =
          r.whole
          ∙ ap (λ (t : Fido). t.m_recv_msg ++ concat (tails (suc k) (f + 1) (drop 19 xs))) e
          ∙ append_assoc s.m_recv_msg packet (concat (tails (suc k) (f + 1) (drop 19 xs)));
      header = r.header ∙ ap (λ (t : Fido). t.cmd_header) e;
      clean = r.clean;
      told = r.told;
    }

-- Nobody is woken before the last packet is in.
pub recv_some_tails :
    (s : Fido) (n f k j : ℕ) (rest xs : List ℕ)
    → Pending s n f (suc k) rest xs
    → j ≤ k
    → (recv_all s (take j (tails (suc k) f xs))).notified ≡ s.notified
unfolding recv_all tails
recv_some_tails s n f k zero rest xs p h = refl
recv_some_tails s n f zero (suc j) rest xs p h = absurd (omega arith)
recv_some_tails s n f (suc k) (suc j) rest xs p h =
    recv_some_tails (recv_call_back s (f % 2 ^ 8 ∷ take 19 xs)) n (f + 1) k j
      (rest ++ (f % 2 ^ 8 ∷ take 19 xs)) (drop 19 xs) (recv_next s n f k rest xs p) (omega arith)
    ∙ ap (λ (t : Fido). t.notified) (recv_next_state s n f k rest xs p)
