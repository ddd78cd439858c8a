-- ===== src/Fido/Prefix.antt =====
-- The receiver of src/device/Fido.cpp while packets of a message are missing.
use jubiter_sdk_c.Common.{
  ℕ, zero, suc, ◌+◌, ◌-◌, ◌≤◌, ◌<◌, ◌≡◌, refl, Bool, List, [], ◌∷◌, ◌++◌, length, take, drop,
  leb-false, ◌%◌, ◌^◌, arith,
}
use jubiter_sdk_c.Fido.{Fido, receiving, recv_call_back, check_response}
use jubiter_sdk_c.Fido.Packets.{tails, blocks, packets, first_packet}
use jubiter_sdk_c.Fido.Receive.{recv_all, Pending, recv_next, check_response_lem}
use jubiter_sdk_c.Fido.RoundTrip.{Awaiting, first-Pending, length-tails_list}

pub recv_all-append :
    (s : Fido) (ps qs : List (List ℕ)) → recv_all s (ps ++ qs) ≡ recv_all (recv_all s ps) qs
unfolding recv_all
recv_all-append s [] qs = refl
recv_all-append s (p ∷ ps) qs = recv_all-append (recv_call_back s p) ps qs

pub some_tails-Pending :
    (s : Fido) (n f k j : ℕ) (rest xs : List ℕ)
    → Pending s n f (suc k) rest xs
    → j ≤ k
    → (more : List ℕ) × (left : List ℕ) × Pending
        (recv_all s (take j (tails (suc k) f xs)))
        n
        (f + j)
        (suc (k - j))
        more
        left
unfolding recv_all tails
some_tails-Pending s n f k zero rest xs p h =
    let e : f + 0 ≡ f = omega arith in let g : k - 0 ≡ k = omega arith in (rest, xs, rw (e, g) p)
some_tails-Pending s n f zero (suc j) rest xs p h = absurd (omega arith)
some_tails-Pending s n f (suc k) (suc j) rest xs p h =
    let e : f + suc j ≡ f + 1 + j = omega arith in
    let g : suc k - suc j ≡ k - j = omega arith in
    rw (e, g)
      (some_tails-Pending (recv_call_back s (f % 2 ^ 8 ∷ take 19 xs)) n (f + 1) k j
        (rest ++ (f % 2 ^ 8 ∷ take 19 xs)) (drop 19 xs) (recv_next s n f k rest xs p) (omega arith))

prefix_long :
    (s : Fido) (msg : List ℕ) (j k : ℕ)
    → Awaiting s
    → 17 < length msg
    → length msg ≤ 2449
    → blocks (length msg - 17) ≡ suc k
    → j ≤ k
    → (left : ℕ) × (more : List ℕ) × (xs : List ℕ) × Pending
        (recv_all s (take (suc j) (packets s.cmd_header msg)))
        (length msg)
        j
        (suc left)
        more
        xs
unfolding recv_all
prefix_long s msg j k a h g e l =
    let (more, xs, p) =
      some_tails-Pending (recv_call_back s (first_packet s.cmd_header msg)) (length msg) 0 k j
        (take 17 msg) (drop 17 msg) (first-Pending s msg k a h g e) l in
    let start : 0 + j ≡ j = omega arith in rw e (k - j, more, xs, rw start at p)

-- A receiver that has the first packet, and `j` others in their turn.
pub prefix-Pending :
    (s : Fido) (msg : List ℕ) (j : ℕ)
    → Awaiting s
    → length msg ≤ 2449
    → suc j < length (packets s.cmd_header msg)
    → (left : ℕ) × (more : List ℕ) × (xs : List ℕ) × Pending
        (recv_all s (take (suc j) (packets s.cmd_header msg)))
        (length msg)
        j
        (suc left)
        more
        xs
prefix-Pending s msg j a g l =
    let count = length-tails_list (blocks (length msg - 17)) 0 (drop 17 msg) in
    prefix_long s msg j (blocks (length msg - 17) - 1) a (omega (arith, count)) g
      (omega (arith, count)) (omega (arith, count))

-- With packets missing, the message is not complete, whatever the flags say.
pub check_response-Pending :
    (s : Fido) (n f k : ℕ) (rest xs : List ℕ) (error told : Bool)
    → Pending s n f (suc k) rest xs
    → (check_response (record s { has_error = error; notified = told })).0 ≡ receiving
check_response-Pending s n f k rest xs error told p =
    let t : Fido = record s { has_error = error; notified = told } in
    rw (
      check_response_lem t n rest p.buffered p.fits p.some_in,
      leb-false (n + 3 + blocks (n - 17)) (suc (suc (suc (length rest))))
          (omega (arith, p.counted)),
    )
