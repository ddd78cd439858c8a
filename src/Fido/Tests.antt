-- ===== src/Fido/Tests.antt =====
-- The packet protocol of src/device/Fido.cpp at concrete messages.
use jubiter_sdk_c.Common.{
  ℕ, ◌≡◌, refl, inl, ◌++◌, true, false, some, List, [], ◌∷◌, replicate, take, concat, ok, fault,
  arith,
}
use jubiter_sdk_c.Fido.{Fido, done, receiving, check_response, wrap_fido_apdu, parse_fido_apdu}
use jubiter_sdk_c.Fido.Packets.{packets, tails}
use jubiter_sdk_c.Fido.Wrap.{wrap_fido_apdu-packets}
use jubiter_sdk_c.Fido.Unwrap.{parse_fido_apdu_overflow}
use jubiter_sdk_c.Fido.Receive.{recv_all}
use jubiter_sdk_c.Fido.RoundTrip.{Awaiting, recv_all-early, answer_round_trip}
use jubiter_sdk_c.Fido.Sequence.{recv_all_out_of_order}

abbrev idle : Fido
idle = record {
  m_recv_msg = [];
  cmd_header = 0x83;
  pkg_seq = 0;
  has_error = false;
  notified = false;
}

idle-Awaiting : Awaiting idle
idle-Awaiting = record {
  nothing = refl;
  clean = refl;
  at_start = refl;
  plain = (ground arith, ground arith);
}

abbrev answer : List ℕ
answer = replicate 40 7

answer_round_trip_example :
    ((check_response (recv_all idle (packets 0x83 answer))).0 ≡ done)
    × ((recv_all idle (packets 0x83 answer)).notified ≡ true)
    × (parse_fido_apdu (recv_all idle (packets 0x83 answer)).m_recv_msg (some 64) ≡ ok answer)
answer_round_trip_example =
    answer_round_trip idle answer 64 idle-Awaiting (omega arith) (omega arith) (omega arith)

recv_all-early_example : (recv_all idle (take 2 (packets 0x83 answer))).notified ≡ false
unfolding tails
recv_all-early_example = recv_all-early idle answer 2 idle-Awaiting (omega arith) (omega arith)

wrap_fido_apdu-packets_example :
    wrap_fido_apdu idle 0x83 answer (some 64) ≡ (idle, ok (concat (packets 0x83 answer)))
wrap_fido_apdu-packets_example = wrap_fido_apdu-packets idle 0x83 answer 64 (omega arith)

parse_fido_apdu_overflow_example :
    parse_fido_apdu (concat (packets 0x83 (replicate 510 7))) (some 1024) ≡ fault
parse_fido_apdu_overflow_example =
    parse_fido_apdu_overflow 0x83 (replicate 510 7) 1024 (omega arith) (omega arith)

-- A message in the first packet and five others, of which the second one is lost.
abbrev long_answer : List ℕ
long_answer = replicate 100 7

recv_all_out_of_order_example :
    let before = recv_all idle (take 2 (packets 0x83 long_answer)) in
    let after =
      recv_all idle (take 2 (packets 0x83 long_answer) ++ ((2 ∷ 7 ∷ []) ∷ (1 ∷ 7 ∷ []) ∷ [])) in
    (after ≡ record before { has_error = true; notified = true })
    × ((check_response after).0 ≡ receiving)
unfolding tails
recv_all_out_of_order_example =
    recv_all_out_of_order idle long_answer 1 2 (7 ∷ []) ((1 ∷ 7 ∷ []) ∷ []) idle-Awaiting
      (omega arith) (omega arith) (omega arith) (inl (omega arith)) (omega arith) (omega arith)
