-- ===== src/Fido/Packets.antt =====
-- The packets that a message travels in, as plain lists.
use jubiter_sdk_c.Common.{ℕ, zero, suc, ◌+◌, ◌-◌, ◌/◌, ◌%◌, ◌^◌, List, [], ◌∷◌, length, take, drop}

-- `k` continuation packets, numbered from `f` on: an index byte and at most 19 bytes each.
unfoldable pub tails : ℕ → ℕ → List ℕ → List (List ℕ)
tails zero f xs = []
tails (suc k) f xs = (f % 2 ^ 8 ∷ take 19 xs) ∷ tails k (f + 1) (drop 19 xs)

-- How many blocks of 19 bytes hold `n` bytes.
abbrev pub blocks : ℕ → ℕ
blocks n = (n + 18) / 19

-- The first packet: the command, two bytes of length, and at most 17 bytes.
abbrev pub first_packet : ℕ → List ℕ → List ℕ
first_packet header msg = header ∷ length msg / 2 ^ 8 % 2 ^ 8 ∷ length msg % 2 ^ 8 ∷ take 17 msg

abbrev pub packets : ℕ → List ℕ → List (List ℕ)
packets header msg = first_packet header msg ∷ tails (blocks (length msg - 17)) 0 (drop 17 msg)
