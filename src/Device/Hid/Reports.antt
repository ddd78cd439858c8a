-- ===== src/Device/Hid/Reports.antt =====
-- The reports that a message travels in, as plain lists.
use jubiter_sdk_c.Common.{
  ℕ, zero, suc, ◌+◌, ◌-◌, ◌/◌, ◌%◌, ◌^◌, List, [], ◌∷◌, ◌++◌, length, take, drop,
}
use jubiter_sdk_c.Device.Hid.{cid}

-- `k` reports behind the first, numbered from `f` on: the channel, a number, and at most 59 bytes.
unfoldable pub tail_reports : ℕ → ℕ → List ℕ → List (List ℕ)
tail_reports zero f xs = []
tail_reports (suc k) f xs = (cid ++ f % 2 ^ 8 ∷ take 59 xs) ∷ tail_reports k (f + 1) (drop 59 xs)

-- How many blocks of 59 bytes hold `n` bytes.
abbrev pub blocks : ℕ → ℕ
blocks n = (n + 58) / 59

abbrev pub first_report : List ℕ → List ℕ
first_report msg = cid ++ 0x83 ∷ length msg / 2 ^ 8 % 2 ^ 8 ∷ length msg % 2 ^ 8 ∷ take 57 msg

abbrev pub reports : List ℕ → List (List ℕ)
reports msg = first_report msg ∷ tail_reports (blocks (length msg - 57)) 0 (drop 57 msg)
