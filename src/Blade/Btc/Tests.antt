-- ===== src/Blade/Btc/Tests.antt =====
-- A signed transaction of three bytes.
use jubiter_sdk_c.Common.{ℕ, List, [], ◌∷◌, ◌++◌, take, get_or, Outcome, ok}

abbrev signed : List ℕ
signed = 1 ∷ 2 ∷ 3 ∷ []

-- The last byte of a command tells how much is read.
abbrev serving : List ℕ → ℕ → Outcome (List ℕ) × ℕ
serving command d = (ok (take (get_or command 4 0) signed ++ 0x90 ∷ 0x00 ∷ []), d)

command_of : ℕ → List ℕ
command_of size = 0x00 ∷ 0xF9 ∷ 0x00 ∷ 0x00 ∷ size ∷ []
