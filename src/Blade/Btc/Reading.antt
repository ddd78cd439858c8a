-- ===== src/Blade/Btc/Reading.antt =====
-- How a signed transaction is read from a Blade.
use jubiter_sdk_c.Common.{
  ℕ, ◌+◌, ◌-◌, ◌*◌, ◌≤◌, ◌<◌, ◌≡◌, some, List, [], ◌∷◌, ◌++◌, length, take, drop, replicate,
  Outcome, ok,
}
use jubiter_sdk_c.Apdu.Format.{build_apdu}
use jubiter_sdk_c.Blade.Send.{Sent}
use jubiter_sdk_c.Blade.Btc.{read_command}

-- The answer of `bytes` with the status 0x9000.
abbrev pub answer_of : List ℕ → Sent
answer_of bytes = record { w_ret = 0x9000; ret_len = some (length bytes); ret_data = bytes }

abbrev success : List ℕ
success = 0x90 ∷ 0x00 ∷ []

zeros : ℕ → List ℕ
zeros n = replicate n 0

-- What is read so far, in a buffer of zeros.
abbrev filled : ℕ → List ℕ → List ℕ
filled o raw = take o raw ++ zeros (length raw - o)

module _ {D : Type 0} (send : List ℕ → D → Outcome (List ℕ) × D) (raw : List ℕ) (d : D) where
  -- A device in the state `d` that answers every command that reads a part of `raw` with that part, and
  -- stays in that state.
  abbrev pub Serves : Type 0
  Serves =
      (times size : ℕ) (bytes : List ℕ)
      → times * 256 + size ≤ length raw
      → 0 < size
      → size ≤ 256
      → build_apdu (read_command times size) [] ≡ ok bytes
      → send bytes d ≡ (ok (take size (drop (times * 256) raw) ++ 0x90 ∷ 0x00 ∷ []), d)
