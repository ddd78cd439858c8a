-- ===== src/Pb/Varint.antt =====
-- pbparse/pb_basevarint.cpp. An int64_t and a uint64_t are the same 64 bits, a number below 2 ^ 64.
use Prim.Native.Nat.{bit_or}
use jubiter_sdk_c.Common.{
  ℕ, zero, suc, ◌+◌, ◌-◌, ◌/◌, ◌%◌, ◌^◌, not, List, [], ◌∷◌, ltb, leb, ◌==◌, if◌then◌else◌, length,
  take, replicate, ◌++◌, Outcome, ok, fault, stuck, ◌>>=◌, ◌>>◌, check,
}

-- The largest number of bytes of 64 bits, 7 in a byte.
abbrev pub max_bytes : ℕ
max_bytes = 10

-- `while (value >= 0x80)` on an `int64_t` that is not negative.
unfoldable pub size_loop : ℕ → ℕ → Outcome ℕ
size_loop zero value = stuck
size_loop (suc fuel) value =
    let rest = size_loop fuel (value / 2 ^ 7) in
    if ltb value 0x80 then ok 1 else (rest >>= λ n. ok (suc n))

-- `size`: the comparison is of signed numbers, and a negative one is below 0x80 at once.
unfoldable pub size : ℕ → Outcome ℕ
size v = if leb (2 ^ 63) v then ok 1 else size_loop max_bytes v

-- `enc[index] = byte`.
unfoldable pub write : List ℕ → ℕ → ℕ → Outcome (List ℕ)
write [] index byte = fault
write (x ∷ xs) zero byte = ok (byte ∷ xs)
write (x ∷ xs) (suc index) byte = write xs index byte >>= λ ys. ok (x ∷ ys)

-- `while (value >= 0x80)` on a `uint64_t`, and the last byte behind it. The byte that is kept of
-- `value | 0x80` is that of the low byte of `value`.
unfoldable pub encode_loop : ℕ → ℕ → ℕ → List ℕ → Outcome (List ℕ)
encode_loop zero value index enc = stuck
encode_loop (suc fuel) value index enc =
    let more = write enc index (bit_or (value % 2 ^ 8) 0x80) >>= λ enc'.
    encode_loop fuel (value / 2 ^ 7) (index + 1) enc' in
    if ltb value 0x80 then write enc index (value % 2 ^ 8) else more

-- `resize`: the first bytes stay, and zeros are put behind them.
unfoldable pub resize : ℕ → List ℕ → List ℕ
resize n enc = take n enc ++ replicate (n - length enc) 0

unfoldable pub encode : ℕ → List ℕ → Outcome (List ℕ)
encode v enc = do sz ← size v; check (not (sz == 0)) 0; encode_loop max_bytes v 0 (resize sz enc)
