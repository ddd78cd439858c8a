-- ===== src/Gpc/Kdf.antt =====
-- `kdf2_sha256` of gpc/src/scp11.cpp, on a machine whose numbers start with their low byte. SHA-256
-- belongs to TrezorCrypto, and is a parameter.
pub mod Blocks
mod Tests
use jubiter_sdk_c.Common.{
  ℕ, zero, suc, ◌+◌, ◌-◌, ◌*◌, ◌/◌, ◌%◌, ◌^◌, Bool, true, false, ◌||◌, List, [], ◌∷◌, ◌++◌, ltb,
  ◌==◌, if◌then◌else◌, length, take,
}

abbrev pub sha256_digest_length : ℕ
sha256_digest_length = 32

-- `counterMSB`: the high bytes of `counterStart`, and a last byte that is counted apart.
unfoldable pub counter_msb : (counter_start last : ℕ) → List ℕ
counter_msb counter_start last =
    counter_start / 2 ^ 24 % 2 ^ 8
    ∷ counter_start / 2 ^ 16 % 2 ^ 8
    ∷ counter_start / 2 ^ 8 % 2 ^ 8
    ∷ last
    ∷ []

-- The next `counterStart` and last byte. When the last byte wraps around, it is taken from
-- `counterStart` like the others.
unfoldable pub next_counter : (counter_start last : ℕ) → ℕ × ℕ
next_counter counter_start last =
    if (last + 1) % 2 ^ 8 == 0
    then ((counter_start + 256) % 2 ^ 32, (counter_start + 256) % 2 ^ 8)
    else (counter_start, (last + 1) % 2 ^ 8)

module _ (sha256 : List ℕ → List ℕ) (z share_info : List ℕ) where
  -- `for (i = 0; i < blocksize; i++)`, with the rounds that are left.
  unfoldable pub kdf_loop : ℕ → (counter_start last keyout_len : ℕ) → List ℕ
  kdf_loop zero counter_start last keyout_len = []
  kdf_loop (suc rounds) counter_start last keyout_len =
      let digest = sha256 (z ++ (counter_msb counter_start last ++ share_info)) in
      let next = next_counter counter_start last in
      let whole = kdf_loop rounds (next.0) (next.1) (keyout_len - sha256_digest_length) in
      let rest = kdf_loop rounds (next.0) (next.1) keyout_len in
      if ltb sha256_digest_length keyout_len
      then take sha256_digest_length digest ++ whole
      else take keyout_len digest ++ rest

  -- The bytes that are written to `keyout`; their number is returned.
  unfoldable pub kdf2_sha256 : ℕ → List ℕ
  kdf2_sha256 keyout_len =
      if length z == 0 || (length share_info == 0 || keyout_len == 0)
      then []
      else kdf_loop ((keyout_len + (sha256_digest_length - 1)) / sha256_digest_length) 1 1
          keyout_len
