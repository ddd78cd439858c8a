-- ===== src/Gpc/Kdf/Blocks.antt =====
-- The keys of `kdf2_sha256` (gpc/src/scp11.cpp), block by block.
use jubiter_sdk_c.Common.{
  ℕ, zero, suc, ◌+◌, ◌-◌, ◌*◌, ◌/◌, ◌%◌, ◌^◌, ◌≤◌, ◌<◌, ◌≡◌, refl, ◌≢◌, true, false, List, [], ◌∷◌,
  ◌++◌, ltb, ◌==◌, length, take, arith, length-append, length-take, take_all, append-nil,
}
use jubiter_sdk_c.Gpc.Kdf.{counter_msb, next_counter, kdf_loop, kdf2_sha256}

-- The derivation of the standard: hashes over a counter of 4 bytes, the high byte first.
unfoldable pub be32 : ℕ → List ℕ
be32 n = n / 2 ^ 24 % 2 ^ 8 ∷ n / 2 ^ 16 % 2 ^ 8 ∷ n / 2 ^ 8 % 2 ^ 8 ∷ n % 2 ^ 8 ∷ []

module _ (sha256 : List ℕ → List ℕ) (z share_info : List ℕ) where
  -- The hashes of `count` counters, from `first` on.
  unfoldable pub hashes : ℕ → ℕ → List ℕ
  hashes zero first = []
  hashes (suc count) first = sha256 (z ++ (be32 first ++ share_info)) ++ hashes count (first + 1)

counter_msb-be32 : (i : ℕ) → i < 256 → counter_msb 1 i ≡ be32 i
unfolding counter_msb be32
counter_msb-be32 i h =
    let high : i / 16777216 % 256 ≡ 0 = omega arith in
    let upper : i / 65536 % 256 ≡ 0 = omega arith in
    let lower : i / 256 % 256 ≡ 0 = omega arith in
    let last : i % 256 ≡ i = omega arith in rw (high, upper, lower, last)

next_counter_lem : (i : ℕ) → i < 255 → next_counter 1 i ≡ (1, i + 1)
unfolding next_counter
next_counter_lem i h =
    let small : (i + 1) % 256 ≡ i + 1 = omega arith in
    let positive : (i + 1 == 0) ≡ false = ground arith in rw (small, positive)

take_behind :
    (k n : ℕ) (xs ys : List ℕ) → length xs ≡ k → k ≤ n → take n (xs ++ ys) ≡ xs ++ take (n - k) ys
take_behind k n [] ys e h = let none_first : n - k ≡ n = omega arith in rw none_first
take_behind zero n (x ∷ xs) ys e h = absurd (omega arith)
take_behind (suc k) zero (x ∷ xs) ys e h = absurd (omega arith)
take_behind (suc k) (suc n) (x ∷ xs) ys e h =
    let fewer : suc n - suc k ≡ n - k = omega arith in
    rw (fewer, take_behind k n xs ys (omega arith) (omega arith))

module _ (sha256 : List ℕ → List ℕ) (z share_info : List ℕ)
    (digests : (text : List ℕ) → length (sha256 text) ≡ 32) where
  kdf_loop-hashes :
      (rounds i n : ℕ)
      → i + rounds ≤ 256
      → n ≤ rounds * 32
      → rounds * 32 < n + 32
      → kdf_loop sha256 z share_info rounds 1 i n ≡ take n (hashes sha256 z share_info rounds i)
  unfolding kdf_loop hashes
  kdf_loop-hashes zero i n fits enough few = let empty : n ≡ 0 = omega arith in rw empty
  kdf_loop-hashes (suc zero) i n fits enough few =
      let last : ltb 32 n ≡ false = ground arith in
      let counter = counter_msb-be32 i (omega arith) in
      rw (
        last,
        counter,
        append-nil (sha256 (z ++ (be32 i ++ share_info))),
        append-nil (take n (sha256 (z ++ (be32 i ++ share_info)))),
      )
  kdf_loop-hashes (suc (suc rounds)) i n fits enough few =
      let more : ltb 32 n ≡ true = ground arith in
      let counter = counter_msb-be32 i (omega arith) in
      let digest = sha256 (z ++ (be32 i ++ share_info)) in
      let size = digests (z ++ (be32 i ++ share_info)) in
      let whole = take_all 32 digest (omega (arith, size)) in
      let others =
        kdf_loop-hashes (suc rounds) (i + 1) (n - 32) (omega arith) (omega arith) (omega arith) in
      let split =
        take_behind 32 n digest (hashes sha256 z share_info (suc rounds) (i + 1)) size
          (omega arith) in
      rw (more, counter, next_counter_lem i (omega arith), whole, others, split)

  length-hashes : (count first : ℕ) → length (hashes sha256 z share_info count first) ≡ count * 32
  unfolding hashes
  length-hashes zero first = refl
  length-hashes (suc count) first = omega (
    arith,
    digests (z ++ (be32 first ++ share_info)),
    length-hashes count (first + 1),
    length-append (sha256 (z ++ (be32 first ++ share_info)))
        (hashes sha256 z share_info count (first + 1)),
  )

  -- With something to hash, a key of 1 to 8160 bytes is the front of the hashes for the counters 1, 2
  -- and so on, and has as many bytes as were asked for, if a hash has 32 bytes.
  pub kdf2_sha256-hashes :
      (n : ℕ)
      → length z ≢ 0
      → length share_info ≢ 0
      → 0 < n
      → n ≤ 255 * 32
      → (kdf2_sha256 sha256 z share_info n ≡ take n (hashes sha256 z share_info ((n + 31) / 32) 1))
        × (length (kdf2_sha256 sha256 z share_info n) ≡ n)
  unfolding kdf2_sha256
  kdf2_sha256-hashes n some_z some_info some_key fits =
      let z_test : (length z == 0) ≡ false = ground arith in
      let info_test : (length share_info == 0) ≡ false = ground arith in
      let key_test : (n == 0) ≡ false = ground arith in
      let count = (n + 31) / 32 in
      let looped = kdf_loop-hashes count 1 n (omega arith) (omega arith) (omega arith) in
      let size : length (take n (hashes sha256 z share_info count 1)) ≡ n =
        omega (arith, length-take n (hashes sha256 z share_info count 1), length-hashes count 1) in
      (rw (z_test, info_test, key_test, looped), rw (z_test, info_test, key_test, looped, size))
