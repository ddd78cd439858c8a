-- ===== src/Gpc/Kdf/Tests.antt =====
-- Keys of gpc/src/scp11.cpp for a small hash.
use jubiter_sdk_c.Common.{◌%◌, ◌≡◌, refl, [], ◌∷◌, length, take, replicate, arith}
use jubiter_sdk_c.Gpc.Kdf.{counter_msb, next_counter, kdf2_sha256}
use jubiter_sdk_c.Gpc.Kdf.Blocks.{hashes, kdf2_sha256-hashes}

kdf2_sha256-hashes_example :
    (kdf2_sha256 (λ text. replicate 32 (length text % 256)) (1 ∷ []) (2 ∷ []) 80
      ≡ take 80 (hashes (λ text. replicate 32 (length text % 256)) (1 ∷ []) (2 ∷ []) 3 1))
    × (length (kdf2_sha256 (λ text. replicate 32 (length text % 256)) (1 ∷ []) (2 ∷ []) 80) ≡ 80)
kdf2_sha256-hashes_example =
    kdf2_sha256-hashes (λ text. replicate 32 (length text % 256)) (1 ∷ []) (2 ∷ []) (λ text. refl)
      80 (λ h. absurd (omega (arith, h))) (λ h. absurd (omega (arith, h))) (omega arith)
      (omega arith)

-- Behind 255 the counter is 257.
counter_skipped : counter_msb ((next_counter 1 255).0) ((next_counter 1 255).1) ≡ 0 ∷ 0 ∷ 1 ∷ 1 ∷ []
unfolding counter_msb next_counter
counter_skipped = refl
