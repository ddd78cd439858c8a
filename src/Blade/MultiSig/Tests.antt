-- ===== src/Blade/MultiSig/Tests.antt =====
-- Two signatures, and a byte behind them.
use jubiter_sdk_c.Common.{ℕ, ◌≡◌, List, [], ◌∷◌, ok, arith}
use jubiter_sdk_c.Blade.MultiSig.{split_signatures}
use jubiter_sdk_c.Blade.MultiSig.Signatures.{split_signatures-packed}

abbrev two_signatures : List (List ℕ)
two_signatures = (7 ∷ 8 ∷ []) ∷ (9 ∷ []) ∷ []

split_signatures-packed_example :
    split_signatures 2 0 (2 ∷ 7 ∷ 8 ∷ 1 ∷ 9 ∷ 5 ∷ []) ≡ ok two_signatures
split_signatures-packed_example = split_signatures-packed two_signatures (5 ∷ []) (omega arith)
