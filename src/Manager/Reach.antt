-- ===== src/Manager/Reach.antt =====
-- The first 65535 objects of an `xManager` (include/utility/xManager.hpp) and the one behind them.
use jubiter_sdk_c.Common.{List, [], ◌∷◌}
use jubiter_sdk_c.Manager.{XManager, add_one}

module _ {ℓ} {T : Type ℓ} where
  -- One call of `AddOne` after the other.
  unfoldable pub add_all : List T → XManager T → XManager T
  unfolding add_one
  add_all [] s = s
  add_all (x ∷ xs) s = add_all xs (add_one s x).1
