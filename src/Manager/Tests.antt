-- ===== src/Manager/Tests.antt =====
-- Handles of include/utility/xManager.hpp at concrete objects.
use jubiter_sdk_c.Common.{ℕ, ◌≡◌, ◌⊎◌, some, none, List, [], ◌∷◌, arith}
use jubiter_sdk_c.Manager.{XManager, fresh_manager, add_one, get_one}
use jubiter_sdk_c.Manager.Objects.{
  IsValid, kept, Call, add, add_at, get, clear, AddsAtZero, run, run-IsValid, get_one-add_one,
}
use jubiter_sdk_c.Manager.Handles.{Ascending}

-- The last handle was given out, and the first one is still in use.
abbrev full_circle : XManager ℕ
full_circle = record {
  map_list = (1, 10) ∷ (65535, 20) ∷ [];
  last = none;
  id = 65535;
  deleted = [];
}

full_circle-IsValid : IsValid full_circle
unfolding IsValid Ascending
full_circle-IsValid = ((omega arith, (omega arith, tt)), omega arith)

abbrev calls : List (Call ℕ)
calls = add 7 ∷ get 1 ∷ add_at 30 5 ∷ clear 1 ∷ add 8 ∷ []

run-IsValid_example :
    IsValid (run calls fresh_manager)
    × (AddsAtZero calls ⊎ ((get_one (run calls fresh_manager) 0).0 ≡ none))
run-IsValid_example = run-IsValid calls

get_one-add_one_example : (get_one (add_one full_circle 30).1 1).0 ≡ some 10
unfolding add_one kept get_one
get_one-add_one_example = get_one-add_one full_circle 30 1 full_circle-IsValid

abbrev three : List ℕ
three = 7 ∷ 8 ∷ 9 ∷ []
