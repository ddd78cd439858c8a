-- ===== src/Manager.antt =====
-- include/utility/xManager.hpp: the handles of devices and contexts.
pub mod Handles
pub mod Objects
pub mod Reach
mod Tests
use jubiter_sdk_c.Common.{
  ℕ, zero, suc, ◌+◌, ◌%◌, ◌^◌, Bool, true, false, Option, none, some, List, [], ◌∷◌, ◌++◌, map, ltb,
  ◌==◌, if◌then◌else◌,
}

module _ {ℓ} {T : Type ℓ} where
  -- `_mapList.find(ID)`.
  unfoldable pub find : List (ℕ × T) → ℕ → Option T
  find [] k = none
  find ((k', x) ∷ m) k = if k' == k then some x else find m k

  -- `_mapList.insert(make_pair(ID, x))`: the map is sorted, and a key that it holds stays as it is.
  unfoldable pub insert : List (ℕ × T) → ℕ → T → List (ℕ × T)
  insert [] k x = (k, x) ∷ []
  insert ((k', x') ∷ m) k x =
      if ltb k k'
      then (k, x) ∷ (k', x') ∷ m
      else if k' == k
      then (k', x') ∷ m
      else (k', x') ∷ insert m k x

  -- `_mapList.erase(it)`.
  unfoldable pub erase : List (ℕ × T) → ℕ → List (ℕ × T)
  erase [] k = []
  erase ((k', x) ∷ m) k = if k' == k then m else (k', x) ∷ erase m k

-- `xManager`. `deleted` lists the objects that were deleted, the last one first.
pub record XManager {ℓ} (T : Type ℓ) : Type ℓ where
  pub map_list : List (ℕ × T)
  pub last : Option T
  pub id : ℕ
  pub deleted : List T

-- The handle that the next call of `AddOne` gives out: `_ID` starts again at 0 behind 65535.
unfoldable pub next_id : ℕ → ℕ
next_id id = if id == 65535 then 1 else id + 1

module _ {ℓ} {T : Type ℓ} where
  abbrev pub fresh_manager : XManager T
  fresh_manager = record { map_list = []; last = none; id = 0; deleted = [] }

  -- `AddOne(x)`.
  unfoldable pub add_one : XManager T → T → ℕ × XManager T
  unfolding insert next_id
  add_one s x = let k = next_id s.id in (k, record s { map_list = insert s.map_list k x; id = k })

  -- `AddOne(ID, x)`.
  unfoldable pub add_one_at : XManager T → ℕ → T → ℕ × XManager T
  unfolding insert
  add_one_at s k x = (k, record s { map_list = insert s.map_list k x })

  -- What `GetOne` and `ClearOne` do with what `find` gave.
  unfoldable pub remember : XManager T → Option T → Option T × XManager T
  remember s none = (none, s)
  remember s (some x) = (some x, record s { last = some x })

  unfoldable pub delete : XManager T → ℕ → Option T → XManager T
  unfolding erase
  delete s k none = s
  delete s k (some x) = record s { map_list = erase s.map_list k; deleted = x ∷ s.deleted }

  unfoldable pub get_one : XManager T → ℕ → Option T × XManager T
  unfolding find remember
  get_one s k = remember s (find s.map_list k)

  unfoldable pub clear_one : XManager T → ℕ → XManager T
  unfolding find delete
  clear_one s k = delete s k (find s.map_list k)

  unfoldable pub clear_all : XManager T → XManager T
  clear_all s = record s {
    map_list = [];
    deleted = map (λ (kx : ℕ × T). kx.1) s.map_list ++ s.deleted;
  }

  unfoldable pub clear_last : XManager T → XManager T
  clear_last s = record s { last = none }

  unfoldable pub get_handle_list : XManager T → List ℕ
  get_handle_list s = map (λ (kx : ℕ × T). kx.0) s.map_list
