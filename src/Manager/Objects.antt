-- ===== src/Manager/Objects.antt =====
-- The operations of include/utility/xManager.hpp on the objects behind the handles.
use jubiter_sdk_c.Common.{
  ℕ, zero, suc, ◌⊎◌, ◌<◌, ◌≤◌, ◌≡◌, refl, sym, ◌∙◌, Option, none, some, List, [], ◌∷◌, ◌==◌,
  if◌then◌else◌, inl, inr, Bool-cases, Option-cases, arith,
}
use jubiter_sdk_c.Manager.{
  find, insert, XManager, fresh_manager, next_id, add_one, add_one_at, get_one, clear_one,
  clear_all, clear_last, remember, delete,
}
use jubiter_sdk_c.Manager.Handles.{
  Ascending, find_below, find-insert, find-insert_other, insert_used, insert-Ascending, find-erase,
  find-erase_other, erase-Ascending,
}

-- The calls that a client makes.
pub data Call {ℓ} (T : Type ℓ) : Type ℓ where
  add : T → Call T
  add_at : ℕ → T → Call T
  get : ℕ → Call T
  clear : ℕ → Call T
  everything_cleared last_cleared : Call T

next_id_bounds : (n : ℕ) → n ≤ 65535 → (0 < next_id n) × (next_id n ≤ 65535)
unfolding next_id
next_id_bounds n h = ground arith

module _ {ℓ} {T : Type ℓ} where
  -- The map is sorted by its keys, and `_ID` fits 16 bits.
  unfoldable pub IsValid : XManager T → Type 0
  IsValid s = Ascending 0 s.map_list × (s.id ≤ 65535)

  unfoldable pub step : Call T → XManager T → XManager T
  unfolding add_one add_one_at get_one clear_one clear_all clear_last
  step (add x) s = (add_one s x).1
  step (add_at k x) s = (add_one_at s k x).1
  step (get k) s = (get_one s k).1
  step (clear k) s = clear_one s k
  step everything_cleared s = clear_all s
  step last_cleared s = clear_last s

  unfoldable pub run : List (Call T) → XManager T → XManager T
  run [] s = s
  run (c ∷ cs) s = run cs (step c s)

  remember-IsValid : (s : XManager T) (o : Option T) → IsValid s → IsValid (remember s o).1
  unfolding remember IsValid
  remember-IsValid s none v = v
  remember-IsValid s (some x) v = v

  delete-IsValid : (s : XManager T) (k : ℕ) (o : Option T) → IsValid s → IsValid (delete s k o)
  unfolding delete IsValid
  delete-IsValid s k none v = v
  delete-IsValid s k (some x) v = (erase-Ascending 0 k s.map_list v.0, v.1)

  step-IsValid : (c : Call T) (s : XManager T) → IsValid s → IsValid (step c s)
  unfolding step IsValid Ascending
  step-IsValid (add x) s v =
      let bounds = next_id_bounds s.id v.1 in
      (insert-Ascending 0 (next_id s.id) x s.map_list (omega arith) v.0, bounds.1)
  step-IsValid (add_at k x) s v = (insert-Ascending 0 k x s.map_list (omega arith) v.0, v.1)
  step-IsValid (get k) s v = remember-IsValid s (find s.map_list k) v
  step-IsValid (clear k) s v = delete-IsValid s k (find s.map_list k) v
  step-IsValid everything_cleared s v = (tt, v.1)
  step-IsValid last_cleared s v = v

  run_from-IsValid : (cs : List (Call T)) (s : XManager T) → IsValid s → IsValid (run cs s)
  unfolding run
  run_from-IsValid [] s v = v
  run_from-IsValid (c ∷ cs) s v = run_from-IsValid cs (step c s) (step-IsValid c s v)

  pub get_one-find : (s : XManager T) (k : ℕ) → (get_one s k).0 ≡ find s.map_list k
  unfolding get_one remember
  get_one-find s k = elim (Option-cases (find s.map_list k)) [ inl e ↦ rw e | inr (x, e) ↦ rw e ]

  -- Some call is `AddOne(0, x)`.
  unfoldable pub AddsAtZero : List (Call T) → Type 0
  AddsAtZero [] = ⊥
  AddsAtZero (add_at zero x ∷ cs) = Unit {0}
  AddsAtZero (c ∷ cs) = AddsAtZero cs

  remember-Ascending :
      (s : XManager T) (o : Option T)
      → Ascending 1 s.map_list
      → Ascending 1 (remember s o).1.map_list
  unfolding remember
  remember-Ascending s none a = a
  remember-Ascending s (some x) a = a

  delete-Ascending :
      (s : XManager T) (k : ℕ) (o : Option T)
      → Ascending 1 s.map_list
      → Ascending 1 (delete s k o).map_list
  unfolding delete
  delete-Ascending s k none a = a
  delete-Ascending s k (some x) a = erase-Ascending 1 k s.map_list a

  run_above :
      (cs : List (Call T)) (s : XManager T)
      → IsValid s
      → Ascending 1 s.map_list
      → AddsAtZero cs ⊎ Ascending 1 (run cs s).map_list
  unfolding run step AddsAtZero IsValid Ascending
  run_above [] s v a = inr a
  run_above (add x ∷ cs) s v a =
      let bounds = next_id_bounds s.id v.1 in
      run_above cs (add_one s x).1 (step-IsValid (add x) s v)
        (insert-Ascending 1 (next_id s.id) x s.map_list bounds.0 a)
  run_above (add_at zero x ∷ cs) s v a = inl tt
  run_above (add_at (suc k) x ∷ cs) s v a =
      run_above cs (add_one_at s (suc k) x).1 (step-IsValid (add_at (suc k) x) s v)
        (insert-Ascending 1 (suc k) x s.map_list (omega arith) a)
  run_above (get k ∷ cs) s v a =
      run_above cs (get_one s k).1 (step-IsValid (get k) s v)
        (remember-Ascending s (find s.map_list k) a)
  run_above (clear k ∷ cs) s v a =
      run_above cs (clear_one s k) (step-IsValid (clear k) s v)
        (delete-Ascending s k (find s.map_list k) a)
  run_above (everything_cleared ∷ cs) s v a =
      run_above cs (clear_all s) (step-IsValid everything_cleared s v) tt
  run_above (last_cleared ∷ cs) s v a =
      run_above cs (clear_last s) (step-IsValid last_cleared s v) a

  -- Whatever calls a client makes of a new manager, both forms of `AddOne` included: the map stays sorted
  -- by its keys, `_ID` fits 16 bits, and the handle 0 leads nowhere unless some call is `AddOne(0, x)`.
  pub run-IsValid :
      (cs : List (Call T))
      → IsValid (run cs fresh_manager)
        × (AddsAtZero cs ⊎ ((get_one (run cs fresh_manager) 0).0 ≡ none))
  unfolding IsValid Ascending
  run-IsValid cs =
      let s : XManager T = run cs fresh_manager in
      (
        run_from-IsValid cs fresh_manager (tt, omega arith),
        elim (run_above cs fresh_manager (tt, omega arith) tt) [
          | inl added ↦ inl added
          | inr a ↦ inr (get_one-find s 0 ∙ find_below 1 0 s.map_list a (omega arith))
        ],
      )

  -- What a handle leads to once an object was added under it.
  unfoldable pub kept : Option T → T → Option T
  kept none x = some x
  kept (some y) x = some y

  find-insert_same :
      (b k : ℕ) (x : T) (m : List (ℕ × T))
      → Ascending b m
      → find (insert m k x) k ≡ kept (find m k) x
  unfolding kept
  find-insert_same b k x m a = elim (Option-cases (find m k)) [
    | inl e ↦ rw e (find-insert b k x m a e)
    | inr (y, e) ↦ rw (insert_used b k x y m a e, e)
  ]

  -- `AddOne` on a valid manager. If the handle that it gives out was not in use, it leads to the new
  -- object; if it was, it leads to the object it led to before, and the new one is not kept. Every
  -- other handle leads where it led.
  pub get_one-add_one :
      (s : XManager T) (x : T) (j : ℕ)
      → IsValid s
      → (get_one (add_one s x).1 j).0
        ≡ (if (add_one s x).0 == j then kept (get_one s j).0 x else (get_one s j).0)
  unfolding add_one IsValid
  get_one-add_one s x j v = elim (Bool-cases (next_id s.id == j)) [
    | inl e ↦
        let same : next_id s.id ≡ j = ground arith in
        rw (get_one-find (add_one s x).1 j, get_one-find s j, e, same)
          (find-insert_same 0 j x s.map_list v.0)
    | inr e ↦
        rw (get_one-find (add_one s x).1 j, get_one-find s j, e)
          (find-insert_other (next_id s.id) j x s.map_list e)
  ]

  -- `ClearOne` on a valid manager: the handle leads nowhere, and every other one where it led.
  pub get_one-clear_one :
      (s : XManager T) (k j : ℕ)
      → IsValid s
      → (get_one (clear_one s k) j).0 ≡ (if k == j then none else (get_one s j).0)
  unfolding clear_one delete IsValid
  get_one-clear_one s k j v = elim (Option-cases (find s.map_list k)) [
    | inl e ↦ elim (Bool-cases (k == j)) [
      | inl same ↦ let key : k ≡ j = ground arith in rw (e, same, get_one-find s j, ← key, e)
      | inr other ↦ rw (e, other)
    ]
    | inr (x, e) ↦ elim (Bool-cases (k == j)) [
      | inl same ↦
          let key : k ≡ j = ground arith in
          rw (e, same, get_one-find (delete s k (some x)) j, ← key) (find-erase 0 k s.map_list v.0)
      | inr other ↦
          rw (e, other, get_one-find s j, get_one-find (delete s k (some x)) j)
            (find-erase_other k j s.map_list other)
    ]
  ]

  -- An object that a client looked up and then cleared is deleted, and `GetLast` still returns it.
  pub clear_one-last :
      (s : XManager T) (k : ℕ) (x : T)
      → (get_one s k).0 ≡ some x
      → let t = clear_one (get_one s k).1 k in (t.last ≡ some x) × (t.deleted ≡ x ∷ s.deleted)
  unfolding get_one clear_one remember delete
  clear_one-last s k x e =
      let found : find s.map_list k ≡ some x = sym (get_one-find s k) ∙ e in
      rw (found, found) (refl, refl)
