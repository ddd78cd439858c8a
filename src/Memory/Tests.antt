-- ===== src/Memory/Tests.antt =====
-- The blocks of src/JUB_SDK_COMM.cpp with an allocator that counts upwards.
use jubiter_sdk_c.Common.{
  ℕ, ◌+◌, ◌≤◌, ◌≡◌, ◌≢◌, refl, false, Option, some, List, [], ◌∷◌, ◌==◌, ok, fail, fault, arith,
}
use jubiter_sdk_c.Memory.{Memory, alloc_mem, free_memory, fresh_memory}
use jubiter_sdk_c.Memory.Sets.{contains}
use jubiter_sdk_c.Memory.Calls.{IsAllocator, alloc, free, calls}
use jubiter_sdk_c.Memory.Blocks.{free_memory-ne-fault, free_memory-alloc_mem}

total : List ℕ → ℕ
total [] = 1
total (p ∷ live) = p + total live

positive : (live : List ℕ) → 1 ≤ total live
unfolding total
positive [] = omega arith
positive (p ∷ live) = omega (arith, positive live)

above : (live : List ℕ) (q : ℕ) → total live ≤ q → contains live q ≡ false
unfolding total contains
above [] q h = refl
above (p ∷ live) q h =
    let rest = above live q (omega (arith, h)) in
    let other : (p == q) ≡ false = ground (arith, h, positive live) in rw (other, rest)

abbrev counting : List ℕ → Option ℕ
counting live = some (total live)

some_path : {x y : ℕ} → some x ≡ some y → x ≡ y
some_path e = cc

counting-IsAllocator : IsAllocator counting
counting-IsAllocator = record {
  unused = λ live p e. above live p (omega (arith, some_path e));
  no_null = λ live p e null. omega (arith, some_path e, positive live, null);
}

free_path : {x y : ℕ} → free x ≡ free y → x ≡ y
free_path e = cc

abbrev text : List ℕ
text = 0x41 ∷ 0x42 ∷ []

free_memory-ne-fault_example :
    (free_memory 2 (calls counting (alloc text ∷ free 1 ∷ free 1 ∷ alloc [] ∷ []) fresh_memory)).0
    ≢ fault
free_memory-ne-fault_example =
    free_memory-ne-fault counting counting-IsAllocator
      (alloc text ∷ free 1 ∷ free 1 ∷ alloc [] ∷ []) 2

free_memory-alloc_mem_example :
    (m : Memory) × (m' : Memory) × (alloc_mem counting text (calls counting [] fresh_memory)
      ≡ (ok 1, m))
    × (free_memory 1 (calls counting (alloc text ∷ free 2 ∷ []) m) ≡ (ok tt, m'))
    × (free_memory 1 m' ≡ (fail 8, m'))
unfolding total calls fresh_memory
free_memory-alloc_mem_example =
    free_memory-alloc_mem counting counting-IsAllocator text [] (alloc text ∷ free 2 ∷ []) 1
      (omega arith) refl (λ e. cc, (λ e. omega (arith, free_path e), tt))
