-- ===== src/Memory.antt =====
-- The memory that the SDK hands to its callers (src/JUB_SDK_COMM.cpp): `memPtrs`, `_allocMem` and
-- `JUB_FreeMemory`. Addresses are numbers, and 0 is the null pointer.
mod Sets
pub mod Calls
pub mod Blocks
mod Tests
use jubiter_sdk_c.Common.{
  ℕ, Bool, true, false, Option, none, some, List, [], ◌∷◌, ◌++◌, ◌==◌, if◌then◌else◌, not, length,
  Outcome, ok, fail, fault,
}
use jubiter_sdk_c.Status.{
  jubr_host_memory, jubr_memory_null_ptr, jubr_invalid_memory_ptr, jubr_repeat_memory_ptr,
}
use jubiter_sdk_c.Memory.Sets.{contains, remove}

-- The blocks that `new` gave and `delete` did not take back, and the set `memPtrs`.
pub record Memory : Type 0 where
  pub live : List ℕ
  pub mem_ptrs : List ℕ

-- `_allocMem`; `fresh` is the allocator, with `none` where it has no memory. A block for an empty
-- text is not put into `memPtrs`.
unfoldable pub alloc_at : Option ℕ → List ℕ → Memory → Outcome ℕ × Memory
alloc_at none str_buf m = (fail jubr_host_memory, m)
alloc_at (some p) str_buf m =
    if length str_buf == 0
    then (ok p, record m { live = p ∷ m.live })
    else if contains m.mem_ptrs p
    then (fail jubr_repeat_memory_ptr, record m { live = p ∷ m.live })
    else (ok p, record { live = p ∷ m.live; mem_ptrs = p ∷ m.mem_ptrs })

unfoldable pub alloc_mem : (fresh : List ℕ → Option ℕ) → List ℕ → Memory → Outcome ℕ × Memory
alloc_mem fresh str_buf m = alloc_at (fresh m.live) str_buf m

-- `JUB_FreeMemory`. To delete what is not allocated is a fault.
unfoldable pub free_memory : ℕ → Memory → Outcome (Unit {0}) × Memory
free_memory p m =
    if p == 0
    then (fail jubr_memory_null_ptr, m)
    else if not (contains m.mem_ptrs p)
    then (fail jubr_invalid_memory_ptr, m)
    else if not (contains m.live p)
    then (fault, m)
    else (ok tt, record { live = remove p m.live; mem_ptrs = remove p m.mem_ptrs })

unfoldable pub fresh_memory : Memory
fresh_memory = record { live = []; mem_ptrs = [] }
