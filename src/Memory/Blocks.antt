-- ===== src/Memory/Blocks.antt =====
-- What becomes of the blocks that `_allocMem` (src/JUB_SDK_COMM.cpp) gave out.
use jubiter_sdk_c.Common.{
  ℕ, ◌<◌, ◌≡◌, ◌≢◌, ap, true, false, Option, none, some, List, [], ◌∷◌, ◌==◌, Option-cases, inl,
  inr, length, All, ok, fail, fault, arith,
}
use jubiter_sdk_c.Status.{jubr_invalid_memory_ptr}
use jubiter_sdk_c.Memory.{Memory, alloc_at, alloc_mem, free_memory, fresh_memory}
use jubiter_sdk_c.Memory.Sets.{contains, remove, contains-remove}
use jubiter_sdk_c.Memory.Calls.{
  IsValid, IsAllocator, Call, alloc, free, call, calls, free_memory_cases, free_memory-IsValid,
  unknown_block, known_more, known_first, more_live, more_known, fresh_memory-IsValid, free_known,
  free_unknown, free_keeps,
}

module _ (fresh : List ℕ → Option ℕ) (law : IsAllocator fresh) where
  -- The ways that `_allocMem` takes on a valid state.
  alloc_mem_lem :
      (str_buf : List ℕ) (m : Memory) (p : ℕ)
      → IsValid m
      → fresh m.live ≡ some p
      → 0 < length str_buf
      → alloc_mem fresh str_buf m ≡ (ok p, record { live = p ∷ m.live; mem_ptrs = p ∷ m.mem_ptrs })
  unfolding alloc_mem alloc_at
  alloc_mem_lem str_buf m p v e h =
      let some_text : (length str_buf == 0) ≡ false = ground arith in
      let unknown = unknown_block m p v (law.unused m.live p e) in rw (e, some_text, unknown)

  alloc_mem_empty :
      (m : Memory) (p : ℕ)
      → fresh m.live ≡ some p
      → alloc_mem fresh [] m ≡ (ok p, record m { live = p ∷ m.live })
  unfolding alloc_mem alloc_at
  alloc_mem_empty m p e = rw e

  alloc_mem-none :
      (str_buf : List ℕ) (m : Memory) → fresh m.live ≡ none → (alloc_mem fresh str_buf m).1 ≡ m
  unfolding alloc_mem alloc_at
  alloc_mem-none str_buf m e = rw e

  call-IsValid : (c : Call) (m : Memory) → IsValid m → IsValid (call fresh c m)
  unfolding call
  call-IsValid (free p) m v = free_memory-IsValid p m v
  call-IsValid (alloc str_buf) m v = elim (Option-cases (fresh m.live)) [
    | inl e ↦ rw (alloc_mem-none str_buf m e) v
    | inr (p, e) ↦ alloc_some str_buf p e
  ]
    where
      alloc_some :
          (text : List ℕ) (p : ℕ) → fresh m.live ≡ some p → IsValid (alloc_mem fresh text m).1
      alloc_some [] p e = rw (alloc_mem_empty m p e) (more_live p m v)
      alloc_some (x ∷ text) p e =
          rw (alloc_mem_lem (x ∷ text) m p v e (omega arith))
            (more_known p m (law.no_null m.live p e) v)

  calls-IsValid : (cs : List Call) (m : Memory) → IsValid m → IsValid (calls fresh cs m)
  unfolding calls
  calls-IsValid [] m v = v
  calls-IsValid (c ∷ cs) m v = calls-IsValid cs (call fresh c m) (call-IsValid c m v)

  -- After any calls, what the caller frees is never deleted twice, whatever address it gives, if the
  -- allocator gives no null pointer and no block that is in use.
  pub free_memory-ne-fault :
      (cs : List Call) (p : ℕ) → (free_memory p (calls fresh cs fresh_memory)).0 ≢ fault
  free_memory-ne-fault cs p =
      let v' = calls-IsValid cs fresh_memory fresh_memory-IsValid in
      elim (free_memory_cases p (calls fresh cs fresh_memory) v') [
        | inl (e, null) ↦ λ f. let f' = rw e at f in cc
        | inr (inl (e, unknown)) ↦ λ f. let f' = rw e at f in cc
        | inr (inr (e, known)) ↦ λ f. let f' = rw e at f in cc
      ]

  -- A call that does not free an address leaves it among those that may be freed.
  call_keeps :
      (c : Call) (m : Memory) (q : ℕ)
      → IsValid m
      → c ≢ free q
      → contains m.mem_ptrs q ≡ true
      → contains (call fresh c m).mem_ptrs q ≡ true
  unfolding call
  call_keeps (free p) m q v other h = free_keeps p q m v (λ same. other (ap free same)) h
  call_keeps (alloc str_buf) m q v other h = elim (Option-cases (fresh m.live)) [
    | inl e ↦ rw (alloc_mem-none str_buf m e, h)
    | inr (p, e) ↦ alloc_keeps str_buf p e
  ]
    where
      alloc_keeps :
          (text : List ℕ) (p : ℕ)
          → fresh m.live ≡ some p
          → contains (alloc_mem fresh text m).1.mem_ptrs q ≡ true
      alloc_keeps [] p e = rw (alloc_mem_empty m p e, h)
      alloc_keeps (x ∷ text) p e =
          rw (alloc_mem_lem (x ∷ text) m p v e (omega arith)) (known_more p q m.mem_ptrs h)

  calls_keep :
      (cs : List Call) (m : Memory) (q : ℕ)
      → IsValid m
      → All (λ c. c ≢ free q) cs
      → contains m.mem_ptrs q ≡ true
      → contains (calls fresh cs m).mem_ptrs q ≡ true
  unfolding calls
  calls_keep [] m q v others h = h
  calls_keep (c ∷ cs) m q v others h =
      calls_keep cs (call fresh c m) q (call-IsValid c m v) others.1 (call_keeps c m q v others.0 h)

  -- A block for a text that is not empty can be freed after any calls that do not free it, and
  -- after that it is unknown, if the allocator gives no null pointer and no block that is in use.
  pub free_memory-alloc_mem :
      (str_buf : List ℕ) (before later : List Call) (p : ℕ)
      → 0 < length str_buf
      → fresh (calls fresh before fresh_memory).live ≡ some p
      → All (λ c. c ≢ free p) later
      → (m : Memory) × (m' : Memory) × (alloc_mem fresh str_buf (calls fresh before fresh_memory)
          ≡ (ok p, m))
        × (free_memory p (calls fresh later m) ≡ (ok tt, m'))
        × (free_memory p m' ≡ (fail jubr_invalid_memory_ptr, m'))
  free_memory-alloc_mem str_buf before later p some_text e others =
      let start = calls fresh before fresh_memory in
      let v = calls-IsValid before fresh_memory fresh_memory-IsValid in
      let m : Memory = record { live = p ∷ start.live; mem_ptrs = p ∷ start.mem_ptrs } in
      let v' = more_known p start (law.no_null start.live p e) v in
      let last = calls fresh later m in
      let known = calls_keep later m p v' others (known_first p start.mem_ptrs) in
      (
        m,
        record { live = remove p last.live; mem_ptrs = remove p last.mem_ptrs },
        alloc_mem_lem str_buf start p v e some_text,
        free_known p last (calls-IsValid later m v') (law.no_null start.live p e) known,
        free_unknown p (record { live = remove p last.live; mem_ptrs = remove p last.mem_ptrs })
            (law.no_null start.live p e) (contains-remove p last.mem_ptrs),
      )

  -- A block for the empty text is handed out and can never be freed: it is unknown, and it stays
  -- allocated.
  pub free_memory-alloc_mem_empty :
      (before : List Call) (p : ℕ)
      → fresh (calls fresh before fresh_memory).live ≡ some p
      → (m : Memory) × (alloc_mem fresh [] (calls fresh before fresh_memory) ≡ (ok p, m))
        × (free_memory p m ≡ (fail jubr_invalid_memory_ptr, m))
        × (contains m.live p ≡ true)
  free_memory-alloc_mem_empty before p e =
      let start = calls fresh before fresh_memory in
      let v = calls-IsValid before fresh_memory fresh_memory-IsValid in
      let m : Memory = record start { live = p ∷ start.live } in
      (
        m,
        alloc_mem_empty start p e,
        free_unknown p m (law.no_null start.live p e)
            (unknown_block start p v (law.unused start.live p e)),
        known_first p start.live,
      )
