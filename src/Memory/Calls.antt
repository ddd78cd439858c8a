-- ===== src/Memory/Calls.antt =====
-- Any calls of `_allocMem` and `JUB_FreeMemory`, one after the other.
use jubiter_sdk_c.Common.{
  ℕ, ◌≡◌, ◌≢◌, refl, sym, Bool, true, false, Option, some, List, [], ◌∷◌, ◌==◌, ==_self, ==_iff,
  ◌⊎◌, Bool-cases, inl, inr, ok, fail, arith,
}
use jubiter_sdk_c.Status.{jubr_invalid_memory_ptr, jubr_memory_null_ptr}
use jubiter_sdk_c.Memory.{Memory, alloc_mem, free_memory, fresh_memory}
use jubiter_sdk_c.Memory.Sets.{contains, remove, contains-remove, contains-remove_other}

-- Every address that may be freed is allocated, and none is the null pointer.
pub record IsValid (m : Memory) : Type 0 where
  pub allocated : (q : ℕ) → contains m.mem_ptrs q ≡ true → contains m.live q ≡ true
  pub not_null : contains m.mem_ptrs 0 ≡ false

-- What `new` documents: an address that is not in use, and never null.
pub record IsAllocator (fresh : List ℕ → Option ℕ) : Type 0 where
  pub unused : (live : List ℕ) (p : ℕ) → fresh live ≡ some p → contains live p ≡ false
  pub no_null : (live : List ℕ) (p : ℕ) → fresh live ≡ some p → p ≢ 0

pub clash : (b : Bool) → b ≡ false → b ≡ true → ⊥
clash b h k = cc

pub data Call : Type 0 where
  alloc : List ℕ → Call
  free : ℕ → Call

module _ (fresh : List ℕ → Option ℕ) where
  unfoldable pub call : Call → Memory → Memory
  call (alloc str_buf) m = (alloc_mem fresh str_buf m).1
  call (free p) m = (free_memory p m).1

  unfoldable pub calls : List Call → Memory → Memory
  calls [] m = m
  calls (c ∷ cs) m = calls cs (call c m)

removed-IsValid :
    (p : ℕ) (m : Memory)
    → IsValid m
    → IsValid (record { live = remove p m.live; mem_ptrs = remove p m.mem_ptrs })
removed-IsValid p m v = record {
  allocated = λ q h. elim (Bool-cases (p == q)) [
    | inl same ↦
        let e : p ≡ q = (==_iff p q).0 same in
        let gone = contains-remove p m.mem_ptrs in absurd (clash _ gone (rw (sym e) at h))
    | inr other ↦
        let different : p ≢ q = λ e. clash _ other ((==_iff p q).1 e) in
        let found = rw (contains-remove_other p q m.mem_ptrs different) at h in
        rw (contains-remove_other p q m.live different) (v.allocated q found)
  ];
  not_null = elim (Bool-cases (p == 0)) [
    | inl same ↦ let e : p ≡ 0 = (==_iff p 0).0 same in rw e (contains-remove 0 m.mem_ptrs)
    | inr other ↦
        let different : p ≢ 0 = λ e. clash _ other ((==_iff p 0).1 e) in
        rw (contains-remove_other p 0 m.mem_ptrs different) v.not_null
  ];
}

-- The ways that `JUB_FreeMemory` takes: a null pointer, an unknown one, and a block that goes.
pub free_memory_cases :
    (p : ℕ) (m : Memory)
    → IsValid m
    → ((free_memory p m ≡ (fail jubr_memory_null_ptr, m)) × (p ≡ 0))
      ⊎ ((free_memory p m ≡ (fail jubr_invalid_memory_ptr, m)) × (contains m.mem_ptrs p ≡ false))
      ⊎ ((free_memory p m
            ≡ (ok tt, record { live = remove p m.live; mem_ptrs = remove p m.mem_ptrs }))
          × (contains m.mem_ptrs p ≡ true))
unfolding free_memory
free_memory_cases p m v = elim (Bool-cases (p == 0)) [
  | inl null ↦ inl (rw null, (==_iff p 0).0 null)
  | inr given ↦ elim (Bool-cases (contains m.mem_ptrs p)) [
    | inl known ↦ inr (inr (rw (given, known, v.allocated p known), known))
    | inr unknown ↦ inr (inl (rw (given, unknown), unknown))
  ]
]

pub free_memory-IsValid : (p : ℕ) (m : Memory) → IsValid m → IsValid (free_memory p m).1
free_memory-IsValid p m v = elim (free_memory_cases p m v) [
  | inl (e, null) ↦ rw e v
  | inr (inl (e, unknown)) ↦ rw e v
  | inr (inr (e, known)) ↦ rw e (removed-IsValid p m v)
]

-- A block of its own is never known before.
pub unknown_block :
    (m : Memory) (p : ℕ) → IsValid m → contains m.live p ≡ false → contains m.mem_ptrs p ≡ false
unknown_block m p v h = elim (Bool-cases (contains m.mem_ptrs p)) [
  | inl known ↦ absurd (clash _ h (v.allocated p known))
  | inr unknown ↦ unknown
]

pub known_more : (p q : ℕ) (xs : List ℕ) → contains xs q ≡ true → contains (p ∷ xs) q ≡ true
unfolding contains
known_more p q xs h = elim (Bool-cases (p == q)) [ inl same ↦ rw same | inr other ↦ rw (other, h) ]

pub known_first : (p : ℕ) (xs : List ℕ) → contains (p ∷ xs) p ≡ true
unfolding contains
known_first p xs = rw (==_self p)

pub more_live : (p : ℕ) (m : Memory) → IsValid m → IsValid (record m { live = p ∷ m.live })
more_live p m v = record {
  allocated = λ q h. known_more p q m.live (v.allocated q h);
  not_null = v.not_null;
}

pub more_known :
    (p : ℕ) (m : Memory)
    → p ≢ 0
    → IsValid m
    → IsValid (record { live = p ∷ m.live; mem_ptrs = p ∷ m.mem_ptrs })
unfolding contains
more_known p m h v = record {
  allocated = λ q k. elim (Bool-cases (p == q)) [
    | inl same ↦ rw same
    | inr other ↦ let k' = rw other at k in rw (other, v.allocated q k')
  ];
  not_null = let other : (p == 0) ≡ false = ground arith in rw (other, v.not_null);
}

pub fresh_memory-IsValid : IsValid fresh_memory
unfolding fresh_memory contains
fresh_memory-IsValid = record { allocated = λ q h. cc; not_null = refl }

pub free_known :
    (p : ℕ) (m : Memory)
    → IsValid m
    → p ≢ 0
    → contains m.mem_ptrs p ≡ true
    → free_memory p m ≡ (ok tt, record { live = remove p m.live; mem_ptrs = remove p m.mem_ptrs })
free_known p m v h known = elim (free_memory_cases p m v) [
  | inl (e, null) ↦ absurd (h null)
  | inr (inl (e, unknown)) ↦ absurd (clash _ unknown known)
  | inr (inr (e, found)) ↦ e
]

pub free_unknown :
    (p : ℕ) (m : Memory)
    → p ≢ 0
    → contains m.mem_ptrs p ≡ false
    → free_memory p m ≡ (fail jubr_invalid_memory_ptr, m)
unfolding free_memory
free_unknown p m h unknown = let given : (p == 0) ≡ false = ground arith in rw (given, unknown)

pub free_keeps :
    (p q : ℕ) (m : Memory)
    → IsValid m
    → p ≢ q
    → contains m.mem_ptrs q ≡ true
    → contains (free_memory p m).1.mem_ptrs q ≡ true
free_keeps p q m v other h = elim (free_memory_cases p m v) [
  | inl (e, null) ↦ rw (e, h)
  | inr (inl (e, unknown)) ↦ rw (e, h)
  | inr (inr (e, known)) ↦ rw (e, contains-remove_other p q m.mem_ptrs other, h)
]
