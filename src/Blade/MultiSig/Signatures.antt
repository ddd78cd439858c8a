-- ===== src/Blade/MultiSig/Signatures.antt =====
-- src/token/BTC/JubiterBladeBTCImpl.cpp: the signatures that `SignTXMultiSig` takes apart.
use jubiter_sdk_c.Common.{
  ℕ, ◌+◌, ◌%◌, ◌^◌, ◌<◌, ◌≡◌, refl, sym, ap, ◌∙◌, List, [], ◌∷◌, ◌++◌, append_assoc, length,
  length-append, get_elem?-append, slice, slice-append, ok, arith,
}
use jubiter_sdk_c.Blade.MultiSig.{split_signatures}

-- Signatures as a device sends them: each behind a byte that holds its size.
abbrev pub packed : List (List ℕ) → List ℕ
packed [] = []
packed (s ∷ sigs) = length s ∷ (s ++ packed sigs)

split_lem :
    (sigs : List (List ℕ)) (start : ℕ) (front rest : List ℕ)
    → start ≡ length front
    → start + length (packed sigs) < 256
    → split_signatures (length sigs) start (front ++ (packed sigs ++ rest)) ≡ ok sigs
unfolding split_signatures
split_lem [] start front rest e h = refl
split_lem (s ∷ sigs) start front rest e h =
    let size : ℕ = length s in
    let size_lem = length-append s (packed sigs) in
    let offset : (size + 1) % 2 ^ 8 ≡ size + 1 = omega arith in
    let next : (start + (size + 1)) % 2 ^ 8 ≡ start + (size + 1) = omega arith in
    let raw : List ℕ = front ++ ((size ∷ (s ++ packed sigs)) ++ rest) in
    let behind : raw ≡ (front ++ (size ∷ [])) ++ (s ++ (packed sigs ++ rest)) =
      ap (λ (xs : List ℕ). front ++ (size ∷ xs)) (append_assoc s (packed sigs) rest)
      ∙ sym (append_assoc front (size ∷ []) (s ++ (packed sigs ++ rest))) in
    let further : raw ≡ (front ++ (size ∷ s)) ++ (packed sigs ++ rest) =
      ap (λ (xs : List ℕ). front ++ (size ∷ xs)) (append_assoc s (packed sigs) rest)
      ∙ sym (append_assoc front (size ∷ s) (packed sigs ++ rest)) in
    let head = length-append front (size ∷ []) in
    let front' = length-append front (size ∷ s) in
    let part =
      ap (slice (start + 1) (start + (size + 1))) behind
      ∙ slice-append (start + 1) (start + (size + 1)) (front ++ (size ∷ [])) s (packed sigs ++ rest)
          (omega arith) (omega arith) in
    let others =
      ap (split_signatures (length sigs) (start + (size + 1))) further
      ∙ split_lem sigs (start + (size + 1)) (front ++ (size ∷ s)) rest (omega arith)
          (omega arith) in
    rw (
      get_elem?-append front ((size ∷ (s ++ packed sigs)) ++ rest) start 0 (omega arith),
      offset,
      part,
      next,
      others,
    )

-- Signatures that take less than 256 bytes with the bytes that hold their sizes are taken apart as they
-- were put together, whatever follows them.
pub split_signatures-packed :
    (sigs : List (List ℕ)) (rest : List ℕ)
    → length (packed sigs) < 256
    → split_signatures (length sigs) 0 (packed sigs ++ rest) ≡ ok sigs
split_signatures-packed sigs rest h = split_lem sigs 0 [] rest refl (omega arith)
