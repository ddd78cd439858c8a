-- ===== src/Gpc/Certificate/Decode.antt =====
-- Decoding certificates as lists of items (gpc/src/scp11.cpp).
use jubiter_sdk_c.Common.{
  ℕ, zero, suc, ◌+◌, ◌%◌, ◌^◌, ◌<◌, ◌≤◌, ◌≡◌, refl, ap, ◌∙◌, Bool, true, false, some, List, [], ◌∷◌,
  ◌++◌, append-nil, append_assoc, le→leb, ◌==◌, if◌then◌else◌, length, length-append, slice-append,
  concat, map, All, Outcome, ok, stuck, arith,
}
use mathlib.Core.List.{foldl}
use jubiter_sdk_c.Gpc.TagParse.{gpc_tlv_get_tag}
use jubiter_sdk_c.Gpc.Certificate.{
  Scp11Crt, Scp11Pk, decode_crt, decode_pk, crt_tag, crt_item, crt_rest,
}
use jubiter_sdk_c.Gpc.Certificate.Fields.{
  Kind, kind_tag, Field, field_bytes, put, front, field_bytes-front, get_tag-front, Treated,
  treated, front_size,
}

crt_item-value :
    (next : List ℕ → Scp11Crt → Outcome (Bool × Scp11Crt))
    (key : List ℕ → Scp11Pk → Outcome (Bool × Scp11Pk)) (c : Scp11Crt) (k : Kind) (n : ℕ)
    (v rest : List ℕ)
    → n ≡ length v
    → crt_item next key (front k n ++ (v ++ rest)) c (kind_tag k) n (some (length (front k n)))
      ≡ crt_rest next
          (front k n ++ (v ++ rest))
          ((length (front k n) + n) % 2 ^ 8)
          (true, put k v c)
unfolding crt_item Treated
crt_item-value next key c k n v rest e =
    let how = treated k n v in
    let value =
      slice-append (length (front k n)) (length (front k n) + n) (front k n) v rest refl
        (ap (λ m. length (front k n) + m) e) in
    rw (value, how.3 key c, how.2 (length (front k n)) n)

crt_rest-fits :
    (next : List ℕ → Scp11Crt → Outcome (Bool × Scp11Crt)) (c : Scp11Crt) (before rest : List ℕ)
    → length before < 256
    → crt_rest next (before ++ rest) (length before % 2 ^ 8) (true, c)
      ≡ (if length rest == 0 then ok (true, c) else next rest c)
unfolding crt_rest
crt_rest-fits next c before rest h =
    let skip : length before % 2 ^ 8 ≡ length before = omega arith in
    let whole : before ++ (rest ++ []) ≡ before ++ rest = rw append-nil in
    let behind = rw whole at (
      slice-append (length before) (length (before ++ rest)) before rest [] refl
        (length-append before rest)) in
    rw (skip, behind)

crt_rest-wraps :
    (next : List ℕ → Scp11Crt → Outcome (Bool × Scp11Crt)) (c : Scp11Crt) (bytes : List ℕ)
    → 0 < length bytes
    → crt_rest next bytes (256 % 2 ^ 8) (true, c) ≡ next bytes c
unfolding crt_rest
crt_rest-wraps next c bytes h =
    let whole : bytes ++ [] ≡ bytes = rw append-nil in
    let behind = rw whole at (slice-append 0 (length bytes) [] bytes [] refl (omega arith)) in
    let some_left : (length bytes == 0) ≡ false = ground arith in rw (behind, some_left)

field_size : (f : Field) → 2 + length f.value ≤ length (field_bytes f)
field_size f =
    let n : ℕ = length f.value % 2 ^ 8 in
    let size = length-append (front f.kind n) f.value in
    rw (field_bytes-front f.kind f.value) (omega (arith, size, front_size f.kind n))

nonempty_items :
    (g : Field) (fs : List Field) → (length (concat (map field_bytes (g ∷ fs))) == 0) ≡ false
nonempty_items g fs =
    let size = length-append (field_bytes g) (concat (map field_bytes fs)) in
    ground (arith, size, field_size g)

module _ (room : List ℕ → ℕ) (enough : (xs : List ℕ) → length xs ≤ room xs) where
  decode_crt-front :
      (fuel : ℕ) (c : Scp11Crt) (k : Kind) (n : ℕ) (v rest : List ℕ)
      → n ≡ length v
      → decode_crt room (suc fuel) (front k n ++ (v ++ rest)) c
        ≡ crt_rest
            (decode_crt room fuel)
            (front k n ++ (v ++ rest))
            ((length (front k n) + n) % 2 ^ 8)
            (true, put k v c)
  unfolding decode_crt crt_tag Treated
  decode_crt-front fuel c k n v rest e =
      let bytes : List ℕ = front k n ++ (v ++ rest) in
      let how = treated k n v in
      let fits = le→leb (length bytes) (room bytes) (enough bytes) in
      let found : gpc_tlv_get_tag (bytes ++ 0 ∷ []) (room bytes) (length bytes)
          ≡ ok (kind_tag k, n) =
        rw append_assoc
          (get_tag-front k n (room bytes) (length bytes) ((v ++ rest) ++ 0 ∷ []) fits) in
      rw (found, how.0 (v ++ rest), how.1)
        (crt_item-value (decode_crt room fuel) (decode_pk room fuel) c k n v rest e)

  -- One item: it is stored, and the rest is decoded behind it, where the bytes that `skip` counts are
  -- those of the item.
  decode_crt-field :
      (fuel : ℕ) (c : Scp11Crt) (f : Field) (rest : List ℕ)
      → length f.value < 256
      → decode_crt room (suc fuel) (field_bytes f ++ rest) c
        ≡ crt_rest
            (decode_crt room fuel)
            (field_bytes f ++ rest)
            (length (field_bytes f) % 2 ^ 8)
            (true, put f.kind f.value c)
  decode_crt-field fuel c f rest h =
      let n : length f.value % 2 ^ 8 ≡ length f.value = omega arith in
      let bytes : field_bytes f ≡ front f.kind (length f.value) ++ f.value =
        rw n at (field_bytes-front f.kind f.value) in
      let size = length-append (front f.kind (length f.value)) f.value in
      rw (bytes, size, append_assoc)
        (decode_crt-front fuel c f.kind (length f.value) f.value rest refl)

  decode_crt-fits :
      (fuel : ℕ) (c : Scp11Crt) (f : Field) (rest : List ℕ)
      → length (field_bytes f) < 256
      → decode_crt room (suc fuel) (field_bytes f ++ rest) c ≡ (
          if length rest == 0
          then ok (true, put f.kind f.value c)
          else decode_crt room fuel rest (put f.kind f.value c))
  decode_crt-fits fuel c f rest h =
      decode_crt-field fuel c f rest (omega (arith, field_size f))
      ∙ crt_rest-fits (decode_crt room fuel) (put f.kind f.value c) (field_bytes f) rest h

  -- Items of fewer than 256 bytes each, encoded one after the other, are decoded one after the other:
  -- the code returns true, and the certificate holds what they add to it. The fuel is one step an
  -- item, and the difference of addresses is no smaller than the number of bytes.
  pub decode_crt-fields :
      (fs : List Field) (f : Field) (fuel : ℕ) (c : Scp11Crt)
      → All (λ (g : Field). length (field_bytes g) < 256) (f ∷ fs)
      → length (f ∷ fs) ≤ fuel
      → decode_crt room fuel (concat (map field_bytes (f ∷ fs))) c
        ≡ ok (true, foldl (λ (d : Scp11Crt) (g : Field). put g.kind g.value d) c (f ∷ fs))
  decode_crt-fields fs f zero c a h = absurd (omega arith)
  decode_crt-fields [] f (suc fuel) c a h = decode_crt-fits fuel c f [] a.0
  decode_crt-fields (g ∷ fs) f (suc fuel) c a h =
      let rest : List ℕ = concat (map field_bytes (g ∷ fs)) in
      let nonempty = nonempty_items g fs in
      decode_crt-fits fuel c f rest a.0
      ∙ (rw nonempty (decode_crt-fields fs g fuel (put f.kind f.value c) a.1 (omega arith)))

  -- An item of exactly 256 bytes makes `skip` start again at 0: the code decodes the same bytes again,
  -- and never returns, whatever follows the item.
  pub decode_crt-field_wraps :
      (f : Field) (rest : List ℕ) (fuel : ℕ) (c : Scp11Crt)
      → length (field_bytes f) ≡ 256
      → decode_crt room fuel (field_bytes f ++ rest) c ≡ stuck
  unfolding decode_crt
  decode_crt-field_wraps f rest zero c e = refl
  decode_crt-field_wraps f rest (suc fuel) c e =
      let long : 0 < length (field_bytes f ++ rest) =
        omega (arith, length-append {0} (field_bytes f) rest) in
      decode_crt-field fuel c f rest (omega (arith, field_size f))
      ∙ (rw e (
          crt_rest-wraps (decode_crt room fuel) (put f.kind f.value c) (field_bytes f ++ rest)
            long))
      ∙ decode_crt-field_wraps f rest fuel (put f.kind f.value c) e
