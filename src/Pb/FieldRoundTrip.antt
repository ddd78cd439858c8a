-- ===== src/Pb/FieldRoundTrip.antt =====
-- Fields of pbparse/, read back from what `serialize` writes.
use jubiter_sdk_c.Common.{
  ℕ, zero, suc, ◌+◌, ◌-◌, ◌/◌, ◌%◌, ◌^◌, ◌≤◌, ◌<◌, ◌≡◌, refl, sym, true, false, Bool-cases, inl,
  inr, Option, none, some, List, [], ◌∷◌, ◌++◌, append-nil, append_assoc, bit_or_top, ltb,
  ltb-false, ◌==◌, if◌then◌else◌, length, length-append, length-replicate, take, drop, take-length,
  drop-length, take_all, drop_all, replicate, ok, arith,
}
use jubiter_sdk_c.Pb.Varint.{resize, max_bytes}
use jubiter_sdk_c.Pb.VarintRoundTrip.{
  varint, varint_more, read_varint, read_varint-varint, encode-varint,
}
use jubiter_sdk_c.Pb.Field.{
  FieldType, Wire, PbBuf, is_bytes_type, length_loop, encode_length, pb_length_delimited, copy_at,
  append_part, serialize, wiretype_length_delimited,
}

-- What the library documents: a tag fits 32 bits, and its size is that of its varint.
pub record IsWire (wire : Wire) : Type 0 where
  pub tag_fits : (field_number wire_type : ℕ) → wire.make_tag field_number wire_type < 2 ^ 32
  pub tag_bytes :
      (field_number : ℕ) (type : FieldType)
      → is_bytes_type type ≡ true
      → wire.tag_size field_number type
        ≡ length (varint max_bytes (wire.make_tag field_number wiretype_length_delimited))

-- A reader of a field with a length: its tag, its value, and what follows.
unfoldable pub read_value : ℕ → Option (ℕ × List ℕ) → Option (ℕ × List ℕ × List ℕ)
read_value tag none = none
read_value tag (some (n, body)) =
    if ltb (length body) n then none else some (tag, take n body, drop n body)

unfoldable pub read_behind : Option (ℕ × List ℕ) → Option (ℕ × List ℕ × List ℕ)
read_behind none = none
read_behind (some (tag, rest)) = read_value tag (read_varint rest)

unfoldable pub read_delimited : List ℕ → Option (ℕ × List ℕ × List ℕ)
read_delimited bytes = read_behind (read_varint bytes)

take_front : (n : ℕ) (front extra : List ℕ) → n ≡ length front → take n (front ++ extra) ≡ front
take_front n front extra e = rw e (take-length front extra)

bytes_follow : (x : ℕ) (bytes : List ℕ) → (length (x ∷ bytes) == 0) ≡ false
bytes_follow x bytes = ground arith

append_part-append :
    (n : ℕ) (front bytes : List ℕ) → n ≡ length front → append_part n bytes front ≡ front ++ bytes
unfolding append_part copy_at resize
append_part-append n front [] e = rw (append-nil front)
append_part-append n front (x ∷ bytes) e =
    let m = n + length (x ∷ bytes) in
    let whole = take_all m front (omega arith) in
    let extra = replicate (m - length front) 0 in
    let head = take_front n front extra e in
    let tail : drop m (front ++ extra) ≡ [] = drop_all m (front ++ extra) (
      omega (arith, length-append front extra, length-replicate {A = ℕ} (m - length front) 0, e)) in
    rw (bytes_follow x bytes, whole, head, tail, append-nil bytes)

length_last :
    (n sz : ℕ) (bytes : List ℕ)
    → sz < 128
    → length_loop (suc n) sz bytes ≡ ok (bytes ++ varint (suc n) sz)
unfolding length_loop varint
length_last n sz bytes h =
    let last : ltb sz 0x80 ≡ true = ground arith in
    let byte : sz % 256 ≡ sz = omega arith in rw (last, byte)

length_more :
    (n sz : ℕ) (bytes : List ℕ)
    → 128 ≤ sz
    → length_loop (suc n) sz bytes ≡ length_loop n (sz / 128) (bytes ++ ((sz % 128 + 128) ∷ []))
unfolding length_loop
length_more n sz bytes h =
    let more : ltb sz 0x80 ≡ false = ground arith in
    let byte = bit_or_top (sz % 256) (omega arith) in
    let low : sz % 256 % 128 ≡ sz % 128 = omega arith in rw (more, byte, low)

length_loop-varint :
    (n sz : ℕ) (bytes : List ℕ)
    → sz < 128 ^ suc n
    → length_loop (suc n) sz bytes ≡ ok (bytes ++ varint (suc n) sz)
length_loop-varint zero sz bytes h = length_last zero sz bytes (omega arith)
length_loop-varint (suc n) sz bytes h = elim (Bool-cases (ltb sz 0x80)) [
  | inl last ↦ length_last (suc n) sz bytes (ground arith)
  | inr more ↦
      let high : 128 ≤ sz = ground arith in
      let others =
        length_loop-varint n (sz / 128) (bytes ++ ((sz % 128 + 128) ∷ [])) (omega arith) in
      rw (length_more (suc n) sz bytes high, varint_more (suc n) sz high)
        (rw (append_assoc bytes ((sz % 128 + 128) ∷ []) (varint (suc n) (sz / 128))) at others)
]

-- A field with a length, of a type that `pb_length_delimited` accepts and with fewer than 2 ^ 63
-- bytes, is read back from what `serialize` writes, whatever follows it, if the library writes its
-- tags as it documents.
pub read_delimited-serialize :
    (wire : Wire) (garbage type : FieldType) (field_number : ℕ) (v rest : List ℕ)
    → IsWire wire
    → is_bytes_type type ≡ true
    → length v < 2 ^ 63
    → (b : PbBuf) × (bytes : List ℕ) × (pb_length_delimited wire garbage field_number type v ≡ ok b)
      × (serialize wire b ≡ ok bytes)
      × (read_delimited (bytes ++ rest)
          ≡ some (wire.make_tag field_number wiretype_length_delimited, v, rest))
unfolding pb_length_delimited encode_length serialize read_delimited read_behind read_value
read_delimited-serialize wire garbage type field_number v rest law good fits =
    let t = wire.make_tag field_number wiretype_length_delimited in
    let small = law.tag_fits field_number wiretype_length_delimited in
    let tag_bytes = varint 10 t in
    let size_bytes = varint 10 (length v) in
    let sized = length_loop-varint 9 (length v) [] (omega arith) in
    let written =
      encode-varint t (resize (wire.tag_size field_number type) []) (omega (arith, small)) in
    let tag_size = law.tag_bytes field_number type good in
    let first = append_part-append (length tag_bytes) tag_bytes size_bytes refl in
    let second =
      append_part-append (length tag_bytes + length size_bytes) (tag_bytes ++ size_bytes) v
        (sym (length-append tag_bytes size_bytes)) in
    let tag_read = read_varint-varint 9 t (size_bytes ++ (v ++ rest)) (omega (arith, small)) in
    let size_read = read_varint-varint 9 (length v) (v ++ rest) (omega arith) in
    let enough = ltb-false (length (v ++ rest)) (length v) (omega (arith, length-append v rest)) in
    (
      record {
        tag = record { field_number = field_number; wire_type = wiretype_length_delimited };
        field_type = type;
        value = v;
        size_bytes = size_bytes;
      },
      (tag_bytes ++ size_bytes) ++ v,
      rw (good, sized),
      rw (written, tag_size, first, second),
      rw (
        append_assoc (tag_bytes ++ size_bytes) v rest,
        append_assoc tag_bytes size_bytes (v ++ rest),
        tag_read,
        size_read,
        enough,
        take-length v rest,
        drop-length v rest,
      ),
    )
