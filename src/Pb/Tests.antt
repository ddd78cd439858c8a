-- ===== src/Pb/Tests.antt =====
-- Varints and fields of pbparse/ at concrete values.
use jubiter_sdk_c.Common.{
  ℕ, ◌+◌, ◌*◌, ◌/◌, ◌%◌, ◌^◌, ◌<◌, ◌≤◌, ◌≡◌, refl, ◌⊎◌, some, List, [], ◌∷◌, ◌++◌, length, ok,
  fault, arith,
}
use jubiter_sdk_c.Pb.Varint.{encode, size, size_loop, encode_loop, write, resize}
use jubiter_sdk_c.Pb.VarintRoundTrip.{read_varint, varint, read_varint-encode}
use jubiter_sdk_c.Pb.Field.{
  is_bytes_type, type_bytes, type_double, Wire, PbBuf, pb_length_delimited, serialize,
}
use jubiter_sdk_c.Pb.FieldRoundTrip.{IsWire, read_delimited, read_delimited-serialize}

encode_300 : encode 300 [] ≡ ok (0xAC ∷ 0x02 ∷ [])
unfolding encode size size_loop encode_loop write resize
encode_300 = refl

read_varint-encode_example :
    ((bytes : List ℕ) × (300 < 2 ^ 63)
      × (encode 300 [] ≡ ok bytes)
      × (read_varint (bytes ++ (9 ∷ [])) ≡ some (300, 9 ∷ []))
      × (1 ≤ length bytes)
      × (length bytes ≤ 10))
    ⊎ ((2 ^ 63 ≤ 300) × (encode 300 [] ≡ fault))
read_varint-encode_example = read_varint-encode 300 (9 ∷ [])

-- Tags as the library makes them, cut to 32 bits.
abbrev wire : Wire
wire = record {
  make_tag = λ f w. (f * 8 + w) % 2 ^ 32;
  get_tag_field_number = λ t. t / 8;
  get_tag_wire_type = λ t. t % 8;
  tag_size = λ f type. length (varint 10 ((f * 8 + 2) % 2 ^ 32));
}

wire-IsWire : IsWire wire
wire-IsWire = record { tag_fits = λ f w. omega arith; tag_bytes = λ f type good. refl }

read_delimited-serialize_example :
    (b : PbBuf) × (bytes : List ℕ) × (pb_length_delimited wire type_double 3 type_bytes (1 ∷ 2 ∷ [])
      ≡ ok b)
    × (serialize wire b ≡ ok bytes)
    × (read_delimited (bytes ++ (9 ∷ [])) ≡ some (26, 1 ∷ 2 ∷ [], 9 ∷ []))
unfolding is_bytes_type
read_delimited-serialize_example =
    read_delimited-serialize wire type_double type_bytes 3 (1 ∷ 2 ∷ []) (9 ∷ []) wire-IsWire refl
      (omega arith)
