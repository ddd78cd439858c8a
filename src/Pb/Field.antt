-- ===== src/Pb/Field.antt =====
-- Fields of pbparse/: pb_tag.hpp, pb_buf.hpp, pb_varint.cpp and pb_length_delimited.cpp. The helpers
-- of google/protobuf/wire_format_lite.h are a parameter.
use Prim.Native.Nat.{bit_or}
use jubiter_sdk_c.Common.{
  ℕ, zero, suc, ◌+◌, ◌/◌, ◌%◌, ◌^◌, Bool, true, false, not, ◌&&◌, List, [], ◌∷◌, ◌++◌, ltb, ◌==◌,
  if◌then◌else◌, length, take, drop, Outcome, ok, stuck, ◌>>=◌,
}
use jubiter_sdk_c.Pb.Varint.{encode, resize, max_bytes}

-- The field types of `WireFormatLite`.
pub data FieldType : Type 0 where
  type_double type_float type_int64 type_uint64 type_int32 type_fixed64 type_fixed32 type_bool
        type_string type_group type_message type_bytes type_uint32 type_enum type_sfixed32
        type_sfixed64 type_sint32 type_sint64 :
      FieldType

-- `MakeTag`, `GetTagFieldNumber`, `GetTagWireType` and `TagSize` of the library.
pub record Wire : Type 0 where
  pub make_tag : (field_number wire_type : ℕ) → ℕ
  pub get_tag_field_number : ℕ → ℕ
  pub get_tag_wire_type : ℕ → ℕ
  pub tag_size : ℕ → FieldType → ℕ

abbrev pub wiretype_varint : ℕ
wiretype_varint = 0

abbrev pub wiretype_length_delimited : ℕ
wiretype_length_delimited = 2

pub record PbTag : Type 0 where
  pub field_number : ℕ
  pub wire_type : ℕ

pub record PbBuf : Type 0 where
  pub tag : PbTag
  pub field_type : FieldType
  pub value : List ℕ
  pub size_bytes : List ℕ

unfoldable pub tag_is_valid : PbTag → Bool
tag_is_valid t = not (t.field_number == 0)

-- The types that `pb_varint::encodeTag` accepts.
unfoldable pub is_varint_type : FieldType → Bool
is_varint_type type_int64 = true
is_varint_type type_uint64 = true
is_varint_type type_int32 = true
is_varint_type type_bool = true
is_varint_type type_uint32 = true
is_varint_type type_enum = true
is_varint_type type_sint32 = true
is_varint_type type_sint64 = true
is_varint_type _ = false

-- The types that `pb_length_delimited::encodeTag` accepts.
unfoldable pub is_bytes_type : FieldType → Bool
is_bytes_type type_string = true
is_bytes_type type_bytes = true
is_bytes_type type_message = true
is_bytes_type _ = false

-- `encodeLength`: a byte is put behind the others in every round.
unfoldable pub length_loop : ℕ → ℕ → List ℕ → Outcome (List ℕ)
length_loop zero sz bytes = stuck
length_loop (suc fuel) sz bytes =
    let more = length_loop fuel (sz / 2 ^ 7) (bytes ++ (bit_or (sz % 2 ^ 8) 0x80 ∷ [])) in
    if ltb sz 0x80 then ok (bytes ++ (sz % 2 ^ 8 ∷ [])) else more

unfoldable pub encode_length : List ℕ → Outcome (List ℕ)
encode_length value = length_loop max_bytes (length value) []

-- `std::copy` to `begin(o) + start`.
unfoldable pub copy_at : ℕ → List ℕ → List ℕ → List ℕ
copy_at start bytes o = take start o ++ (bytes ++ drop (start + length bytes) o)

-- A part behind the first `start` bytes, if there is one.
unfoldable pub append_part : ℕ → List ℕ → List ℕ → List ℕ
append_part start bytes o =
    if length bytes == 0 then o else copy_at start bytes (resize (start + length bytes) o)

module _ (wire : Wire) where
  unfoldable pub from_tag : ℕ → PbTag
  from_tag t = record {
    field_number = wire.get_tag_field_number t;
    wire_type = wire.get_tag_wire_type t;
  }

  -- `clear`; the type of a field is left as it is.
  unfoldable pub clear : FieldType → PbBuf
  clear type = record { tag = from_tag 0; field_type = type; value = []; size_bytes = [] }

  -- The constructor of a varint. `garbage` is the type that is not set yet.
  unfoldable pub pb_varint : FieldType → ℕ → FieldType → ℕ → Outcome PbBuf
  pb_varint garbage field_number type v =
      if is_varint_type type
      then (encode v [] >>= λ bytes. ok (record {
        tag = record { field_number = field_number; wire_type = wiretype_varint };
        field_type = type;
        value = bytes;
        size_bytes = [];
      }))
      else ok (clear garbage)

  -- The constructor of a string, of bytes or of a message.
  unfoldable pub pb_length_delimited : FieldType → ℕ → FieldType → List ℕ → Outcome PbBuf
  pb_length_delimited garbage field_number type v =
      if is_bytes_type type
      then (encode_length v >>= λ bytes. ok (record {
        tag = record { field_number = field_number; wire_type = wiretype_length_delimited };
        field_type = type;
        value = v;
        size_bytes = bytes;
      }))
      else ok (clear garbage)

  unfoldable pub size_tag : PbBuf → ℕ
  size_tag b = if length b.value == 0 then 0 else wire.tag_size (b.tag.field_number) b.field_type

  -- `pb_varint::size` and `pb_length_delimited::size`.
  unfoldable pub varint_size : PbBuf → ℕ
  varint_size b = size_tag b + length b.value

  unfoldable pub delimited_size : PbBuf → ℕ
  delimited_size b = size_tag b + length b.size_bytes + length b.value

  unfoldable pub varint_is_valid : PbBuf → Bool
  varint_is_valid b = if ltb 0 (varint_size b) then tag_is_valid b.tag else true

  unfoldable pub delimited_is_valid : PbBuf → Bool
  delimited_is_valid b =
      if ltb 0 (delimited_size b)
      then tag_is_valid b.tag && not (length b.size_bytes == 0) && not (length b.value == 0)
      else true

  unfoldable pub serialize : PbBuf → Outcome (List ℕ)
  serialize b = do
    let sz = wire.tag_size (b.tag.field_number) b.field_type
    o ← encode (wire.make_tag (b.tag.field_number) (b.tag.wire_type)) (resize sz [])
    ok (append_part (sz + length b.size_bytes) b.value (append_part sz b.size_bytes o))
