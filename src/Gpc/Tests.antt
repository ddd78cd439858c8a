-- ===== src/Gpc/Tests.antt =====
-- The encodings and the decoder of gpc/ at concrete items.
use jubiter_sdk_c.Common.{
  ℕ, ◌+◌, ◌≤◌, ◌≡◌, refl, true, List, [], ◌∷◌, ◌++◌, replicate, length, concat, map, ok, stuck,
  arith,
}
use jubiter_sdk_c.Gpc.TlvBuf.{cleared, tag_bytes}
use jubiter_sdk_c.Gpc.Certificate.{Scp11Crt, Scp11Pk, decode_crt}
use jubiter_sdk_c.Gpc.Certificate.Fields.{Field, field_bytes, put, serial_number, valid_from}
use jubiter_sdk_c.Gpc.Certificate.Decode.{decode_crt-fields, decode_crt-field_wraps}

abbrev room : List ℕ → ℕ
room xs = length xs + 1000

room_enough : (xs : List ℕ) → length xs ≤ room xs
room_enough xs = omega arith

abbrev empty_pk : Scp11Pk
empty_pk = record { q = cleared; param = cleared }

abbrev empty_crt : Scp11Crt
empty_crt = record {
  raw = cleared;
  tbs = cleared;
  serial = cleared;
  cakloc_id = cleared;
  valid_from = cleared;
  valid_to = cleared;
  pk = empty_pk;
  subject_id = cleared;
  key_usage = 0;
  sig = cleared;
}

abbrev serial_item : Field
serial_item = record { kind = serial_number; value = 1 ∷ 2 ∷ [] }

abbrev date_item : Field
date_item = record { kind = valid_from; value = 0x20 ∷ 0x20 ∷ 0x05 ∷ 0x25 ∷ [] }

decode_crt-fields_example :
    decode_crt room 2 (concat (map field_bytes (serial_item ∷ date_item ∷ []))) empty_crt
    ≡ ok (
      true,
      record empty_crt {
        serial = record { tag = 0x93; value = 1 ∷ 2 ∷ [] };
        valid_from = record { tag = 0x5F25; value = 0x20 ∷ 0x20 ∷ 0x05 ∷ 0x25 ∷ [] };
      },
    )
unfolding field_bytes tag_bytes put
decode_crt-fields_example =
    decode_crt-fields room room_enough (date_item ∷ []) serial_item 2 empty_crt
      (omega arith, (omega arith, tt)) (omega arith)

abbrev long_item : Field
long_item = record { kind = serial_number; value = replicate 254 1 }

decode_crt-field_wraps_example :
    decode_crt room 1000 (field_bytes long_item ++ []) empty_crt ≡ stuck
unfolding field_bytes tag_bytes
decode_crt-field_wraps_example =
    decode_crt-field_wraps room room_enough long_item [] 1000 empty_crt refl
