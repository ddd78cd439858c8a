-- ===== src/Utility/Tests.antt =====
-- The helpers of src/utility/util.cpp at concrete inputs.
use jubiter_sdk_c.Common.{◌≡◌, refl, List, [], ◌∷◌, map, concat, replicate, slice, ok, fault, arith}
use jubiter_sdk_c.Utility.Tlv.{parse_tlv, parse_items, tlv_item, tlv_length, tollv}
use jubiter_sdk_c.Utility.Hex.{
  char_ptr_2_hex_str, hex_value, is_space, or_zero, two_digits, second_number, number_in, carried,
  hex_loop, hex_str_2_char_ptr,
}
use jubiter_sdk_c.Utility.HexRoundTrip.{hex_str_2_char_ptr-char_ptr_2_hex_str}
use jubiter_sdk_c.Utility.TlvRoundTrip.{Item, item_bytes, parse_tlv-item_bytes}

abbrev two_items : List Item
two_items =
    record { tag = 0x4F; value = 0xD1 ∷ 0x56 ∷ [] }
    ∷ record { tag = 0x50; value = replicate 300 7 }
    ∷ []

parse_tlv-item_bytes_example :
    parse_tlv (concat (map item_bytes two_items)) ≡ ok (map (λ x. x.value) two_items)
parse_tlv-item_bytes_example = parse_tlv-item_bytes two_items (omega arith, (omega arith, tt))

-- A length that is larger than what is left.
parse_cut : parse_tlv (0x4F ∷ 0x05 ∷ 1 ∷ []) ≡ fault
unfolding parse_tlv parse_items tlv_item tlv_length slice
parse_cut = refl

tollv_two : tollv (0x41 ∷ 0x42 ∷ []) ≡ 4 ∷ 0x20 ∷ 0x41 ∷ 0x42 ∷ 0x00 ∷ []
unfolding tollv
tollv_two = refl

hex_str_2_char_ptr-char_ptr_2_hex_str_example :
    hex_str_2_char_ptr (char_ptr_2_hex_str (0x0A ∷ 0xFF ∷ [])) ≡ ok (0x0A ∷ 0xFF ∷ [])
hex_str_2_char_ptr-char_ptr_2_hex_str_example =
    hex_str_2_char_ptr-char_ptr_2_hex_str (0x0A ∷ 0xFF ∷ []) (omega arith, (omega arith, tt))

-- A text of other letters is read as zeros.
no_digits : hex_str_2_char_ptr (0x78 ∷ 0x79 ∷ []) ≡ ok (0 ∷ [])
unfolding hex_str_2_char_ptr hex_loop number_in carried hex_value is_space or_zero two_digits
    second_number
no_digits = refl
