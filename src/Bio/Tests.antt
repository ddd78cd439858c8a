-- ===== src/Bio/Tests.antt =====
-- Fingerprints at concrete inputs.
use jubiter_sdk_c.Common.{ℕ, ◌≡◌, refl, none, List, [], ◌∷◌, fail, arith}
use jubiter_sdk_c.Status.{jubr_error}
use jubiter_sdk_c.Bio.{
  binary_digits, dec_to_binary, set_bits, byte_fingerprints, bitmap_fingerprints, fingerprint_list,
  enum_error, enum_answer,
}
use jubiter_sdk_c.Bio.Fingerprints.{sum_of_bits, number_of, fingerprint_list-number_of}

-- The fingerprints 0, 2 and 8.
abbrev three_fingerprints : List ℕ
three_fingerprints = 0x01 ∷ 0x05 ∷ []

three_numbers : fingerprint_list three_fingerprints ≡ 0 ∷ 2 ∷ 8 ∷ []
unfolding fingerprint_list bitmap_fingerprints byte_fingerprints set_bits dec_to_binary
    binary_digits
three_numbers = refl

fingerprint_list-number_of_example : sum_of_bits (fingerprint_list three_fingerprints) ≡ 0x0105
unfolding number_of
fingerprint_list-number_of_example =
    fingerprint_list-number_of three_fingerprints (omega arith, (omega arith, tt)) (omega arith)

-- The answer that a comment of `EnumFingerprint` reads as 0, 1 and 3 to 7, with the fingerprint 2
-- deleted.
deleted_one : fingerprint_list (0x00 ∷ 0xfd ∷ []) ≡ 0 ∷ 2 ∷ 3 ∷ 4 ∷ 5 ∷ 6 ∷ 7 ∷ []
unfolding fingerprint_list bitmap_fingerprints byte_fingerprints set_bits dec_to_binary
    binary_digits
deleted_one = refl

-- The status of a PIN that was not verified is no case of the switch.
pin_not_verified :
    enum_answer (record { w_ret = 0x9BEF; ret_len = none; ret_data = [] }) ≡ fail jubr_error
unfolding enum_answer enum_error
pin_not_verified = refl
