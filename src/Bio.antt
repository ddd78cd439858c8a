-- ===== src/Bio.antt =====
-- src/token/JubiterBIOToken.cpp: the fingerprints that a device knows.
pub mod Fingerprints
pub mod Identity
mod Tests
use Prim.Native.Nat.{bit_and, bit_or}
use mathlib.Core.List.{reverse}
use jubiter_sdk_c.Common.{
  after, ℕ, zero, suc, ◌+◌, ◌*◌, ◌/◌, ◌%◌, ◌^◌, Option, some, List, [], ◌∷◌, ◌++◌, map, concat,
  ◌==◌, if◌then◌else◌, length, Outcome, ok, fail,
}
use jubiter_sdk_c.Status.{jubr_error, jubr_device_pin_error}
use jubiter_sdk_c.Apdu.Format.{set_apdu}
use jubiter_sdk_c.Gpc.TlvBuf.{encode, encode_t}
use jubiter_sdk_c.Blade.Send.{into, Sent, send_apdu}
use jubiter_sdk_c.Context.Path.{to_string}

abbrev pub jubr_bio_fingerprint_modality_error : ℕ
jubr_bio_fingerprint_modality_error = 0x40009BE0

abbrev pub jubr_bio_space_limitation : ℕ
jubr_bio_space_limitation = 0x40009BEA

abbrev pub jubr_bio_timeout : ℕ
jubr_bio_timeout = 0x40009BEE

abbrev pub jubr_other_error : ℕ
jubr_other_error = 0x1003

-- The switch over `ret | 0x40000000`.
unfoldable pub enum_error : ℕ → ℕ
enum_error ret =
    let word = bit_or ret 0x40000000 in
    if word == jubr_bio_fingerprint_modality_error
    then jubr_bio_fingerprint_modality_error
    else if word == jubr_bio_space_limitation
    then jubr_bio_space_limitation
    else if word == 0x9BE1
    then jubr_other_error
    else if word == jubr_bio_timeout
    then jubr_bio_timeout
    else if word == 0x9BEF
    then jubr_device_pin_error
    else jubr_error

-- The loop of `decToBinary`: a byte has no more binary digits than its size.
unfoldable pub binary_digits : ℕ → ℕ → List ℕ
binary_digits zero n = []
binary_digits (suc fuel) n =
    let rest = binary_digits fuel (n / 2) in if n == 0 then [] else n % 2 ∷ rest

unfoldable pub dec_to_binary : ℕ → List ℕ
unfolding binary_digits
dec_to_binary n = binary_digits n n

-- The loop over `bit`, from the number of the first bit on; an entry has 16 bits.
unfoldable pub set_bits : ℕ → List ℕ → List ℕ
set_bits number [] = []
set_bits number (bit ∷ bits) =
    let rest = set_bits (number + 1) bits in if bit == 0 then rest else number % 2 ^ 16 ∷ rest

-- The loop over `shift`.
unfoldable pub byte_fingerprints : ℕ → ℕ → List ℕ
unfolding dec_to_binary set_bits
byte_fingerprints i t =
    set_bits (i * 8) (dec_to_binary (bit_and t 0x0F))
    ++ set_bits (4 + i * 8) (dec_to_binary (bit_and (t / 2 ^ 4) 0x0F))

-- The loop over `i`.
unfoldable pub bitmap_fingerprints : ℕ → List ℕ → List ℕ
unfolding byte_fingerprints
bitmap_fingerprints i [] = []
bitmap_fingerprints i (t ∷ bitmap) = byte_fingerprints i t ++ bitmap_fingerprints (i + 1) bitmap

unfoldable pub fingerprint_list : List ℕ → List ℕ
unfolding bitmap_fingerprints
fingerprint_list answer = bitmap_fingerprints 0 (reverse answer)

unfoldable pub enum_data : List ℕ
enum_data = encode (record { tag = 0xDFFF; value = encode_t (record { tag = 0x8211; value = [] }) })

unfoldable pub enum_answer : Sent → Outcome (List ℕ)
unfolding enum_error fingerprint_list
enum_answer s =
    if s.w_ret == 0x9000
    then ok (concat (map (λ n. to_string n ++ 0x20 ∷ []) (fingerprint_list s.ret_data)))
    else fail (enum_error s.w_ret)

-- `EnumFingerprint`.
unfoldable pub enum_fingerprint :
    {D : Type 0} → Option (List ℕ → D → Outcome (List ℕ) × D) → D → Outcome (List ℕ) × D
unfolding enum_data enum_answer
enum_fingerprint device d =
    after (set_apdu 0x80 0xCB 0x80 0x00 (length enum_data) (some enum_data) 0, d)
      (λ apdu d1. after (send_apdu device apdu (into 1024) d1) (λ s d2. (enum_answer s, d2)))
