-- ===== src/Apdu/Tests.antt =====
-- The builder at concrete commands and responses, with a cipher that changes nothing.
use jubiter_sdk_c.Common.{
  ℕ, ◌+◌, ◌%◌, ◌<◌, ◌≤◌, ◌≡◌, refl, ◌⊎◌, false, Option, none, some, List, [], ◌∷◌, ◌++◌, ◌==◌,
  if◌then◌else◌, length, replicate, slice, ok, fail, fault, arith,
}
use jubiter_sdk_c.Gpc.Scp03.{Aes, IsCipher, Scp03, returned_false}
use jubiter_sdk_c.Apdu.Format.{
  Apdu, ResponseApdu, decode, build_apdu, build_data, build_le, size_bytes,
}
use jubiter_sdk_c.Apdu.Parse.{read_apdu, read_apdu-build_apdu}
use jubiter_sdk_c.Apdu.Response.{response_bytes, decode_sizes}
use jubiter_sdk_c.Apdu.Builder.{Scp11, Builder, parse_safe_apdu_resp}
use jubiter_sdk_c.Apdu.Card.{Card, IsOpen}
use jubiter_sdk_c.Apdu.Session.{send_all, plain_all, send_all-plain_all}
use jubiter_sdk_c.Apdu.Errors.{parse_safe_apdu_resp_forged}

whole_blocks : List ℕ → Option (List ℕ)
whole_blocks text = if length text % 16 == 0 then some text else none

abbrev no_cipher : Aes
no_cipher = record {
  key_ok = λ key. length key == 16;
  cbc_encrypt = λ key vector text. whole_blocks text;
  cbc_decrypt = λ key vector text. whole_blocks text;
  mac = λ key message. replicate 15 0 ++ (length message % 256 ∷ []);
}

whole_blocks_lem : (text : List ℕ) → length text % 16 ≡ 0 → whole_blocks text ≡ some text
unfolding whole_blocks
whole_blocks_lem text h = ground arith

no_cipher-IsCipher : IsCipher no_cipher
no_cipher-IsCipher = record {
  encrypts = λ key vector text good whole.
      (text, whole_blocks_lem text whole, refl, whole_blocks_lem text whole);
  mac_size = λ key message. refl;
}

abbrev session_key : List ℕ
session_key = replicate 16 7

abbrev keys : Scp11
keys = record { is_empty = false; s_enc = session_key; s_mac = session_key; s_rmac = session_key }

keys-IsOpen : IsOpen no_cipher keys
keys-IsOpen = record {
  present = refl;
  enc_ok = refl;
  mac_size = omega arith;
  rmac_size = omega arith;
}

abbrev channel : Scp03
channel = record { counter = 1; mac_chain = session_key }

abbrev card : Card
card = record { counter = 1; chain = session_key }

abbrev blank : Builder
blank = record { scp03_ptr = none; scp11_ptr = none }

abbrev select : Apdu
select = record { cla = 0x00; ins = 0xA4; p1 = 4; p2 = 0; lc = 3; le = 0; body = 1 ∷ 2 ∷ 3 ∷ [] }

abbrev ask : Apdu
ask = record { cla = 0x80; ins = 0xCA; p1 = 0; p2 = 0; lc = 0; le = 300; body = [] }

-- The application counts its commands and sends the instruction back.
abbrev count : (cla ins p1 p2 : ℕ) → List ℕ → ℕ → List ℕ × ℕ
count cla ins p1 p2 text n = (ins ∷ n ∷ [], n + 1)

send_all-plain_all_example :
    (c' : Card) × (send_all no_cipher keys count blank 100
        (select ∷ ask ∷ [])
        (some channel)
        (card, 0)
      ≡ (
        ok (record { w_ret = 0x9000; ret_data = some (0xA4 ∷ 0 ∷ []) })
            ∷ ok (record { w_ret = 0x9000; ret_data = some (0xCA ∷ 1 ∷ []) })
            ∷ [],
        (c', 2),
      ))
unfolding plain_all
send_all-plain_all_example =
    send_all-plain_all no_cipher no_cipher-IsCipher keys keys-IsOpen count blank 100
      (select ∷ ask ∷ []) channel card 0 (record { same_counter = refl; same_chain = refl })
      (
        record {
          cla_byte = omega arith;
          ins_byte = omega arith;
          p1_byte = omega arith;
          p2_byte = omega arith;
          fits = omega arith;
        },
        (
          record {
            cla_byte = omega arith;
            ins_byte = omega arith;
            p1_byte = omega arith;
            p2_byte = omega arith;
            fits = omega arith;
          },
          tt,
        ),
      )
      (λ cla ins p1 p2 text now. omega arith)

read_apdu-build_apdu_example :
    (bytes : List ℕ) × (build_apdu ask [] ≡ ok bytes) × (read_apdu bytes ≡ some ask)
read_apdu-build_apdu_example = read_apdu-build_apdu ask (record {
  cla_byte = omega arith;
  ins_byte = omega arith;
  p1_byte = omega arith;
  p2_byte = omega arith;
  lc_size = refl;
  lc_fits = omega arith;
  le_fits = omega arith;
})

build_select : build_apdu select [] ≡ ok (0x00 ∷ 0xA4 ∷ 4 ∷ 0 ∷ 3 ∷ 1 ∷ 2 ∷ 3 ∷ [])
unfolding build_apdu build_data build_le size_bytes slice
build_select = refl

abbrev nine_bytes : List ℕ
nine_bytes = replicate 9 0x90

decode_sizes_example :
    ((length nine_bytes < 8) × (decode nine_bytes ≡ fail returned_false))
    ⊎ ((8 ≤ length nine_bytes) × (length nine_bytes ≤ 9) × (decode nine_bytes ≡ fault))
    ⊎ ((r : ResponseApdu) × (decode nine_bytes ≡ ok r)
        × (length r.cmac ≡ 8)
        × (nine_bytes ≡ response_bytes r))
decode_sizes_example = decode_sizes nine_bytes (λ e. omega (arith, e))

parse_safe_apdu_resp_forged_example :
    parse_safe_apdu_resp no_cipher (some channel) (some keys) (0x90 ∷ 0x00 ∷ []) none
    ≡ (fail 1, some channel)
unfolding decode
parse_safe_apdu_resp_forged_example =
    parse_safe_apdu_resp_forged no_cipher no_cipher-IsCipher keys keys-IsOpen channel
      (0x90 ∷ 0x00 ∷ []) none (record { body = []; cmac = []; sw1 = 0x90; sw2 = 0x00 }) refl refl
      (λ e. cc)
