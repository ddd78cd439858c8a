-- ===== src/Blade/Handshake/Tests.antt =====
-- A handshake with a device that has two answers.
use jubiter_sdk_c.Common.{
  ℕ, ◌+◌, ◌%◌, ◌≡◌, ◌⊎◌, refl, true, false, some, List, [], ◌∷◌, ◌++◌, length, take, replicate,
  slice, Outcome, ok, fail,
}
use jubiter_sdk_c.Gpc.TlvBuf.{TlvBuf, cleared, encode, encode_lv, tag_bytes, same_bytes}
use jubiter_sdk_c.Gpc.Scp03.{Scp03, mac_chaining}
use jubiter_sdk_c.Gpc.Certificate.{Scp11Crt}
use jubiter_sdk_c.Gpc.Session.{SharedInfo, SessionKey}
use jubiter_sdk_c.Gpc.Session.Channel.{Crypto, Channel, is_open}
use jubiter_sdk_c.Gpc.Session.Receipt.{blank_key, blank_response}
use jubiter_sdk_c.Gpc.Session.Answer.{response_of}
use jubiter_sdk_c.Blade.Handshake.{KeyPair, open_channel}
use jubiter_sdk_c.Gpc.Session.{
  session_key_empty, lacks_key, lacks_key_info, decode_response, encode_v, has_card_group_id,
  key_part, mutual_auth, mutual_auth_bytes, response_item, response_store, response_tag,
  session_key_decode, shared_info_bytes, shared_info_v,
}
use jubiter_sdk_c.Gpc.Session.Channel.{
  initialize, channel_empty, shared_info_empty, crt_empty, get_oce_cert, calc_secret, card_group,
  check_receipt, derive_from, derived, get_mac_chain, get_mutual_auth_data, hashed_point,
  key_derivation, open_secure_channel, open_with,
}
use jubiter_sdk_c.Blade.Handshake.{
  after_initialize, after_certificate, after_authenticate, after_open,
}
use jubiter_sdk_c.Blade.Tokens.{perform_security_operation, mutual_authenticate}
use jubiter_sdk_c.Blade.Commands.{ask}
use jubiter_sdk_c.Blade.Send.{send_apdu, last_word, received, send_by, transmitted}
use jubiter_sdk_c.Apdu.Format.{set_apdu, set_data, build_apdu, build_data, build_le, size_bytes}
use jubiter_sdk_c.Gpc.Kdf.{counter_msb, kdf2_sha256, kdf_loop, next_counter}
use jubiter_sdk_c.Gpc.TagParse.{gpc_tlv_get_tag, long_length, tag_of}
use jubiter_sdk_c.Blade.Handshake.Opened.{IsChained, open_channel-IsChained}

abbrev room : List ℕ → ℕ
room xs = length xs + 1000

abbrev small_crypto : Crypto
small_crypto = record {
  ecdh_multiply = λ rk pk. some (0x04 ∷ (take 32 rk ++ replicate 32 0));
  sha1 = λ text. take 20 text;
  sha256 = λ text. replicate 31 0 ++ (length text % 256 ∷ []);
  aes_cmac = λ key message. replicate 15 0 ++ (length message % 256 ∷ []);
}

abbrev mark : TlvBuf
mark = record { tag = 0x42; value = 7 ∷ [] }

abbrev some_crt : Scp11Crt
some_crt = record {
  raw = mark;
  tbs = mark;
  serial = mark;
  cakloc_id = mark;
  valid_from = mark;
  valid_to = mark;
  pk = record { q = mark; param = mark };
  subject_id = mark;
  key_usage = 0;
  sig = mark;
}

abbrev empty_crt : Scp11Crt
empty_crt = record {
  raw = cleared;
  tbs = cleared;
  serial = cleared;
  cakloc_id = cleared;
  valid_from = cleared;
  valid_to = cleared;
  pk = record { q = cleared; param = cleared };
  subject_id = cleared;
  key_usage = 0;
  sig = cleared;
}

abbrev info : SharedInfo
info = record {
  scp_id_param = record { tag = 0x90; value = 0x11 ∷ 0x07 ∷ [] };
  key_usage = record { tag = 0x95; value = 0x3C ∷ [] };
  key_type = record { tag = 0x80; value = 0x88 ∷ [] };
  key_length = record { tag = 0x81; value = 0x10 ∷ [] };
  host_card_id = record { tag = 0x84; value = 1 ∷ 2 ∷ [] };
  card_group_id = record { tag = 0; value = 1 ∷ 2 ∷ 3 ∷ 4 ∷ [] };
}

abbrev zeros_and_size : List ℕ
zeros_and_size = replicate 15 0 ++ (54 ∷ [])

abbrev keys : SessionKey
keys = record {
  raw = cleared;
  key_dek = replicate 16 0;
  s_enc = zeros_and_size;
  s_mac = replicate 16 0;
  s_rmac = zeros_and_size;
  s_dek = replicate 16 0;
}

abbrev card_key : List ℕ
card_key = 0x04 ∷ 9 ∷ 9 ∷ []

abbrev receipt : List ℕ
receipt = replicate 15 0 ++ (93 ∷ [])

abbrev before : Channel
before = record {
  sk = blank_key;
  shared_info = info;
  sd_crt = empty_crt;
  oce_crt = some_crt;
  oce_rk = replicate 32 1;
  e_pk = [];
  e_rk = [];
  receipt_key = blank_response;
}

abbrev opened : Channel
opened = record before {
  sk = keys;
  e_pk = replicate 65 4;
  e_rk = replicate 32 2;
  receipt_key = response_of card_key receipt;
}

abbrev pair : KeyPair
pair = record { public_key = replicate 65 4; private_key = replicate 32 2 }

abbrev start : Scp03
start = record { counter = 1; mac_chain = [] }

-- A device that gives its answers one after the other.
abbrev next_answer : List ℕ → List (List ℕ) → Outcome (List ℕ) × List (List ℕ)
next_answer command [] = (fail 1, [])
next_answer command (x ∷ xs) = (ok x, xs)

abbrev answers : List (List ℕ)
answers =
    (0x90 ∷ 0x00 ∷ [])
    ∷ (0x5F ∷ 0x49 ∷ 3 ∷ (card_key ++ (0x86 ∷ 16 ∷ (receipt ++ (0x90 ∷ 0x00 ∷ [])))))
    ∷ []

channel_opened :
    open_channel small_crypto room 2 (some next_answer) pair start before answers
    ≡ (ok tt, record start { mac_chain = receipt }, opened, [])
unfolding open_channel is_open slice mac_chaining encode encode_lv same_bytes tag_bytes
    session_key_empty lacks_key lacks_key_info decode_response encode_v has_card_group_id key_part
    mutual_auth mutual_auth_bytes response_item response_store response_tag session_key_decode
    shared_info_bytes shared_info_v initialize channel_empty shared_info_empty crt_empty
    get_oce_cert calc_secret card_group check_receipt derive_from derived get_mac_chain
    get_mutual_auth_data hashed_point key_derivation open_secure_channel open_with after_initialize
    after_certificate after_authenticate after_open perform_security_operation mutual_authenticate
    ask send_apdu last_word received send_by transmitted set_apdu set_data build_apdu build_data
    build_le size_bytes counter_msb kdf2_sha256 kdf_loop next_counter gpc_tlv_get_tag long_length
    tag_of
channel_opened = refl

open_channel-IsChained_example :
    ((is_open before ≡ true)
      × (record start { mac_chain = receipt } ≡ start)
      × (opened ≡ before)
      × ([] ≡ answers))
    ⊎ ((is_open before ≡ false)
        × IsChained small_crypto room 2
            (some next_answer)
            pair
            start
            (record start { mac_chain = receipt })
            before
            opened
            answers
            [])
open_channel-IsChained_example =
    open_channel-IsChained small_crypto room 2 (some next_answer) pair start
      (record start { mac_chain = receipt }) before opened answers [] channel_opened
