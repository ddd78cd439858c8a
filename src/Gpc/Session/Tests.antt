-- ===== src/Gpc/Session/Tests.antt =====
-- A channel that is opened with small hashes.
use jubiter_sdk_c.Common.{
  ℕ, ◌+◌, ◌%◌, ◌≡◌, ◌≤◌, ◌⊎◌, refl, true, false, some, List, [], ◌∷◌, ◌++◌, length, take, replicate,
  slice, ok, arith,
}
use jubiter_sdk_c.Gpc.TlvBuf.{cleared, encode, encode_lv, tag_bytes}
use jubiter_sdk_c.Gpc.Kdf.{kdf2_sha256, kdf_loop, counter_msb, next_counter}
use jubiter_sdk_c.Gpc.Certificate.{Scp11Crt}
use jubiter_sdk_c.Gpc.Session.{
  SharedInfo, SessionKey, ResponseMsg, mutual_auth, mutual_auth_bytes, session_key_decode,
  decode_response, has_card_group_id, shared_info_v, shared_info_bytes, lacks_key_info, encode_v,
  key_part,
}
use jubiter_sdk_c.Gpc.Session.Channel.{
  Crypto, Channel, key_derivation, open_secure_channel, calc_secret, hashed_point, derive_from,
  card_group, crt_empty,
}
use jubiter_sdk_c.Gpc.Session.Receipt.{
  blank_key, blank_response, IsOpened, open_secure_channel-IsOpened,
}
use jubiter_sdk_c.Gpc.Session.Answer.{answer_bytes, response_of, open_secure_channel-answer_bytes}

abbrev room : List ℕ → ℕ
room xs = length xs + 1000

room_enough : (xs : List ℕ) → length xs ≤ room xs
room_enough xs = omega arith

abbrev small_crypto : Crypto
small_crypto = record {
  ecdh_multiply = λ rk pk. some (0x04 ∷ (take 32 rk ++ replicate 32 0));
  sha1 = λ text. take 20 text;
  sha256 = λ text. replicate 31 0 ++ (length text % 256 ∷ []);
  aes_cmac = λ key message. replicate 15 0 ++ (length message % 256 ∷ []);
}

abbrev empty_crt : Scp11Crt
empty_crt = record {
  raw = cleared;
  tbs = cleared;
  serial = cleared;
  cakloc_id = cleared;
  valid_from = cleared;
  valid_to = cleared;
  pk = record { q = cleared; param = cleared };
  subject_id = cleared;
  key_usage = 0;
  sig = cleared;
}

abbrev info : SharedInfo
info = record {
  scp_id_param = record { tag = 0x90; value = 0x11 ∷ 0x07 ∷ [] };
  key_usage = record { tag = 0x95; value = 0x3C ∷ [] };
  key_type = record { tag = 0x80; value = 0x88 ∷ [] };
  key_length = record { tag = 0x81; value = 0x10 ∷ [] };
  host_card_id = record { tag = 0x84; value = 1 ∷ 2 ∷ [] };
  card_group_id = record { tag = 0; value = 1 ∷ 2 ∷ 3 ∷ 4 ∷ [] };
}

abbrev closed : Channel
closed = record {
  sk = blank_key;
  shared_info = info;
  sd_crt = empty_crt;
  oce_crt = empty_crt;
  oce_rk = replicate 32 1;
  e_pk = replicate 65 4;
  e_rk = replicate 32 2;
  receipt_key = blank_response;
}

abbrev zeros_and_size : List ℕ
zeros_and_size = replicate 15 0 ++ (54 ∷ [])

abbrev keys : SessionKey
keys = record {
  raw = cleared;
  key_dek = replicate 16 0;
  s_enc = zeros_and_size;
  s_mac = replicate 16 0;
  s_rmac = zeros_and_size;
  s_dek = replicate 16 0;
}

abbrev card_key : List ℕ
card_key = 0x04 ∷ 9 ∷ 9 ∷ []

abbrev receipt : List ℕ
receipt = replicate 15 0 ++ (93 ∷ [])

keys_derived :
    key_derivation small_crypto (response_of card_key receipt) closed blank_key ≡ ok (true, keys)
unfolding key_derivation calc_secret hashed_point slice derive_from card_group crt_empty
    has_card_group_id shared_info_v lacks_key_info encode_v encode_lv session_key_decode kdf2_sha256
    kdf_loop key_part counter_msb next_counter
keys_derived = refl

receipt_right :
    receipt
    ≡ small_crypto.aes_cmac keys.key_dek
        (mutual_auth_bytes (mutual_auth info (replicate 65 4) card_key))
unfolding mutual_auth_bytes mutual_auth shared_info_bytes lacks_key_info encode tag_bytes
receipt_right = refl

abbrev opened : Channel
opened = record closed { sk = keys; receipt_key = response_of card_key receipt }

open_secure_channel-answer_bytes_example :
    open_secure_channel small_crypto room 2 (answer_bytes card_key receipt) closed
    ≡ ok (true, opened)
open_secure_channel-answer_bytes_example =
    open_secure_channel-answer_bytes room room_enough small_crypto 0 card_key closed keys receipt
      (λ key message. refl) (omega arith) receipt_right keys_derived

channel_opens :
    open_secure_channel small_crypto room 2 (answer_bytes card_key receipt) closed
    ≡ ok (true, opened)
channel_opens =
    open_secure_channel-answer_bytes room room_enough small_crypto 0 card_key closed keys receipt
      (λ key message. refl) (omega arith) receipt_right keys_derived

open_secure_channel-IsOpened_example :
    ((true ≡ false) × (opened ≡ closed))
    ⊎ ((m : ResponseMsg) × (true ≡ true)
        × (decode_response room 2 (answer_bytes card_key receipt) blank_response ≡ ok (true, m))
        × IsOpened small_crypto m closed opened)
open_secure_channel-IsOpened_example =
    open_secure_channel-IsOpened small_crypto room 2 (answer_bytes card_key receipt) closed opened
      true channel_opens
