-- ===== src/Gpc/Session.antt =====
-- The session of gpc/include/scp11/scp11.hpp: its keys, the shared information, and the messages of the
-- mutual authentication, with their encodings and decoders in gpc/src/scp11.cpp.
pub mod Keys
pub mod Channel
pub mod Receipt
pub mod Answer
mod Tests
use jubiter_sdk_c.Common.{
  ℕ, zero, suc, ◌+◌, ◌*◌, ◌/◌, ◌%◌, ◌^◌, Bool, true, false, not, ◌||◌, ◌&&◌, List, [], ◌∷◌, ◌++◌,
  ◌==◌, if◌then◌else◌, length, get_or, slice, Outcome, ok, fail, fault, stuck, ◌>>=◌, ◌>>◌, within,
  or_fault,
}
use jubiter_sdk_c.Gpc.TlvBuf.{TlvBuf, encode, encode_lv}
use jubiter_sdk_c.Gpc.TagParse.{gpc_tlv_get_tag}

abbrev pub is_blank : TlvBuf → Bool
is_blank b = length b.value == 0

-- `encodeV`: the value alone.
unfoldable pub encode_v : TlvBuf → List ℕ
encode_v b = if is_blank b then [] else b.value

pub record SharedInfo : Type 0 where
  pub scp_id_param : TlvBuf
  pub key_usage : TlvBuf
  pub key_type : TlvBuf
  pub key_length : TlvBuf
  pub host_card_id : TlvBuf
  pub card_group_id : TlvBuf

-- What the three encodings ask for.
unfoldable pub lacks_key_info : SharedInfo → Bool
lacks_key_info i =
    is_blank i.key_usage || is_blank i.key_type || is_blank i.key_length || is_blank i.host_card_id

unfoldable pub shared_info_lv : SharedInfo → List ℕ
shared_info_lv i =
    if lacks_key_info i
    then []
    else encode_lv i.key_usage
      ++ (encode_lv i.key_type ++ (encode_lv i.key_length ++ encode_lv i.host_card_id))

unfoldable pub shared_info_bytes : SharedInfo → List ℕ
shared_info_bytes i =
    if is_blank i.scp_id_param || lacks_key_info i
    then []
    else encode i.scp_id_param
      ++ (encode i.key_usage
          ++ (encode i.key_type ++ (encode i.key_length ++ encode i.host_card_id)))

unfoldable pub shared_info_v : SharedInfo → (card_group_id : List ℕ) → List ℕ
shared_info_v i card_group_id =
    if lacks_key_info i || length card_group_id == 0
    then []
    else encode_v i.key_usage
      ++ (encode_v i.key_type
          ++ (encode_v i.key_length ++ (encode_lv i.host_card_id ++ card_group_id)))

-- Named against what it tells.
unfoldable pub has_card_group_id : SharedInfo → Bool
has_card_group_id i = is_blank i.card_group_id

pub record MutualAuth : Type 0 where
  pub ka : TlvBuf
  pub e_pk : TlvBuf
  pub sd_pk : TlvBuf

unfoldable pub mutual_auth : SharedInfo → (e_pk sd_pk : List ℕ) → MutualAuth
mutual_auth i e_pk sd_pk = record {
  ka = record { tag = 0xA6; value = shared_info_bytes i };
  e_pk = record { tag = 0x5F49; value = e_pk };
  sd_pk = record { tag = 0x5F49; value = sd_pk };
}

unfoldable pub mutual_auth_bytes : MutualAuth → List ℕ
mutual_auth_bytes m =
    if is_blank m.e_pk || is_blank m.ka
    then []
    else encode m.ka ++ (encode m.e_pk ++ (if is_blank m.sd_pk then [] else encode m.sd_pk))

abbrev pub session_keys : ℕ
session_keys = 5

abbrev pub session_key_length : ℕ
session_key_length = 0x10

pub record SessionKey : Type 0 where
  pub raw : TlvBuf
  pub key_dek : List ℕ
  pub s_enc : List ℕ
  pub s_mac : List ℕ
  pub s_rmac : List ℕ
  pub s_dek : List ℕ

unfoldable pub lacks_key : SessionKey → Bool
lacks_key k =
    length k.key_dek == 0
    || length k.s_enc == 0
    || length k.s_mac == 0
    || length k.s_rmac == 0
    || length k.s_dek == 0

unfoldable pub session_key_empty : SessionKey → Bool
session_key_empty k = is_blank k.raw && lacks_key k

-- The part of one round of the loop.
unfoldable pub key_part : List ℕ → (key_length i : ℕ) → Outcome (List ℕ)
key_part bytes key_length i = or_fault (slice (i * key_length) ((i + 1) * key_length) bytes)

-- `decode`: false leaves the keys as they are. A size of 0 would be divided by.
unfoldable pub session_key_decode :
    List ℕ → (key_length : ℕ) → SessionKey → Outcome (Bool × SessionKey)
session_key_decode bytes key_length k = do
  within (not (key_length == 0))
  if not (session_keys == length bytes / key_length) || not (length bytes % key_length == 0)
      then ok (false, k)
      else (do
        key_dek ← key_part bytes key_length 0
        s_enc ← key_part bytes key_length 1
        s_mac ← key_part bytes key_length 2
        s_rmac ← key_part bytes key_length 3
        s_dek ← key_part bytes key_length 4
        ok (
          true,
          record k {
            key_dek = key_dek;
            s_enc = s_enc;
            s_mac = s_mac;
            s_rmac = s_rmac;
            s_dek = s_dek;
          },
        ))

unfoldable pub session_key_bytes : SessionKey → List ℕ
session_key_bytes k =
    if session_key_empty k then [] else k.key_dek ++ (k.s_enc ++ (k.s_mac ++ (k.s_rmac ++ k.s_dek)))

pub record ResponseMsg : Type 0 where
  pub sd_pk : TlvBuf
  pub receipt : TlvBuf

unfoldable pub response_store : TlvBuf → ResponseMsg → ResponseMsg
response_store b m = if b.tag == 0x5F49 then record m { sd_pk = b } else record m { receipt = b }

-- What follows the header of an item. `skip` is an `unsigned char`.
unfoldable pub response_item :
    (List ℕ → ResponseMsg → Outcome (Bool × ResponseMsg))
    → List ℕ
    → ResponseMsg
    → (tag len : ℕ) → Outcome (Bool × ResponseMsg)
response_item next bytes m tag len = do
  let skip = if tag == 0x5F49 then 3 else 2
  value ← or_fault (slice skip (skip + len) bytes)
  let m' = response_store (record { tag = tag; value = value }) m
  recursive ← or_fault (slice ((skip + len) % 2 ^ 8) (length bytes) bytes)
  if length recursive == 0 then ok (true, m') else next recursive m'

unfoldable pub response_tag :
    (List ℕ → ResponseMsg → Outcome (Bool × ResponseMsg))
    → List ℕ
    → ResponseMsg
    → Outcome (ℕ × ℕ)
    → Outcome (Bool × ResponseMsg)
response_tag next bytes m (fail e) = ok (false, m)
response_tag next bytes m fault = fault
response_tag next bytes m stuck = stuck
response_tag next bytes m (ok (tag, len)) =
    if get_or bytes 0 0 == 0
    then ok (true, m)
    else if tag == 0x5F49 || tag == 0x86
    then response_item next bytes m tag len
    else ok (false, m)

-- `scp11_response_msg::decode`. `room` is the difference of two unrelated addresses that the code
-- hands over as the end and the start of the bytes.
unfoldable pub decode_response :
    (List ℕ → ℕ) → ℕ → List ℕ → ResponseMsg → Outcome (Bool × ResponseMsg)
decode_response room zero bytes m = stuck
decode_response room (suc fuel) bytes m =
    response_tag (decode_response room fuel) bytes m
      (gpc_tlv_get_tag (bytes ++ (0 ∷ [])) (room bytes) (length bytes))
