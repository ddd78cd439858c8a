-- ===== src/Gpc/Session/Channel.antt =====
-- `scp11c` of gpc/src/scp11c.cpp: from the card's answer to the keys of an open channel. The curve and
-- the hashes of TrezorCrypto are a parameter.
use jubiter_sdk_c.Common.{
  ℕ, ◌*◌, Bool, true, false, not, Option, none, some, List, [], ◌++◌, ◌==◌, if◌then◌else◌, length,
  slice, Outcome, ok, ◌>>=◌, or_fault, ◌||◌,
}
use jubiter_sdk_c.Gpc.TlvBuf.{cleared, same_bytes}
use jubiter_sdk_c.Gpc.Certificate.{Scp11Crt}
use jubiter_sdk_c.Gpc.Kdf.{kdf2_sha256}
use jubiter_sdk_c.Gpc.Session.{
  is_blank, lacks_key_info, SharedInfo, shared_info_v, has_card_group_id, mutual_auth,
  mutual_auth_bytes, session_keys, session_key_length, SessionKey, session_key_empty,
  session_key_decode, ResponseMsg, decode_response,
}

-- `ecdh_multiply` on the curve, with `none` for a result that is not 0; SHA-1, SHA-256 and AES-CMAC.
pub record Crypto : Type 0 where
  pub ecdh_multiply : (rk pk : List ℕ) → Option (List ℕ)
  pub sha1 : List ℕ → List ℕ
  pub sha256 : List ℕ → List ℕ
  pub aes_cmac : (key message : List ℕ) → List ℕ

-- The state of a `scp11` that the channel is opened with.
pub record Channel : Type 0 where
  pub sk : SessionKey
  pub shared_info : SharedInfo
  pub sd_crt : Scp11Crt
  pub oce_crt : Scp11Crt
  pub oce_rk : List ℕ
  pub e_pk : List ℕ
  pub e_rk : List ℕ
  pub receipt_key : ResponseMsg

-- `scp11_crt::empty`.
unfoldable pub crt_empty : Scp11Crt → Bool
crt_empty c =
    is_blank c.raw
    || is_blank c.tbs
    || is_blank c.serial
    || is_blank c.cakloc_id
    || is_blank c.valid_from
    || is_blank c.valid_to
    || (is_blank c.pk.q || is_blank c.pk.param)
    || is_blank c.subject_id
    || is_blank c.sig

-- `scp11_sharedInfo::empty`, which does not look at the group.
unfoldable pub shared_info_empty : SharedInfo → Bool
shared_info_empty i = is_blank i.scp_id_param || lacks_key_info i

unfoldable pub channel_empty : Channel → Bool
channel_empty c = shared_info_empty c.shared_info || (crt_empty c.oce_crt || length c.oce_rk == 0)

-- `initialize` with the key pair that is drawn for it, put in front of what is there.
unfoldable pub initialize : (public_key private_key : List ℕ) → Channel → Bool × Channel
initialize public_key private_key c =
    if channel_empty c
    then (false, c)
    else (true, record c { e_rk = private_key ++ c.e_rk; e_pk = public_key ++ c.e_pk })

unfoldable pub get_oce_cert : Channel → List ℕ
get_oce_cert c = c.oce_crt.raw.value

unfoldable pub is_open : Channel → Bool
is_open c = not (session_key_empty c.sk)

unfoldable pub get_mac_chain : Channel → List ℕ
get_mac_chain c = c.receipt_key.receipt.value

unfoldable pub get_mutual_auth_data : Channel → List ℕ
get_mutual_auth_data c = mutual_auth_bytes (mutual_auth c.shared_info c.e_pk [])

unfoldable pub reset : Channel → Channel
reset c = record c {
  sk = record c.sk { key_dek = []; s_enc = []; s_mac = []; s_rmac = []; s_dek = [] };
  e_pk = [];
  e_rk = [];
  receipt_key = record { sd_pk = cleared; receipt = cleared };
}

module _ (crypto : Crypto) where
  -- `_calcShSss` and `_calcShSes`; the data of an empty vector is a null pointer. Behind the first
  -- byte of the point, 32 bytes are hashed.
  unfoldable pub hashed_point : Option (List ℕ) → Outcome (Bool × List ℕ)
  hashed_point none = ok (false, [])
  hashed_point (some point) = do x ← or_fault (slice 1 33 point); ok (true, crypto.sha1 x)

  unfoldable pub calc_secret : (pk rk : List ℕ) → Outcome (Bool × List ℕ)
  calc_secret pk rk =
      if length rk == 0 || length pk == 0
      then ok (false, [])
      else hashed_point (crypto.ecdh_multiply rk pk)

  -- The subject of the card's certificate, or the group of the shared information.
  unfoldable pub card_group : Channel → Option (List ℕ)
  card_group c =
      if not (crt_empty c.sd_crt)
      then some (c.sd_crt.subject_id.value)
      else if not (has_card_group_id c.shared_info)
      then some (c.shared_info.card_group_id.value)
      else none

  unfoldable pub derive_from :
      Option (List ℕ) → Channel → List ℕ → SessionKey → Outcome (Bool × SessionKey)
  derive_from none c z k = ok (false, k)
  derive_from (some group) c z k =
      let shared = shared_info_v c.shared_info group in
      if length shared == 0
      then ok (false, k)
      else session_key_decode
          (kdf2_sha256 crypto.sha256 z shared (session_key_length * session_keys))
          session_key_length k

  unfoldable pub key_derivation : ResponseMsg → Channel → SessionKey → Outcome (Bool × SessionKey)
  key_derivation m c k = do
    (static_done, sh_sss) ← calc_secret m.sd_pk.value c.oce_rk
    if not static_done then ok (false, k) else (do
      (ephemeral_done, sh_ses) ← calc_secret m.sd_pk.value c.e_rk
      if not ephemeral_done
          then ok (false, k)
          else derive_from (card_group c) c (sh_ses ++ sh_sss) k)

  unfoldable pub check_receipt : ResponseMsg → (key_dek : List ℕ) → Channel → Bool
  check_receipt m key_dek c =
      same_bytes m.receipt.value (
        crypto.aes_cmac key_dek
          (mutual_auth_bytes (mutual_auth c.shared_info c.e_pk m.sd_pk.value)))

  unfoldable pub open_with : ResponseMsg → Channel → Bool × SessionKey → Outcome (Bool × Channel)
  open_with m c (false, k) = ok (false, c)
  open_with m c (true, k) =
      if check_receipt m k.key_dek c
      then ok (true, record c { sk = k; receipt_key = m })
      else ok (false, c)

  unfoldable pub derived : Channel → Bool × ResponseMsg → Outcome (Bool × Channel)
  derived c (false, m) = ok (false, c)
  derived c (true, m) =
      key_derivation m c
        (record { raw = cleared; key_dek = []; s_enc = []; s_mac = []; s_rmac = []; s_dek = [] })
      >>= λ result. open_with m c result

  -- `fuel` is the depth of the decoder's recursion.
  unfoldable pub open_secure_channel :
      (List ℕ → ℕ) → ℕ → List ℕ → Channel → Outcome (Bool × Channel)
  open_secure_channel room fuel response c =
      decode_response room fuel response (record { sd_pk = cleared; receipt = cleared })
      >>= λ result. derived c result
