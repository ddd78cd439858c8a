-- ===== src/Gpc/Session/Receipt.antt =====
-- When gpc/src/scp11c.cpp takes a channel for open.
use jubiter_sdk_c.Common.{
  ℕ, ◌≡◌, ◌⊎◌, inl, inr, refl, Bool, true, false, not, Bool-cases, Option, none, some, List, [],
  ◌++◌, length, ◌==◌, Outcome, ok, fail, fault, stuck, ◌>>=◌, if◌then◌else◌,
}
use jubiter_sdk_c.Gpc.TlvBuf.{cleared, same_bytes→≡}
use jubiter_sdk_c.Gpc.Kdf.{kdf2_sha256}
use jubiter_sdk_c.Gpc.Session.{
  mutual_auth, mutual_auth_bytes, SessionKey, session_key_decode, ResponseMsg, decode_response,
  shared_info_v,
}
use jubiter_sdk_c.Gpc.Session.Keys.{HasKeys, session_key_bytes-decode, keys_present}
use jubiter_sdk_c.Gpc.Session.Channel.{
  Crypto, Channel, is_open, get_mac_chain, calc_secret, card_group, derive_from, key_derivation,
  check_receipt, open_with, derived, open_secure_channel,
}

bind_result :
    {A B : Type 0} (x : Outcome A) (f : A → Outcome B) (b : B)
    → (x >>= f) ≡ ok b
    → (a : A) × (x ≡ ok a) × (f a ≡ ok b)
bind_result (ok a) f b h = (a, refl, h)
bind_result (fail e) f b h = cc
bind_result fault f b h = cc
bind_result stuck f b h = cc

session_key_decode-HasKeys :
    (bytes : List ℕ) (k k' : SessionKey)
    → session_key_decode bytes 16 k ≡ ok (true, k')
    → HasKeys k'
session_key_decode-HasKeys bytes k k' h = elim (session_key_bytes-decode bytes k) [
  | inl (good, size, made, keys, whole) ↦ let same : good ≡ k' = cc in rw same at keys
  | inr (size, refused) ↦ cc
]

not_refused :
    (done : Bool) (x : Outcome (Bool × SessionKey)) (k k' : SessionKey)
    → (if not done then ok (false, k) else x) ≡ ok (true, k')
    → x ≡ ok (true, k')
not_refused true x k k' h = h
not_refused false x k k' h = cc

abbrev pub blank_key : SessionKey
blank_key = record { raw = cleared; key_dek = []; s_enc = []; s_mac = []; s_rmac = []; s_dek = [] }

abbrev pub blank_response : ResponseMsg
blank_response = record { sd_pk = cleared; receipt = cleared }

module _ (crypto : Crypto) where
  derive_from-HasKeys :
      (group : Option (List ℕ)) (c : Channel) (z : List ℕ) (k k' : SessionKey)
      → derive_from crypto group c z k ≡ ok (true, k')
      → HasKeys k'
  unfolding derive_from
  derive_from-HasKeys none c z k k' h = cc
  derive_from-HasKeys (some group) c z k k' h =
      elim (Bool-cases (length (shared_info_v c.shared_info group) == 0)) [
        | inl empty ↦ let h' = rw empty at h in cc
        | inr some_info ↦
            session_key_decode-HasKeys
              (kdf2_sha256 crypto.sha256 z (shared_info_v c.shared_info group) 80) k k'
              (rw some_info at h)
      ]

  key_derivation-HasKeys :
      (m : ResponseMsg) (c : Channel) (k k' : SessionKey)
      → key_derivation crypto m c k ≡ ok (true, k')
      → HasKeys k'
  unfolding key_derivation
  key_derivation-HasKeys m c k k' h =
      let (first, made, next) =
        bind_result (calc_secret crypto m.sd_pk.value c.oce_rk) _ (true, k') h in
      let (second, made', last) =
        bind_result (calc_secret crypto m.sd_pk.value c.e_rk) _ (true, k')
          (not_refused (first.0) _ k k' next) in
      derive_from-HasKeys (card_group crypto c) c (second.1 ++ first.1) k k'
        (not_refused (second.0) _ k k' last)

  -- What is known of a channel that was opened.
  pub record IsOpened (m : ResponseMsg) (before after : Channel) : Type 0 where
    pub keys : HasKeys after.sk
    pub taken : after.receipt_key ≡ m
    pub chain : get_mac_chain after ≡ m.receipt.value
    pub opened : is_open after ≡ true
    pub right :
        m.receipt.value
        ≡ crypto.aes_cmac after.sk.key_dek
            (mutual_auth_bytes (mutual_auth before.shared_info before.e_pk m.sd_pk.value))

  open_with-IsOpened :
      (m : ResponseMsg) (c : Channel) (k : SessionKey) (done : Bool) (c' : Channel)
      → HasKeys k
      → open_with crypto m c (true, k) ≡ ok (done, c')
      → ((done ≡ false) × (c' ≡ c)) ⊎ ((done ≡ true) × IsOpened m c c')
  unfolding open_with check_receipt is_open get_mac_chain
  open_with-IsOpened m c k done c' has h = elim (Bool-cases (check_receipt crypto m k.key_dek c)) [
    | inl right ↦
        let h' = rw right at h in
        let after : Channel = record c { sk = k; receipt_key = m } in
        let same : after ≡ c' = cc in
        let first : done ≡ true = cc in
        let mac =
          crypto.aes_cmac k.key_dek
            (mutual_auth_bytes (mutual_auth c.shared_info c.e_pk m.sd_pk.value)) in
        let good : IsOpened m c after = record {
          keys = has;
          taken = refl;
          chain = refl;
          opened = rw (keys_present k has);
          right = same_bytes→≡ m.receipt.value mac right;
        } in
        inr (first, rw same at good)
    | inr wrong ↦
        let h' = rw wrong at h in
        let same : c' ≡ c = cc in let first : done ≡ false = cc in inl (first, same)
  ]

  derived-IsOpened :
      (m : ResponseMsg) (c c' : Channel) (done : Bool)
      → derived crypto c (true, m) ≡ ok (done, c')
      → ((done ≡ false) × (c' ≡ c)) ⊎ ((done ≡ true) × IsOpened m c c')
  unfolding derived open_with
  derived-IsOpened m c c' done h =
      let ((kept, k), made, next) =
        bind_result (key_derivation crypto m c blank_key) _ (done, c') h in
      by_keys kept k made next
    where
      by_keys :
          (kept : Bool) (k : SessionKey)
          → key_derivation crypto m c blank_key ≡ ok (kept, k)
          → open_with crypto m c (kept, k) ≡ ok (done, c')
          → ((done ≡ false) × (c' ≡ c)) ⊎ ((done ≡ true) × IsOpened m c c')
      by_keys true k made next =
          open_with-IsOpened m c k done c' (key_derivation-HasKeys m c blank_key k made) next
      by_keys false k made next =
          let same : c' ≡ c = cc in let first : done ≡ false = cc in inl (first, same)

  -- Whatever the card answered: if the call returns, it either returns false and leaves the state as
  -- it is, or it returns true. Then the answer holds a receipt that is the MAC, with the new key for
  -- receipts, of the messages of both sides, the five keys are set with 16 bytes each, the channel is
  -- open, and its MACs are chained to the receipt.
  pub open_secure_channel-IsOpened :
      (room : List ℕ → ℕ) (fuel : ℕ) (response : List ℕ) (c c' : Channel) (done : Bool)
      → open_secure_channel crypto room fuel response c ≡ ok (done, c')
      → ((done ≡ false) × (c' ≡ c))
        ⊎ ((m : ResponseMsg) × (done ≡ true)
            × (decode_response room fuel response blank_response ≡ ok (true, m))
            × IsOpened m c c')
  unfolding open_secure_channel derived
  open_secure_channel-IsOpened room fuel response c c' done h =
      let ((kept, m), read, next) =
        bind_result (decode_response room fuel response blank_response) _ (done, c') h in
      by_answer kept m read next
    where
      by_answer :
          (kept : Bool) (m : ResponseMsg)
          → decode_response room fuel response blank_response ≡ ok (kept, m)
          → derived crypto c (kept, m) ≡ ok (done, c')
          → ((done ≡ false) × (c' ≡ c))
            ⊎ ((m : ResponseMsg) × (done ≡ true)
                × (decode_response room fuel response blank_response ≡ ok (true, m))
                × IsOpened m c c')
      by_answer true m read next = elim (derived-IsOpened m c c' done next) [
        | inl refused ↦ inl refused
        | inr (first, good) ↦ inr (m, first, read, good)
      ]
      by_answer false m read next =
          let same : c' ≡ c = cc in let first : done ≡ false = cc in inl (first, same)
