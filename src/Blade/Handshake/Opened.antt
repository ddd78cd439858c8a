-- ===== src/Blade/Handshake/Opened.antt =====
-- What the handshake of src/token/JubiterLiteToken.cpp leaves where it succeeds.
use jubiter_sdk_c.Common.{
  ℕ, ◌≡◌, ◌⊎◌, inl, inr, refl, sym, ap, ◌∙◌, Bool, true, false, Bool-cases, Option, List, Outcome,
  ok, fail, fault, stuck,
}
use jubiter_sdk_c.Gpc.Scp03.{Scp03, mac_chaining}
use jubiter_sdk_c.Gpc.Session.Channel.{
  Crypto, Channel, is_open, initialize, get_oce_cert, get_mutual_auth_data, get_mac_chain,
  open_secure_channel,
}
use jubiter_sdk_c.Gpc.Session.Receipt.{IsOpened, blank_response, open_secure_channel-IsOpened}
use jubiter_sdk_c.Gpc.Session.{ResponseMsg, decode_response}
use jubiter_sdk_c.Blade.Tokens.{perform_security_operation, mutual_authenticate}
use jubiter_sdk_c.Blade.Handshake.{
  KeyPair, after_open, after_authenticate, after_certificate, after_initialize, open_channel,
}

module _ {D : Type 0} (crypto : Crypto) (room : List ℕ → ℕ) (fuel : ℕ)
    (device : Option (List ℕ → D → Outcome (List ℕ) × D)) where
  -- The device took the certificate and answered the mutual authentication. The message read of that
  -- answer holds a receipt that is the MAC, with the key for receipts, of the messages of both sides; the
  -- channel keeps that message, is open with five keys of 16 bytes (`IsOpened`), and its MACs are
  -- chained to the receipt of that message.
  pub record IsChained (pair : KeyPair) (s s' : Scp03) (c c' : Channel) (d d' : D) : Type 0 where
    pub ready : Channel
    pub initialized : initialize pair.public_key pair.private_key c ≡ (true, ready)
    pub asked : D
    pub certified : perform_security_operation device (get_oce_cert ready) d ≡ (ok tt, asked)
    pub response : List ℕ
    pub answered : mutual_authenticate device (get_mutual_auth_data ready) asked ≡ (ok response, d')
    pub message : ResponseMsg
    pub decoded : decode_response room fuel response blank_response ≡ ok (true, message)
    pub opened : IsOpened crypto message ready c'
    pub chained : s' ≡ mac_chaining message.receipt.value s

  after_open_lem :
      (s s' : Scp03) (c c' : Channel) (d d' : D) (response : List ℕ) (x : Outcome (Bool × Channel))
      → open_secure_channel crypto room fuel response c ≡ x
      → after_open crypto room fuel device s c d x ≡ (ok tt, s', c', d')
      → (m : ResponseMsg) × (decode_response room fuel response blank_response ≡ ok (true, m))
        × IsOpened crypto m c c'
        × (s' ≡ mac_chaining m.receipt.value s)
        × (d ≡ d')
  unfolding after_open
  after_open_lem s s' c c' d d' response (ok (true, c1)) e h =
      let same : c1 ≡ c' = cc in
      let chained : mac_chaining (get_mac_chain c1) s ≡ s' = cc in
      let same_d : d ≡ d' = cc in
      elim (open_secure_channel-IsOpened crypto room fuel response c c1 true e) [
        | inl (wrong, kept) ↦ cc
        | inr (m, first, read, good) ↦ (
          m,
          read,
          rw same at good,
          sym chained ∙ ap (λ (xs : List ℕ). mac_chaining xs s) good.chain,
          same_d,
        )
      ]
  after_open_lem s s' c c' d d' response (ok (false, c1)) e h = cc
  after_open_lem s s' c c' d d' response (fail x) e h = cc
  after_open_lem s s' c c' d d' response fault e h = cc
  after_open_lem s s' c c' d d' response stuck e h = cc

  after_authenticate_lem :
      (s s' : Scp03) (c c' : Channel) (d d' : D) (x : Outcome (List ℕ) × D)
      → mutual_authenticate device (get_mutual_auth_data c) d ≡ x
      → after_authenticate crypto room fuel device s c x ≡ (ok tt, s', c', d')
      → (response : List ℕ) × (m : ResponseMsg) × (mutual_authenticate device
            (get_mutual_auth_data c)
            d
          ≡ (ok response, d'))
        × (decode_response room fuel response blank_response ≡ ok (true, m))
        × IsOpened crypto m c c'
        × (s' ≡ mac_chaining m.receipt.value s)
  unfolding after_authenticate
  after_authenticate_lem s s' c c' d d' (ok response, d1) e h =
      let (m, read, good, chained, same) =
        after_open_lem s s' c c' d1 d' response (open_secure_channel crypto room fuel response c)
          refl h in
      let e' = rw same at e in (response, m, e', read, good, chained)
  after_authenticate_lem s s' c c' d d' (fail x, d1) e h = cc
  after_authenticate_lem s s' c c' d d' (fault, d1) e h = cc
  after_authenticate_lem s s' c c' d d' (stuck, d1) e h = cc

  after_certificate_lem :
      (pair : KeyPair) (s s' : Scp03) (c0 c c' : Channel) (d d' : D) (x : Outcome (Unit {0}) × D)
      → initialize pair.public_key pair.private_key c0 ≡ (true, c)
      → perform_security_operation device (get_oce_cert c) d ≡ x
      → after_certificate crypto room fuel device s c x ≡ (ok tt, s', c', d')
      → IsChained pair s s' c0 c' d d'
  unfolding after_certificate
  after_certificate_lem pair s s' c0 c c' d d' (ok u, d1) i e h =
      let (response, m, answered, read, good, chained) =
        after_authenticate_lem s s' c c' d1 d'
          (mutual_authenticate device (get_mutual_auth_data c) d1) refl h in
      record {
        ready = c;
        initialized = i;
        asked = d1;
        certified = e;
        response = response;
        answered = answered;
        message = m;
        decoded = read;
        opened = good;
        chained = chained;
      }
  after_certificate_lem pair s s' c0 c c' d d' (fail x, d1) i e h = cc
  after_certificate_lem pair s s' c0 c c' d d' (fault, d1) i e h = cc
  after_certificate_lem pair s s' c0 c c' d d' (stuck, d1) i e h = cc

  after_initialize_lem :
      (pair : KeyPair) (s s' : Scp03) (c0 c' : Channel) (d d' : D) (x : Bool × Channel)
      → initialize pair.public_key pair.private_key c0 ≡ x
      → after_initialize crypto room fuel device s d x ≡ (ok tt, s', c', d')
      → IsChained pair s s' c0 c' d d'
  unfolding after_initialize
  after_initialize_lem pair s s' c0 c' d d' (true, c) i h =
      after_certificate_lem pair s s' c0 c c' d d'
        (perform_security_operation device (get_oce_cert c) d) i refl h
  after_initialize_lem pair s s' c0 c' d d' (false, c) i h = cc

  -- Where the beginning of a safe command succeeds, either the channel was open and nothing has changed,
  -- or it was not, and the device took the certificate and answered the mutual authentication with a
  -- message whose receipt is the MAC, with the key for receipts, of the messages of both sides; the
  -- channel then keeps that message, is open with five keys of 16 bytes, and its MACs are chained to
  -- that receipt.
  pub open_channel-IsChained :
      (pair : KeyPair) (s s' : Scp03) (c c' : Channel) (d d' : D)
      → open_channel crypto room fuel device pair s c d ≡ (ok tt, s', c', d')
      → ((is_open c ≡ true) × (s' ≡ s) × (c' ≡ c) × (d' ≡ d))
        ⊎ ((is_open c ≡ false) × IsChained pair s s' c c' d d')
  unfolding open_channel
  open_channel-IsChained pair s s' c c' d d' h = elim (Bool-cases (is_open c)) [
    | inl opened ↦
        let h' = rw opened at h in
        let same_s : s' ≡ s = cc in
        let same_c : c' ≡ c = cc in let same_d : d' ≡ d = cc in inl (opened, same_s, same_c, same_d)
    | inr closed ↦ inr (
      closed,
      after_initialize_lem pair s s' c c' d d' (initialize pair.public_key pair.private_key c) refl
          (rw closed at h),
    )
  ]
