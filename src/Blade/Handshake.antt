-- ===== src/Blade/Handshake.antt =====
-- The beginning of `_SendSafeApdu` in src/token/JubiterLiteToken.cpp: a channel that is not open is
-- opened first. The bytes of the key pair, which the code draws at random, are given.
pub mod Opened
mod Tests
use jubiter_sdk_c.Common.{
  ℕ, Bool, true, false, Option, none, some, List, [], ◌∷◌, if◌then◌else◌, Outcome, ok, fail, fault,
  stuck,
}
use jubiter_sdk_c.Status.{jubr_error}
use jubiter_sdk_c.Gpc.Scp03.{Scp03, mac_chaining}
use jubiter_sdk_c.Gpc.Session.Channel.{
  Crypto, Channel, is_open, initialize, get_oce_cert, get_mutual_auth_data, get_mac_chain,
  open_secure_channel,
}
use jubiter_sdk_c.Blade.Tokens.{perform_security_operation, mutual_authenticate}

-- The key pair that is drawn.
pub record KeyPair : Type 0 where
  pub public_key : List ℕ
  pub private_key : List ℕ

module _ {D : Type 0} (crypto : Crypto) (room : List ℕ → ℕ) (fuel : ℕ)
    (device : Option (List ℕ → D → Outcome (List ℕ) × D)) where
  -- The result, and both ends of the channel and the device after it.
  abbrev pub Opened : Type 0
  Opened = Outcome (Unit {0}) × Scp03 × Channel × D

  unfoldable pub after_open : Scp03 → Channel → D → Outcome (Bool × Channel) → Opened
  after_open s c d (ok (true, c')) = (ok tt, mac_chaining (get_mac_chain c') s, c', d)
  after_open s c d (ok (false, c')) = (fail jubr_error, s, c', d)
  after_open s c d (fail e) = (fail e, s, c, d)
  after_open s c d fault = (fault, s, c, d)
  after_open s c d stuck = (stuck, s, c, d)

  unfoldable pub after_authenticate : Scp03 → Channel → Outcome (List ℕ) × D → Opened
  after_authenticate s c (ok response, d) =
      after_open s c d (open_secure_channel crypto room fuel response c)
  after_authenticate s c (fail e, d) = (fail e, s, c, d)
  after_authenticate s c (fault, d) = (fault, s, c, d)
  after_authenticate s c (stuck, d) = (stuck, s, c, d)

  unfoldable pub after_certificate : Scp03 → Channel → Outcome (Unit {0}) × D → Opened
  after_certificate s c (ok done, d) =
      after_authenticate s c (mutual_authenticate device (get_mutual_auth_data c) d)
  after_certificate s c (fail e, d) = (fail e, s, c, d)
  after_certificate s c (fault, d) = (fault, s, c, d)
  after_certificate s c (stuck, d) = (stuck, s, c, d)

  unfoldable pub after_initialize : Scp03 → D → Bool × Channel → Opened
  after_initialize s d (true, c) =
      after_certificate s c (perform_security_operation device (get_oce_cert c) d)
  after_initialize s d (false, c) = (fail jubr_error, s, c, d)

  unfoldable pub open_channel : KeyPair → Scp03 → Channel → D → Opened
  open_channel pair s c d =
      if is_open c
      then (ok tt, s, c, d)
      else after_initialize s d (initialize pair.public_key pair.private_key c)
