-- ===== src/Gpc/Scp03/Encryption.antt =====
-- `encrypt` and `decrypt` of gpc/src/scp03.cpp over a cipher that keeps its laws.
use jubiter_sdk_c.Common.{
  ℕ, ◌+◌, ◌*◌, ◌/◌, ◌%◌, ◌≤◌, ◌≡◌, true, false, none, some, refl, List, [], length, ltb-false, ok,
  arith,
}
use jubiter_sdk_c.Gpc.Scp03.{Aes, IsCipher, encrypt, decrypt}
use jubiter_sdk_c.Gpc.Scp03.Padding.{padded, length-padded, pad80_lem, pad80_size, unpad80-padded}

-- The size that `decrypt` reports for a null destination.
pub decrypt_size :
    (aes : Aes) (key vector enc : List ℕ) → decrypt aes key vector enc true ≡ ok ([], length enc)
unfolding decrypt
decrypt_size aes key vector enc = refl

module _ (aes : Aes) (law : IsCipher aes) (key vector : List ℕ) (good : aes.key_ok key ≡ true) where
  -- The size that `encrypt` reports for a null destination.
  pub encrypt_size :
      (text : List ℕ) → encrypt aes key vector text none ≡ ok ([], (length text / 16 + 1) * 16)
  unfolding encrypt
  encrypt_size text = rw (pad80_size text)

  -- Whatever the cipher makes of a padded text is decrypted to the text.
  pub decrypts_padded :
      (text : List ℕ)
      → (code : List ℕ) × (aes.cbc_encrypt key vector (padded text) ≡ some code)
        × (length code ≡ (length text / 16 + 1) * 16)
        × (decrypt aes key vector code false ≡ ok (text, length text))
  unfolding decrypt
  decrypts_padded text =
      let whole : length (padded text) % 16 ≡ 0 = omega (arith, length-padded text) in
      let (code, encrypted, size, decrypted) = law.encrypts key vector (padded text) good whole in
      (
        code,
        encrypted,
        omega (arith, size, length-padded text),
        rw (good, decrypted, unpad80-padded (length code) text size),
      )

  pub encrypts_padded :
      (text : List ℕ) (room : ℕ)
      → (length text / 16 + 1) * 16 ≤ room
      → (code : List ℕ) × (encrypt aes key vector text (some room) ≡ ok (code, room))
        × (length code ≡ (length text / 16 + 1) * 16)
        × (decrypt aes key vector code false ≡ ok (text, length text))
  unfolding encrypt
  encrypts_padded text room fits =
      let (code, encrypted, size, decrypted) = decrypts_padded text in
      let enough = ltb-false room ((length text / 16 + 1) * 16) fits in
      (code, rw (pad80_size text, enough, good, pad80_lem text, encrypted), size, decrypted)
