-- ===== src/Gpc/Scp03/Cipher.antt =====
-- The block cipher and the MAC of TrezorCrypto (aes.h, cmac.h) that gpc/src/scp03.cpp calls.
use jubiter_sdk_c.Common.{ℕ, ◌%◌, ◌≡◌, Bool, true, Option, some, List, length}

-- `aes_encrypt_key` and `aes_decrypt_key` succeed on the same keys; `none` is EXIT_FAILURE.
pub record Aes : Type 0 where
  pub key_ok : List ℕ → Bool
  pub cbc_encrypt : (key vector text : List ℕ) → Option (List ℕ)
  pub cbc_decrypt : (key vector text : List ℕ) → Option (List ℕ)
  pub mac : (key message : List ℕ) → List ℕ

-- Whole blocks are encrypted to as many bytes, and decryption with the same vector takes them back.
pub record IsCipher (aes : Aes) : Type 0 where
  pub encrypts :
      (key vector text : List ℕ)
      → aes.key_ok key ≡ true
      → length text % 16 ≡ 0
      → (code : List ℕ) × (aes.cbc_encrypt key vector text ≡ some code)
        × (length code ≡ length text)
        × (aes.cbc_decrypt key vector code ≡ some text)
  pub mac_size : (key message : List ℕ) → length (aes.mac key message) ≡ 16
