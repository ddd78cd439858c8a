-- ===== src/Apdu/Card.antt =====
-- The card at the other end of the channel, as src/device/ApduBuilder.cpp expects it: a description
-- that is no part of the source.
use jubiter_sdk_c.Common.{
  ℕ, ◌+◌, ◌-◌, ◌≤◌, ◌≡◌, false, true, List, [], ◌∷◌, ◌++◌, leb, length, take, drop, replicate,
  Outcome, ok, fail, fault, stuck, ◌>>=◌, ◌>>◌, check,
}
use jubiter_sdk_c.Gpc.TlvBuf.{same_bytes}
use jubiter_sdk_c.Gpc.Scp03.{Aes, Scp03, or_false, counter_block, decrypt}
use jubiter_sdk_c.Gpc.Scp03.Padding.{padded}
use jubiter_sdk_c.Apdu.Format.{Apdu, size_bytes}
use jubiter_sdk_c.Apdu.Parse.{read_apdu}
use jubiter_sdk_c.Apdu.Response.{response_bytes}
use jubiter_sdk_c.Apdu.Builder.{Scp11}

pub record Card : Type 0 where
  pub counter : ℕ
  pub chain : List ℕ

-- Session keys that an open channel has.
pub record IsOpen (aes : Aes) (k : Scp11) : Type 0 where
  pub present : k.is_empty ≡ false
  pub enc_ok : aes.key_ok k.s_enc ≡ true
  pub mac_size : 16 ≤ length k.s_mac
  pub rmac_size : 16 ≤ length k.s_rmac

pub record InSync (s : Scp03) (c : Card) : Type 0 where
  pub same_counter : s.counter ≡ c.counter
  pub same_chain : s.mac_chain ≡ c.chain

module _ (aes : Aes) (k : Scp11) where
  -- The MAC of a command covers the chain, the header with its length, and the encrypted data.
  unfoldable pub command_mac : List ℕ → Apdu → List ℕ → List ℕ
  command_mac chain a enc =
      aes.mac k.s_mac (chain ++ (a.cla ∷ a.ins ∷ a.p1 ∷ a.p2 ∷ (size_bytes a.lc ++ enc)))

  unfoldable pub decrypt_command : Card → List ℕ → Outcome (List ℕ × ℕ)
  decrypt_command c enc = do
    vector ← or_false (aes.cbc_encrypt k.s_enc (replicate 16 0) (counter_block 0x00 c.counter))
    decrypt aes k.s_enc vector enc false

  -- The header, the data and the MAC of a command, if the MAC is right.
  unfoldable pub open_command : Card → List ℕ → Outcome (Apdu × List ℕ × List ℕ)
  open_command c raw = do
    a ← or_false (read_apdu raw)
    check (leb 8 (length a.body)) 0
    let enc = take (length a.body - 8) a.body
    let full = command_mac c.chain a enc
    check (same_bytes (drop (length a.body - 8) a.body) (take 8 full)) 0
    plain ← decrypt_command c enc
    ok (a, plain.0, full)

  unfoldable pub response_mac : List ℕ → List ℕ → List ℕ
  response_mac chain code = take 8 (aes.mac k.s_rmac (chain ++ (code ++ (0x90 ∷ 0x00 ∷ []))))

  -- An encrypted answer with the status 0x9000 and its MAC.
  unfoldable pub seal_response : Card → List ℕ → Outcome (List ℕ)
  seal_response c text = do
    vector ← or_false (aes.cbc_encrypt k.s_enc (replicate 16 0) (counter_block 0x80 c.counter))
    code ← or_false (aes.cbc_encrypt k.s_enc vector (padded text))
    ok (
        response_bytes
          (record { body = code; cmac = response_mac c.chain code; sw1 = 0x90; sw2 = 0x00 }))

  module _ {A : Type 0} (answer : (cla ins p1 p2 : ℕ) → List ℕ → A → List ℕ × A) where
    unfoldable pub answered :
        Card × A → Outcome (Apdu × List ℕ × List ℕ) → Outcome (List ℕ) × (Card × A)
    answered (c, state) (ok (a, text, full)) =
        let c' : Card = record { counter = c.counter + 1; chain = full } in
        let reply = answer a.cla a.ins a.p1 a.p2 text state in
        (seal_response c' (reply.0), (c', reply.1))
    answered d (fail e) = (fail e, d)
    answered d fault = (fault, d)
    answered d stuck = (stuck, d)

    unfoldable pub card_run : List ℕ → Card × A → Outcome (List ℕ) × (Card × A)
    card_run raw d = answered d (open_command (d.0) raw)
