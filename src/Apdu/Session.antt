-- ===== src/Apdu/Session.antt =====
-- The secure channel of src/device/ApduBuilder.cpp between its two ends.
use Prim.Native.Nat.{bit_or}
use jubiter_sdk_c.Common.{
  All, ℕ, ◌+◌, ◌≤◌, ◌<◌, ◌≡◌, refl, Option, none, some, List, [], ◌∷◌, length, Outcome, ok, arith,
}
use jubiter_sdk_c.Gpc.Scp03
use jubiter_sdk_c.Gpc.Scp03.{
  Aes, IsCipher, Scp03, counter_block, icv, cmac, mac_chaining, encrypt, decrypt,
}
use jubiter_sdk_c.Apdu.Format.{Apdu}
use jubiter_sdk_c.Apdu.Builder.{Scp11, Builder, Parsed, set_scp03, set_scp11}
use jubiter_sdk_c.Apdu.Exchange.{send_safe_apdu, after_set, after_build, after_send}
use jubiter_sdk_c.Apdu.Card.{Card, IsOpen, InSync, answered, card_run}
use jubiter_sdk_c.Apdu.Command.{padded_size, command_built}
use jubiter_sdk_c.Apdu.Answer.{answer_read}

-- A command that the channel can carry in one piece.
pub record IsSendable (a : Apdu) : Type 0 where
  pub cla_byte : a.cla < 256
  pub ins_byte : a.ins < 256
  pub p1_byte : a.p1 < 256
  pub p2_byte : a.p2 < 256
  pub fits : length a.body < 240

module _ {A : Type 0} (answer : (cla ins p1 p2 : ℕ) → List ℕ → A → List ℕ × A) where
  -- What the application on the card answers to the plain commands.
  unfoldable pub plain_all : List Apdu → A → List (Outcome Parsed) × A
  plain_all [] state = ([], state)
  plain_all (a ∷ rest) state =
      let reply = answer (bit_or a.cla 0x04) a.ins a.p1 a.p2 a.body state in
      let others = plain_all rest (reply.1) in
      (ok (record { w_ret = 0x9000; ret_data = some (reply.0) }) ∷ others.0, others.1)

module _ {A : Type 0} (aes : Aes) (k : Scp11)
    (answer : (cla ins p1 p2 : ℕ) → List ℕ → A → List ℕ × A) where
  -- What the caller sends, one command after the other, over the channel.
  unfoldable pub send_all :
      Builder → ℕ → List Apdu → Option Scp03 → Card × A → List (Outcome Parsed) × (Card × A)
  send_all builder room [] s d = ([], d)
  send_all builder room (a ∷ rest) none d = ([], d)
  send_all builder room (a ∷ rest) (some s) d =
      let sent = send_safe_apdu aes (card_run aes k answer) builder s k a (some room) d in
      let others = send_all builder room rest (sent.1) (sent.2) in (sent.0 ∷ others.0, others.1)

module _ (aes : Aes) (law : IsCipher aes) (k : Scp11) (open_keys : IsOpen aes k) where
  set_scp11_lem : (b : Builder) → set_scp11 k b ≡ ok (record b { scp11_ptr = some k })
  unfolding set_scp11
  set_scp11_lem b = simp open_keys.present

  -- A command over the channel is the card's answer to its plain data: the caller gets the answer
  -- with the status 0x9000, and both ends stay in step.
  pub send_safe_apdu-answer :
      {A : Type 0} (answer : (cla ins p1 p2 : ℕ) → List ℕ → A → List ℕ × A) (builder : Builder)
      (s : Scp03) (c : Card) (a : Apdu) (room : ℕ) (state : A)
      → InSync s c
      → a.cla < 256
      → a.ins < 256
      → a.p1 < 256
      → a.p2 < 256
      → length a.body < 240
      → padded_size ((answer (bit_or a.cla 0x04) a.ins a.p1 a.p2 a.body state).0) ≤ room
      → (s' : Scp03) × (c' : Card) × (InSync s' c')
        × (send_safe_apdu aes (card_run aes k answer) builder s k a (some room) (c, state) ≡ (
          ok (record {
            w_ret = 0x9000;
            ret_data = some ((answer (bit_or a.cla 0x04) a.ins a.p1 a.p2 a.body state).0);
          }),
          some s',
          (c', (answer (bit_or a.cla 0x04) a.ins a.p1 a.p2 a.body state).1),
        ))
  unfolding send_safe_apdu after_set after_build after_send set_scp03 card_run answered
      Scp03.inc_counter
  send_safe_apdu-answer answer builder s c a room state sync hc hi hp hq small fits =
      let (bytes, code, full, built, opened) =
        command_built aes law k open_keys s c a sync hc hi hp hq small in
      let c' : Card = record { counter = c.counter + 1; chain = full } in
      let s1 : Scp03 = record { counter = s.counter; mac_chain = full } in
      let next : s.counter + 1 ≡ c.counter + 1 = omega (arith, sync.same_counter) in
      let (raw, sealed, read) =
        answer_read aes law k open_keys s1 c'
          ((answer (bit_or a.cla 0x04) a.ins a.p1 a.p2 a.body state).0) room next refl fits in
      (
        Scp03.inc_counter s1,
        c',
        record { same_counter = next; same_chain = refl },
        rw (set_scp11_lem (set_scp03 (some s) builder), built, opened, sealed, read),
      )

  -- Over an open channel whose ends are in step, any number of commands, with header fields that are
  -- bytes and fewer than 240 bytes of data each, get the answers of the card's application to the plain
  -- commands, in their order, and leave it in the same state, if its answers with their padding fit the
  -- room. The cipher takes back what it encrypts, and its MACs have 16 bytes.
  pub send_all-plain_all :
      {A : Type 0} (answer : (cla ins p1 p2 : ℕ) → List ℕ → A → List ℕ × A) (builder : Builder)
      (room : ℕ) (commands : List Apdu) (s : Scp03) (c : Card) (state : A)
      → InSync s c
      → All (λ a. IsSendable a) commands
      → ((cla ins p1 p2 : ℕ) (text : List ℕ) (now : A)
          → padded_size ((answer cla ins p1 p2 text now).0) ≤ room)
      → (c' : Card) × (send_all aes k answer builder room commands (some s) (c, state)
          ≡ ((plain_all answer commands state).0, (c', (plain_all answer commands state).1)))
  unfolding send_all plain_all
  send_all-plain_all answer builder room [] s c state sync good small = (c, refl)
  send_all-plain_all answer builder room (a ∷ rest) s c state sync good small =
      let (s', c', sync', sent) =
        send_safe_apdu-answer answer builder s c a room state sync good.0.cla_byte good.0.ins_byte
          good.0.p1_byte good.0.p2_byte good.0.fits
          (small (bit_or a.cla 0x04) a.ins a.p1 a.p2 a.body state) in
      let (last, others) =
        send_all-plain_all answer builder room rest s' c'
          ((answer (bit_or a.cla 0x04) a.ins a.p1 a.p2 a.body state).1) sync' good.1 small in
      (last, rw (sent, others))
