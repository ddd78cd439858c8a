-- ===== src/Apdu/Command.antt =====
-- `BuildSafeApdu` of src/device/ApduBuilder.cpp against the card of Apdu/Card.
use Prim.Native.Nat.{bit_or}
use jubiter_sdk_c.Common.{
  ℕ, ◌+◌, ◌-◌, ◌*◌, ◌/◌, ◌%◌, ◌≤◌, ◌<◌, ◌≡◌, refl, sym, false, some, List, [], ◌++◌, ltb-false,
  le→leb, ◌==◌, length, length-append, take, drop, take-length, drop-length, take_all, replicate,
  length-take, slice_all, bit_or_byte, ok, arith,
}
use jubiter_sdk_c.Gpc.TlvBuf.{same_bytes_self}
use jubiter_sdk_c.Gpc.Scp03.{Aes, IsCipher, Scp03, counter_block, icv, cmac, mac_chaining}
use jubiter_sdk_c.Gpc.Scp03.Encryption.{encrypt_size, encrypts_padded}
use jubiter_sdk_c.Apdu.Format.{Apdu, set_apdu, set_data, size_bytes}
use jubiter_sdk_c.Apdu.Parse.{IsCommand, read_apdu, read_apdu-build_apdu}
use jubiter_sdk_c.Apdu.Builder.{
  Scp11, pack_data, plus_cmac, safe_header, command_mac_input, build_safe_apdu,
}
use jubiter_sdk_c.Apdu.Card.{Card, IsOpen, InSync, command_mac, decrypt_command, open_command}

-- The size of a padded text.
abbrev pub padded_size : List ℕ → ℕ
padded_size text = (length text / 16 + 1) * 16

set_apdu_lem :
    (c i p q : ℕ) (x : ℕ) (code : List ℕ)
    → x ≡ length code
    → 0 < x
    → set_apdu c i p q x (some code) 0
      ≡ ok (record { cla = c; ins = i; p1 = p; p2 = q; lc = x; le = 0; body = code })
unfolding set_apdu set_data
set_apdu_lem c i p q x code e h =
    let some_data : (x == 0) ≡ false = ground arith in rw (some_data, slice_all x code e)

-- The command with its MAC, as it is sent for encrypted data.
abbrev pub safe_command : Apdu → (code full : List ℕ) → Apdu
safe_command a code full = record {
  cla = bit_or a.cla 0x04;
  ins = a.ins;
  p1 = a.p1;
  p2 = a.p2;
  lc = length code + 8;
  le = 0;
  body = code ++ take 8 full;
}

length-safe_command :
    (code full : List ℕ) → length full ≡ 16 → length (code ++ take 8 full) ≡ length code + 8
length-safe_command code full h =
    omega (arith, length-append code (take 8 full), length-take 8 full)

module _ (aes : Aes) (law : IsCipher aes) (k : Scp11) (open_keys : IsOpen aes k) where
  -- The chaining vector of a counter, for a command or a response.
  pub vector_of :
      (first n : ℕ)
      → (vector : List ℕ) × (aes.cbc_encrypt k.s_enc (replicate 16 0) (counter_block first n)
          ≡ some vector)
  unfolding counter_block
  vector_of first n =
      let (vector, made, size, decrypted) =
        law.encrypts k.s_enc (replicate 16 0) (counter_block first n) open_keys.enc_ok refl in
      (vector, made)

  pub cmac_lem :
      (key message : List ℕ) → 16 ≤ length key → cmac aes key message 16 ≡ ok (aes.mac key message)
  unfolding cmac
  cmac_lem key message h = rw (
    le→leb 16 (length key) h,
    take_all 16 (aes.mac key message) (omega (arith, law.mac_size key message)),
  )

  -- What `PackData` makes of a text, and what the card makes of that.
  packed :
      (s : Scp03) (c : Card) (text : List ℕ)
      → s.counter ≡ c.counter
      → (code : List ℕ) × (pack_data aes (some s) (some k) [] text ≡ ok code)
        × (length code ≡ padded_size text)
        × (decrypt_command aes k c code ≡ ok (text, length text))
  unfolding pack_data icv decrypt_command
  packed s c text same =
      let (vector, made) = vector_of 0x00 c.counter in
      let (code, encrypted, size, decrypted) =
        encrypts_padded aes law k.s_enc vector open_keys.enc_ok text (padded_size text)
          (omega arith) in
      let sized = encrypt_size aes law k.s_enc vector open_keys.enc_ok text in
      let whole = slice_all (padded_size text) code (sym size) in
      (code, rw (open_keys.enc_ok, same, made, sized, encrypted, whole), size, rw (made, decrypted))

  command_mac_lem :
      (chain chain' : List ℕ) (a : Apdu) (code full : List ℕ)
      → chain' ≡ chain
      → IsCommand (safe_command a code full)
      → length code < 248
      → command_mac aes k chain' (safe_command a code full) code
        ≡ aes.mac k.s_mac (command_mac_input chain (safe_command a code full) code)
  unfolding command_mac command_mac_input size_bytes
  command_mac_lem chain chain' a code full e h fits =
      let cla : bit_or a.cla 0x04 % 256 ≡ bit_or a.cla 0x04 = omega (arith, h.cla_byte) in
      let ins : a.ins % 256 ≡ a.ins = omega (arith, h.ins_byte) in
      let p1 : a.p1 % 256 ≡ a.p1 = omega (arith, h.p1_byte) in
      let p2 : a.p2 % 256 ≡ a.p2 = omega (arith, h.p2_byte) in
      let short = ltb-false 0xFF (length code + 8) (omega arith) in
      rw (command_mac, e, short, cla, ins, p1, p2)

  open_command_lem :
      (c : Card) (safe : Apdu) (code full text bytes : List ℕ) (n : ℕ)
      → read_apdu bytes ≡ some safe
      → safe.body ≡ code ++ take 8 full
      → length full ≡ 16
      → command_mac aes k c.chain safe code ≡ full
      → decrypt_command aes k c code ≡ ok (text, n)
      → open_command aes k c bytes ≡ ok (safe, text, full)
  unfolding open_command
  open_command_lem c safe code full text bytes n back e size mac opened =
      let whole : length safe.body ≡ length code + 8 = rw e (length-safe_command code full size) in
      let long = le→leb 8 (length safe.body) (omega arith) in
      let cut : length safe.body - 8 ≡ length code = omega arith in
      let front : take (length code) safe.body ≡ code = rw e (take-length code (take 8 full)) in
      let tag : drop (length code) safe.body ≡ take 8 full =
        rw e (drop-length code (take 8 full)) in
      let right = same_bytes_self (take 8 full) in
      rw (back, long, cut, front, tag, mac, right, opened)

  -- The command that is sent for an encrypted text.
  pub command_built :
      (s : Scp03) (c : Card) (a : Apdu)
      → InSync s c
      → a.cla < 256
      → a.ins < 256
      → a.p1 < 256
      → a.p2 < 256
      → length a.body < 240
      → (bytes : List ℕ) × (code : List ℕ) × (full : List ℕ) × (build_safe_apdu aes
            (some s)
            (some k)
            a
            []
          ≡ ok (bytes, some (record s { mac_chain = full })))
        × (open_command aes k c bytes ≡ ok (safe_command a code full, a.body, full))
  unfolding build_safe_apdu plus_cmac mac_chaining safe_header command_mac_input
  command_built s c a sync hc hi hp hq fits =
      let (code, made, size, opened) = packed s c a.body sync.same_counter in
      let enc : Apdu = record {
        cla = a.cla;
        ins = a.ins;
        p1 = a.p1;
        p2 = a.p2;
        lc = length code;
        le = 0;
        body = code;
      } in
      let full = aes.mac k.s_mac (command_mac_input s.mac_chain (safe_header enc) code) in
      let safe = safe_command a code full in
      let full_size : length full ≡ 16 = law.mac_size k.s_mac _ in
      let fields : IsCommand safe = record {
        cla_byte = bit_or_byte a.cla hc;
        ins_byte = hi;
        p1_byte = hp;
        p2_byte = hq;
        lc_size = sym (length-safe_command code full full_size);
        lc_fits = omega arith;
        le_fits = omega arith;
      } in
      let (bytes, written, back) = read_apdu-build_apdu safe fields in
      let agreed =
        command_mac_lem s.mac_chain c.chain a code full (sym sync.same_chain) fields
          (omega arith) in
      let set = set_apdu_lem a.cla a.ins a.p1 a.p2 (length code) code refl (omega arith) in
      let mac =
        cmac_lem k.s_mac (command_mac_input s.mac_chain (safe_header enc) code)
          open_keys.mac_size in
      (
        bytes,
        code,
        full,
        rw (made, set, mac, written),
        open_command_lem c safe code full a.body bytes (length a.body) back refl full_size agreed
            opened,
      )
