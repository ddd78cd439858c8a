-- ===== src/Blade/MultiSig.antt =====
-- src/token/BTC/JubiterBladeBTCImpl.cpp: addresses and signatures of several cosigners.
pub mod Signatures
mod Tests
use Prim.Native.Nat.{bit_or}
use jubiter_sdk_c.Common.{
  after, ℕ, zero, suc, ◌+◌, ◌*◌, ◌/◌, ◌%◌, ◌^◌, true, false, Option, none, some, List, [], ◌∷◌,
  ◌++◌, map, concat, ◌==◌, if◌then◌else◌, length, replicate, get_elem?, slice, Outcome, ok, fail,
  fault, ◌>>=◌, or_fault,
}
use jubiter_sdk_c.Status.{jubr_transmit_device_error, jubr_impl_not_support, jubr_user_cancel}
use jubiter_sdk_c.Apdu.Format.{Apdu, set_apdu}
use jubiter_sdk_c.Utility.Tlv.{to_tlv, tolv}
use jubiter_sdk_c.Context.{TransType, p2sh_multisig, p2wsh_multisig}
use jubiter_sdk_c.Blade.Send.{no_length, into, Sent, send_apdu}
use jubiter_sdk_c.Blade.TranPack.{tran_pack, tran_pack_apdu}
use jubiter_sdk_c.Blade.BtcData.{Version, format_mark, path_lv, send_once_len, read_once_len}
use jubiter_sdk_c.Blade.Btc.{read_command, put_at, next_len, two_bytes}

unfoldable pub multi_sig_type : TransType → Outcome ℕ
multi_sig_type p2sh_multisig = ok 0x11
multi_sig_type p2wsh_multisig = ok 0x11
multi_sig_type _ = fail jubr_impl_not_support

-- Every status but 0x9000 is one error.
unfoldable pub accepted_status : ℕ → Outcome (Unit {0})
accepted_status w = if w == 0x9000 then ok tt else fail jubr_transmit_device_error

-- The changes: an index, a path, and a redeem script.
unfoldable pub change_scripts : List ℕ → List (List ℕ) → List (List ℕ) → Outcome (List ℕ)
change_scripts [] paths scripts = ok []
change_scripts (i ∷ indices) [] scripts = fault
change_scripts (i ∷ indices) (p ∷ paths) [] = fault
change_scripts (i ∷ indices) (p ∷ paths) (r ∷ scripts) =
    change_scripts indices paths scripts >>= λ rest.
    ok (i % 2 ^ 8 ∷ length p % 2 ^ 8 ∷ (p ++ (tolv r ++ rest)))

-- The loop that splits what was read: `len`, `offset` and `offsetTotal` have 8 bits.
unfoldable pub split_signatures : ℕ → ℕ → List ℕ → Outcome (List (List ℕ))
split_signatures zero offset_total raw = ok []
split_signatures (suc count) offset_total raw = do
  len ← or_fault (get_elem? raw offset_total)
  let offset = (len + 1) % 2 ^ 8
  signature ← or_fault (slice (offset_total + 1) (offset_total + offset) raw)
  others ← split_signatures count ((offset_total + offset) % 2 ^ 8) raw
  ok (signature ∷ others)

-- The text in a buffer of zeros: up to the first zero.
unfoldable pub text_of : List ℕ → List ℕ
text_of [] = []
text_of (c ∷ cs) = let rest = text_of cs in if c == 0 then [] else c ∷ rest

unfoldable pub answer_text : Option Sent → List ℕ
unfolding text_of
answer_text none = []
answer_text (some s) = text_of s.ret_data

-- The result of the command that signs.
unfoldable pub multi_signed_length : Sent → Outcome ℕ
unfolding accepted_status two_bytes
multi_signed_length s =
    if s.w_ret == 0x6f09
    then fail jubr_user_cancel
    else accepted_status s.w_ret >>= λ _. two_bytes s.ret_data

-- The command that reads: `SetApdu` has set the length of the answer to 0 again before the loop.
unfoldable pub read_signature_command : ℕ → ℕ → Apdu
unfolding read_command
read_signature_command times le = let a = read_command times le in record a { ins = 0xE9 }

module _ {D : Type 0} (device : Option (List ℕ → D → Outcome (List ℕ) × D)) where
  -- A command with its data, and its status.
  unfoldable pub send_first : (ins p1 p2 : ℕ) → List ℕ → D → Outcome (Unit {0}) × D
  unfolding accepted_status
  send_first i p q body d =
      after (set_apdu 0x00 i p q (length body) (some body) 0, d)
        (λ apdu d1.
          after (send_apdu device apdu no_length d1) (λ s d2. (accepted_status s.w_ret, d2)))

  -- `GetAddressMultiSig`.
  unfoldable pub get_address_multi_sig :
      Version → ℕ → TransType → List ℕ → ℕ → List ℕ → D → Outcome (List ℕ) × D
  unfolding multi_sig_type send_first format_mark path_lv answer_text
  get_address_multi_sig v addr_fmt type path tag script d =
      let mark = format_mark v addr_fmt in
      after (multi_sig_type type, d)
        (λ sig d0.
          after
            (send_first 0xF7 (bit_or 0x01 mark) sig
              (tag % 2 ^ 8 ∷ to_tlv 0x0F (path_lv (path ∷ []))) d0)
            (λ _ d1.
              after
                (tran_pack_apdu device 0x00 0xF7 (to_tlv 0x1F (tolv script)) mark sig send_once_len
                  (into 2048) true false d1)
                (λ s d2. (ok (answer_text s), d2))))

  unfoldable pub read_signature_pack : (times le len : ℕ) → List ℕ → D → Outcome (ℕ × List ℕ) × D
  unfolding read_signature_command put_at accepted_status
  read_signature_pack times le len raw d =
      after (send_apdu device (read_signature_command times le) (into len) d) (λ s d'. (
        (accepted_status s.w_ret >>= λ _.
            put_at (times * read_once_len) s.ret_data raw >>= λ raw'. ok (next_len s len, raw')),
        d',
      ))

  unfoldable pub read_signature_packs : ℕ → (times len : ℕ) → List ℕ → D → Outcome (List ℕ) × D
  unfolding read_signature_pack
  read_signature_packs zero times len raw d = (ok raw, d)
  read_signature_packs (suc rounds) times len raw d =
      after (read_signature_pack times 0 len raw d)
        (λ next d'. read_signature_packs rounds (times + 1) (next.0) (next.1) d')

  unfoldable pub read_signatures : ℕ → D → Outcome (List ℕ) × D
  unfolding read_signature_packs
  read_signatures total d =
      let times = total / read_once_len in
      let left = total % read_once_len in
      after (read_signature_packs times 0 read_once_len (replicate total 0) d) (λ raw d'.
        if left == 0
        then (ok raw, d')
        else after (read_signature_pack times left left raw d') (λ next d''. (ok (next.1), d'')))

  -- `SignTXMultiSig`, from the packs of data on.
  unfoldable pub sign_packs :
      (mark sig : ℕ)
      → (paths unsigned changes scripts : List ℕ) → ℕ
      → D
      → Outcome (List (List ℕ)) × D
  unfolding multi_signed_length read_signatures split_signatures
  sign_packs mark sig paths unsigned changes scripts input_count d =
      after (tran_pack device (to_tlv 0x0F paths) mark sig send_once_len false false d) (λ _ d1.
        after (tran_pack device (to_tlv 0x0D unsigned) mark sig send_once_len false false d1)
          (λ _ d2.
            after (tran_pack device (to_tlv 0x10 changes) mark sig send_once_len false false d2)
              (λ _ d3.
                after (tran_pack device (to_tlv 0x1F scripts) mark sig send_once_len true false d3)
                  (λ _ d4.
                    after (set_apdu 0x00 0x2A 0x00 0x00 0 none 0, d4)
                      (λ sign d5. after (send_apdu device sign (into 2) d5) (λ s d6.
                        after (multi_signed_length s, d6)
                          (λ total d7.
                            after (read_signatures total d7)
                              (λ raw d8. (split_signatures input_count 0 raw, d8)))))))))

  -- `SignTXMultiSig`; the sizes of the lists of changes are those of the indices.
  unfoldable pub sign_tx_multi_sig :
      (put_64 : ℕ → List ℕ)
      → Version
      → ℕ
      → TransType
      → ℕ
      → List ℕ
      → List (List ℕ)
      → List (List ℕ)
      → List ℕ
      → List (List ℕ)
      → List (List ℕ)
      → List ℕ
      → D
      → Outcome (List (List ℕ)) × D
  unfolding multi_sig_type send_first format_mark path_lv change_scripts sign_packs
  sign_tx_multi_sig put_64 v addr_fmt type input_count amounts paths scripts change_index
        change_path change_script unsigned d =
      let mark = format_mark v addr_fmt in
      let first = input_count % 2 ^ 8 ∷ to_tlv 0x0e (concat (map put_64 amounts)) in
      after (multi_sig_type type, d)
        (λ sig d0. after (send_first 0xF8 (bit_or 0x01 mark) sig first d0) (λ _ d1.
          after (change_scripts change_index change_path change_script, d1)
            (λ items d2.
              sign_packs mark sig (path_lv paths) unsigned (length change_index % 2 ^ 8 ∷ items)
                (concat (map tolv scripts)) input_count d2)))
