-- ===== src/Blade/Btc.antt =====
-- src/token/BTC/JubiterBladeBTCImpl.cpp: the commands of a Blade for the BTC series. Paths and other
-- texts are given as their bytes, and `put_64` is what `uchar_vector << uint64_t` appends.
pub mod Reading
mod Tests
use Prim.Native.Nat.{bit_or}
use jubiter_sdk_c.Common.{
  after, ℕ, zero, suc, ◌+◌, ◌-◌, ◌*◌, ◌/◌, ◌%◌, ◌^◌, Bool, true, false, not, ◌&&◌, ◌||◌, Option,
  none, some, List, [], ◌∷◌, ◌++◌, map, concat, ltb, leb, ◌==◌, if◌then◌else◌, length, take, drop,
  replicate, Outcome, ok, fail, fault, ◌>>=◌, within,
}
use jubiter_sdk_c.Status.{
  jubr_arguments_bad, jubr_error, jubr_transmit_device_error, jubr_impl_not_support,
  jubr_user_cancel,
}
use jubiter_sdk_c.Apdu.Format.{Apdu, set_apdu}
use jubiter_sdk_c.Utility.Tlv.{to_tlv}
use jubiter_sdk_c.Context.{TransType, p2pkh, p2sh_p2wpkh, p2wpkh, p2sh_multisig, p2wsh_multisig}
use jubiter_sdk_c.Blade.Send.{
  Dest, no_length, into, Sent, verify_cos_error, send_apdu, send_checked,
}
use jubiter_sdk_c.Blade.TranPack.{tran_pack}
use jubiter_sdk_c.Blade.Commands
use jubiter_sdk_c.Blade.BtcData.{
  Version, format_mark, sig_type, node_format, send_once_len, read_once_len, path_lv, change_lv,
}

-- The command that reads `size` bytes at `times * kReadOnceLen`, in 16 bits.
unfoldable pub read_command : ℕ → ℕ → Apdu
read_command times size =
    let offset = times * read_once_len % 2 ^ 16 in
    record {
      cla = 0x00;
      ins = 0xF9;
      p1 = offset / 2 ^ 8;
      p2 = offset % 2 ^ 8;
      lc = 0x00;
      le = size;
      body = [];
    }

-- `_SendApdu` writes into a part of `sigRawTx`.
unfoldable pub put_at : ℕ → List ℕ → List ℕ → Outcome (List ℕ)
put_at offset bytes raw = within (leb (offset + length bytes) (length raw)) >>= λ _.
    ok (take offset raw ++ (bytes ++ drop (offset + length bytes) raw))

-- What is left of `ulRetLen`: the length of the answer.
abbrev pub next_len : Sent → ℕ → ℕ
next_len s len = elim s.ret_len [ none ↦ len | some n ↦ n ]

-- The two bytes of a length; another length of the answer is refused.
unfoldable pub two_bytes : List ℕ → Outcome ℕ
two_bytes (high ∷ low ∷ []) = ok (high * 2 ^ 8 + low)
two_bytes _ = fail jubr_transmit_device_error

-- What the command that signs gives: the length of the signed transaction.
unfoldable pub signed_length : Sent → Outcome ℕ
unfolding two_bytes
signed_length s =
    if s.w_ret == 0x6f09
    then fail jubr_user_cancel
    else verify_cos_error s.w_ret >>= λ _. two_bytes s.ret_data

module _ {D : Type 0} (device : Option (List ℕ → D → Outcome (List ℕ) × D)) where
  unfoldable pub get_hd_node : TransType → List ℕ → D → Outcome (List ℕ) × D
  unfolding node_format Commands.get_hd_node
  get_hd_node type path d =
      after (node_format type, d) (λ p2 d'. Commands.get_hd_node device 0x00 p2 path d')

  unfoldable pub get_address : Version → ℕ → TransType → List ℕ → ℕ → D → Outcome (List ℕ) × D
  unfolding format_mark sig_type Commands.get_address
  get_address v addr_fmt type path tag d =
      after (sig_type type, d)
        (λ sig d'.
          Commands.get_address device (bit_or (tag % 2 ^ 8) (format_mark v addr_fmt)) sig
            (to_tlv 0x08 path) d')

  -- A command without data, and the statuses that it takes for success.
  unfoldable pub set_by : (ins p1 : ℕ) → (ℕ → Bool) → D → Outcome (Unit {0}) × D
  set_by nins np1 accepts d =
      after (set_apdu 0x00 nins np1 0x00 0x00 none 0, d)
        (λ apdu d1.
          after (send_apdu device apdu no_length d1)
            (λ s d2. (if accepts s.w_ret then ok tt else fail jubr_error, d2)))

  unfoldable pub set_unit : ℕ → D → Outcome (Unit {0}) × D
  unfolding set_by
  set_unit unit_type d = set_by 0xFA unit_type (λ w. w == 0x9000) d

  -- An applet that does not know the command is taken for one of the right coin.
  unfoldable pub set_coin : ℕ → D → Outcome (Unit {0}) × D
  unfolding set_by
  set_coin coin_type d = set_by 0xF5 coin_type (λ w. w == 0x9000 || w == 0x6d00) d

  -- One command that reads, into `ulRetLen` bytes at its place.
  unfoldable pub read_pack : ℕ → ℕ → ℕ → List ℕ → D → Outcome (ℕ × List ℕ) × D
  unfolding read_command put_at
  read_pack times size len raw d =
      after (send_apdu device (read_command times size) (into len) d) (λ s d'. (
        (verify_cos_error s.w_ret >>= λ _.
            put_at (times * read_once_len) s.ret_data raw >>= λ raw'. ok (next_len s len, raw')),
        d',
      ))

  -- `for (times = 0; ...)`, with the rounds that are left.
  unfoldable pub read_packs : ℕ → ℕ → ℕ → List ℕ → D → Outcome (List ℕ) × D
  unfolding read_pack
  read_packs zero times len raw d = (ok raw, d)
  read_packs (suc rounds) times len raw d =
      after (read_pack times read_once_len len raw d)
        (λ next d'. read_packs rounds (times + 1) (next.0) (next.1) d')

  -- The signed transaction of `total` bytes, pack by pack.
  unfoldable pub read_raw : ℕ → D → Outcome (List ℕ) × D
  unfolding read_packs
  read_raw total d =
      let times = total / read_once_len in
      let left = total % read_once_len in
      after (read_packs times 0 read_once_len (replicate total 0) d) (λ raw d'.
        if left == 0
        then (ok raw, d')
        else after (read_pack times left left raw d') (λ next d''. (ok (next.1), d'')))

  -- `SignTX`.
  unfoldable pub sign_tx :
      (put_64 : ℕ → List ℕ)
      → Version
      → ℕ
      → TransType
      → ℕ
      → List ℕ
      → List (List ℕ)
      → List ℕ
      → List (List ℕ)
      → List ℕ
      → D
      → Outcome (List ℕ) × D
  unfolding format_mark sig_type path_lv change_lv signed_length read_raw
  sign_tx put_64 v addr_fmt type input_count amounts paths change_index change_path unsigned d =
      let mark = format_mark v addr_fmt in
      let first = input_count % 2 ^ 8 ∷ to_tlv 0x0e (concat (map put_64 amounts)) in
      after (sig_type type, d)
        (λ sig d0.
          after (set_apdu 0x00 0xF8 (bit_or 0x01 mark) sig (length first) (some first) 0, d0)
            (λ apdu d1. after (send_checked device apdu d1) (λ _ d2.
              after
                (tran_pack device (to_tlv 0x0F (path_lv paths)) mark sig send_once_len false false
                  d2)
                (λ _ d3.
                  after
                    (tran_pack device (to_tlv 0x0D unsigned) mark sig send_once_len false false d3)
                    (λ _ d4.
                      after (change_lv change_index change_path, d4)
                        (λ changes d5.
                          after
                            (tran_pack device (to_tlv 0x10 changes) mark sig send_once_len true
                              false d5)
                            (λ _ d6.
                              after (set_apdu 0x00 0x2A 0x00 sig 0 none 0, d6)
                                (λ sign d7. after (send_apdu device sign (into 2) d7) (λ s d8.
                                  after (signed_length s, d8)
                                    (λ total d9. read_raw total d9))))))))))
