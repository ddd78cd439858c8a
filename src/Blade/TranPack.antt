-- ===== src/Blade/TranPack.antt =====
-- `_TranPack` and `_TranPackApdu` of src/token/JubiterBladeToken.cpp.
use Prim.Native.Nat.{bit_or}
use jubiter_sdk_c.Common.{
  after, ℕ, zero, suc, ◌+◌, ◌-◌, ◌*◌, ◌/◌, ◌%◌, Bool, not, ◌&&◌, Option, none, some, List, [], ◌==◌,
  if◌then◌else◌, length, drop, Outcome, ok, fail, fault, ◌>>=◌,
}
use jubiter_sdk_c.Status.{jubr_error}
use jubiter_sdk_c.Apdu.Format.{Apdu, set_apdu, set_data}
use jubiter_sdk_c.Blade.Send.{Dest, Sent, verify_cos_error, send_apdu, send_checked}

-- Whole packs and what is left; the last whole pack is what is left if nothing else is.
unfoldable pub pack_counts : ℕ → ℕ → ℕ × ℕ
pack_counts size once =
    if size % once == 0 && not (size / once == 0)
    then (size / once - 1, once)
    else (size / once, size % once)

-- The command of all packs but the last.
unfoldable pub pack_apdu : (cla ins high_mark sig_type once : ℕ) → Apdu
pack_apdu ncla nins high_mark sig_type once = record {
  cla = ncla;
  ins = nins;
  p1 = bit_or 0x02 high_mark;
  p2 = sig_type;
  lc = once;
  le = 0;
  body = [];
}

unfoldable pub last_apdu : Bool → ℕ → ℕ → Apdu → Apdu
last_apdu final_data high_mark left apdu = record apdu {
  lc = left;
  p1 = if final_data then bit_or 0x03 high_mark else apdu.p1;
}

module _ {D : Type 0} (device : Option (List ℕ → D → Outcome (List ℕ) × D)) where
  -- `for (times = 0; times < nextTimes; times++)`, with the rounds that are left and `times`.
  unfoldable pub send_packs : ℕ → ℕ → Apdu → (source : List ℕ) → D → Outcome (Unit {0}) × D
  send_packs zero times apdu source d = (ok tt, d)
  send_packs (suc rounds) times apdu source d =
      after (set_data (drop (times * apdu.lc) source) apdu.lc apdu, d)
        (λ pack d'.
          after (send_checked device pack d')
            (λ done d''. send_packs rounds (times + 1) apdu source d''))

  -- One pack is enough.
  unfoldable pub send_once : (cla ins high_mark sig_type : ℕ) → List ℕ → D → Outcome (Unit {0}) × D
  send_once ncla nins high_mark sig_type source d =
      after (set_apdu ncla nins (bit_or 0x00 high_mark) sig_type (length source) (some source) 0, d)
        (send_checked device)

  unfoldable pub send_left : Apdu → ℕ → (source : List ℕ) → D → Outcome (Unit {0}) × D
  send_left apdu start source d =
      if apdu.lc == 0
      then (ok tt, d)
      else after (set_data (drop start source) apdu.lc apdu, d) (send_checked device)

  unfoldable pub tran_pack :
      (source : List ℕ) (high_mark sig_type once : ℕ) (final_data at_once : Bool)
      → D
      → Outcome (Unit {0}) × D
  tran_pack source high_mark sig_type once final_data at_once d =
      if length source == 0
      then (fail jubr_error, d)
      else if at_once
      then send_once 0x00 0xF8 high_mark sig_type source d
      else if once == 0
      then (fault, d)
      else let counts = pack_counts (length source) once in
        let apdu = pack_apdu 0x00 0xF8 high_mark sig_type once in
        after (send_packs (counts.0) 0 apdu source d) (λ done d'.
          send_left (last_apdu final_data high_mark (counts.1) apdu) (counts.0 * once) source d')

  -- The last pack asks for the answer; `none` where nothing is asked for.
  unfoldable pub send_left_apdu :
      Apdu → ℕ → (source : List ℕ) → Dest → D → Outcome (Option Sent) × D
  send_left_apdu apdu start source dest d =
      if apdu.lc == 0
      then (ok none, d)
      else after (set_data (drop start source) apdu.lc apdu, d)
          (λ pack d'.
            after (send_apdu device pack dest d')
              (λ sent d''. ((verify_cos_error sent.w_ret >>= λ done. ok (some sent)), d'')))

  unfoldable pub tran_pack_apdu :
      (cla ins : ℕ) (source : List ℕ) (high_mark sig_type once : ℕ)
      → Dest
      → (final_data at_once : Bool) → D
      → Outcome (Option Sent) × D
  tran_pack_apdu ncla nins source high_mark sig_type once dest final_data at_once d =
      if length source == 0
      then (fail jubr_error, d)
      else if at_once
      then after (send_once ncla nins high_mark sig_type source d) (λ done d'. (ok none, d'))
      else if once == 0
      then (fault, d)
      else let counts = pack_counts (length source) once in
        let apdu = pack_apdu ncla nins high_mark sig_type once in
        after (send_packs (counts.0) 0 apdu source d) (λ done d'.
          send_left_apdu (last_apdu final_data high_mark (counts.1) apdu) (counts.0 * once) source
            dest d')
