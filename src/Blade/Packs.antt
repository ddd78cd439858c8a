-- ===== src/Blade/Packs.antt =====
-- The packs that `_TranPack` of src/token/JubiterBladeToken.cpp sends, one by one.
use Prim.Native.Nat.{bit_or}
use native.Mathlib.Nat.{div-add-mod, mod-lt}
use jubiter_sdk_c.Common.{
  ℕ, zero, suc, ◌+◌, ◌-◌, ◌*◌, ◌/◌, ◌%◌, ◌≤◌, ◌<◌, ◌≡◌, ◌≢◌, sym, Bool, true, false, not, ◌&&◌,
  Option, some, List, [], ◌∷◌, ◌++◌, map, append-nil, append_assoc, ◌==◌, if◌then◌else◌, length,
  take, drop, length-take, length-drop, drop-drop, take-append-drop, take_all, slice_in_range,
  concat, All, bit_or_two, bit_or_three, Outcome, ok, arith,
}
use jubiter_sdk_c.Apdu.Format.{Apdu, set_data}
use jubiter_sdk_c.Apdu.Parse.{IsCommand, read_apdu, read_apdu-build_apdu}
use jubiter_sdk_c.Blade.Send.{
  last_word, received, verify_cos_error, send_by, send_apdu, send_checked, transmitted,
}
use jubiter_sdk_c.Blade.TranPack.{pack_counts, pack_apdu, last_apdu, send_packs, send_left}

-- A device that writes down the commands and accepts them.
unfoldable pub accept : List ℕ → List (Option Apdu) → Outcome (List ℕ) × List (Option Apdu)
accept command log = (ok (0x90 ∷ 0x00 ∷ []), log ++ (read_apdu command ∷ []))

send_checked-accept :
    (a : Apdu) (log : List (Option Apdu))
    → IsCommand a
    → send_checked (some accept) a log ≡ (ok tt, log ++ (some a ∷ []))
unfolding send_checked send_apdu send_by accept transmitted received last_word verify_cos_error
send_checked-accept a log h =
    let (bytes, built, back) = read_apdu-build_apdu a h in rw (built, back)

abbrev counts_of : (q r once : ℕ) → ℕ × ℕ
counts_of q r once = if r == 0 && not (q == 0) then (q - 1, once) else (q, r)

counts_of_lem :
    (q r once size : ℕ)
    → once * q + r ≡ size
    → r < once
    → size ≢ 0
    → ((counts_of q r once).0 * once + (counts_of q r once).1 ≡ size)
      × (0 < (counts_of q r once).1)
      × ((counts_of q r once).1 ≤ once)
counts_of_lem zero zero once size e h k = absurd (k (omega (arith, e)))
counts_of_lem (suc q) zero once size e h k = (grind arith, ground arith, ground arith)
counts_of_lem zero (suc r) once size e h k = (grind arith, ground arith, ground arith)
counts_of_lem (suc q) (suc r) once size e h k = (grind arith, ground arith, ground arith)

-- Whole packs and a rest of 1 to `once` bytes make up the data.
pub pack_counts_lem :
    (size once : ℕ)
    → size ≢ 0
    → 0 < once
    → ((pack_counts size once).0 * once + (pack_counts size once).1 ≡ size)
      × (0 < (pack_counts size once).1)
      × ((pack_counts size once).1 ≤ once)
unfolding pack_counts
pack_counts_lem size once h k =
    counts_of_lem (size / once) (size % once) once size (div-add-mod size once) (mod-lt size k) h

set_data-take :
    (source : List ℕ) (n : ℕ) (a : Apdu)
    → n ≤ length source
    → set_data source n a ≡ ok (record a { body = take n source })
unfolding set_data
set_data-take source n a h =
    let size : n - 0 ≡ n = omega arith in rw (slice_in_range 0 n source (omega arith) h, size)

module _ (c i high sig once : ℕ) where
  abbrev pub pack_of : List ℕ → Apdu
  pack_of chunk = record {
    cla = c;
    ins = i;
    p1 = bit_or 0x02 high;
    p2 = sig;
    lc = once;
    le = 0;
    body = chunk;
  }

  -- The bounds of the header of a pack.
  pub record IsHeader : Type 0 where
    pub cla_byte : c < 256
    pub ins_byte : i < 256
    pub high_byte : high < 256
    pub sig_byte : sig < 256
    pub some_bytes : 0 < once
    pub once_fits : once < 65536

module _ (c i high sig once : ℕ) (header : IsHeader c i high sig once) where
  pack_of-IsCommand :
      (chunk : List ℕ) → length chunk ≡ once → IsCommand (pack_of c i high sig once chunk)
  pack_of-IsCommand chunk e = record {
    cla_byte = header.cla_byte;
    ins_byte = header.ins_byte;
    p1_byte = bit_or_two high header.high_byte;
    p2_byte = header.sig_byte;
    lc_size = sym e;
    lc_fits = header.once_fits;
    le_fits = omega arith;
  }

  pub send_packs-accept :
      (rounds times stop : ℕ) (source : List ℕ) (log : List (Option Apdu))
      → stop ≡ (times + rounds) * once
      → rounds * once ≤ length (drop (times * once) source)
      → (chunks : List (List ℕ)) × All (λ chunk. length chunk ≡ once) chunks
        × (concat chunks ++ drop stop source ≡ drop (times * once) source)
        × (send_packs (some accept) rounds times (pack_apdu c i high sig once) source log
            ≡ (ok tt, log ++ map (λ chunk. some (pack_of c i high sig once chunk)) chunks))
  unfolding send_packs pack_apdu
  send_packs-accept zero times stop source log e h =
      let same : stop ≡ times * once = grind (arith, e) in ([], tt, rw same, rw (append-nil log))
  send_packs-accept (suc rounds) times stop source log e h =
      let here = drop (times * once) source in
      let chunk = take once here in
      let enough : once ≤ length here = grind (arith, h) in
      let size : length chunk ≡ once = omega (arith, length-take once here, enough) in
      let next : drop once here ≡ drop ((times + 1) * once) source =
        drop-drop once (times * once) ((times + 1) * once) source (grind arith) in
      let left : rounds * once ≤ length (drop ((times + 1) * once) source) =
        rw (sym next) (rw (length-drop once here) (grind (arith, h))) in
      let (chunks, sizes, whole, sent) =
        send_packs-accept rounds (times + 1) stop source
          (log ++ (some (pack_of c i high sig once chunk) ∷ [])) (grind (arith, e)) left in
      let first = set_data-take here once (pack_apdu c i high sig once) enough in
      let accepted =
        send_checked-accept (pack_of c i high sig once chunk) log (pack_of-IsCommand chunk size) in
      (
        chunk ∷ chunks,
        (size, sizes),
        rw (append_assoc chunk (concat chunks) (drop stop source), whole, sym next)
            (take-append-drop once here),
        rw (first, accepted, sent, append_assoc log),
      )

-- The first parameter byte of the last pack.
abbrev pub last_p1 : Bool → ℕ → ℕ
last_p1 final_data high = if final_data then bit_or 0x03 high else bit_or 0x02 high

abbrev pub last_of : (final_data : Bool) (high sig : ℕ) → List ℕ → Apdu
last_of final_data high sig chunk = record {
  cla = 0x00;
  ins = 0xF8;
  p1 = last_p1 final_data high;
  p2 = sig;
  lc = length chunk;
  le = 0;
  body = chunk;
}

pub last_p1-lt : (final_data : Bool) (high : ℕ) → high < 256 → last_p1 final_data high < 256
last_p1-lt true high h = bit_or_three high h
last_p1-lt false high h = bit_or_two high h

pub send_left-accept :
    (final_data : Bool) (high sig once start n : ℕ) (source : List ℕ) (log : List (Option Apdu))
    → n ≡ length (drop start source)
    → 0 < n
    → IsCommand (last_of final_data high sig (drop start source))
    → send_left
        (some accept)
        (last_apdu final_data high n (pack_apdu 0x00 0xF8 high sig once))
        start
        source
        log
      ≡ (ok tt, log ++ (some (last_of final_data high sig (drop start source)) ∷ []))
unfolding send_left last_apdu pack_apdu
send_left-accept final_data high sig once start n source log e h fields =
    let last = drop start source in
    let some_left : (n == 0) ≡ false = ground arith in
    let apdu = last_apdu final_data high n (pack_apdu 0x00 0xF8 high sig once) in
    rw (
      some_left,
      set_data-take last n apdu (omega arith),
      take_all n last (omega arith),
      e,
      send_checked-accept (last_of final_data high sig last) log fields,
    )
