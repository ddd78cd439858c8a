-- ===== src/Apdu/Format.antt =====
-- include/utility/Apdu.hpp, and `BuildApdu` of src/device/ApduBuilder.cpp.
use jubiter_sdk_c.Common.{
  ℕ, ◌+◌, ◌-◌, ◌/◌, ◌%◌, ◌^◌, not, ◌&&◌, Option, none, some, List, [], ◌∷◌, ◌++◌, ltb, leb, ◌==◌,
  if◌then◌else◌, length, get_elem?, slice, Outcome, ok, ◌>>=◌, ◌>>◌, check, within, or_fault,
}
use jubiter_sdk_c.Gpc.Scp03.{returned_false}

pub record Apdu : Type 0 where
  pub cla : ℕ
  pub ins : ℕ
  pub p1 : ℕ
  pub p2 : ℕ
  pub lc : ℕ
  pub le : ℕ
  pub body : List ℕ

-- `SetData`: the first bytes behind the pointer.
unfoldable pub set_data : List ℕ → ℕ → Apdu → Outcome Apdu
set_data source size apdu = do
  bytes ← or_fault (slice 0 size source)
  ok (record apdu { body = bytes })

-- `SetApdu`; `none` is a null pointer.
unfoldable pub set_apdu : (cla ins p1 p2 lc : ℕ) → Option (List ℕ) → ℕ → Outcome Apdu
set_apdu ncla nins np1 np2 nlc none nle =
    ok (record { cla = ncla; ins = nins; p1 = np1; p2 = np2; lc = nlc; le = nle; body = [] })
set_apdu ncla nins np1 np2 nlc (some source) nle =
    let header : Apdu = record {
      cla = ncla;
      ins = nins;
      p1 = np1;
      p2 = np2;
      lc = nlc;
      le = nle;
      body = [];
    } in
    if nlc == 0 then ok header else set_data source nlc header

pub record ResponseApdu : Type 0 where
  pub body : List ℕ
  pub cmac : List ℕ
  pub sw1 : ℕ
  pub sw2 : ℕ

abbrev pub cmac_len : ℕ
cmac_len = 8

abbrev pub sw_len : ℕ
sw_len = 2

-- `decode`. With 8 or 9 bytes the index of the MAC is negative.
unfoldable pub decode : List ℕ → Outcome ResponseApdu
decode raw = do
  let size = length raw
  check (not (size == 0)) returned_false
  check (not (ltb size cmac_len && not (size == sw_len))) returned_false
  first ← or_fault (get_elem? raw (size - sw_len))
  second ← or_fault (get_elem? raw (size - 1))
  if size == sw_len then ok (record { body = []; cmac = []; sw1 = first; sw2 = second }) else (do
    within (leb (sw_len + cmac_len) size)
    front ← or_fault (slice 0 (size - sw_len - cmac_len) raw)
    back ← or_fault (slice (size - sw_len - cmac_len) (size - sw_len) raw)
    ok (record { body = front; cmac = back; sw1 = first; sw2 = second }))

-- One byte up to 0xFF, otherwise three; a `JUB_BYTE` keeps the low 8 bits.
unfoldable pub size_bytes : ℕ → List ℕ
size_bytes n =
    if ltb 0xFF n then n / 0x10000 % 2 ^ 8 ∷ n / 0x100 % 0x100 ∷ n % 0x100 ∷ [] else n % 2 ^ 8 ∷ []

unfoldable pub build_data : Apdu → Outcome (List ℕ)
build_data apdu =
    if apdu.lc == 0
    then ok []
    else or_fault (slice 0 apdu.lc apdu.body) >>= λ bytes. ok (size_bytes apdu.lc ++ bytes)

unfoldable pub build_le : Apdu → List ℕ
build_le apdu = if apdu.le == 0 then [] else size_bytes apdu.le

-- `BuildApdu`, behind what the destination holds.
unfoldable pub build_apdu : Apdu → List ℕ → Outcome (List ℕ)
build_apdu apdu v_safe_apdu = do
  let header : List ℕ = apdu.cla % 2 ^ 8 ∷ apdu.ins % 2 ^ 8 ∷ apdu.p1 % 2 ^ 8 ∷ apdu.p2 % 2 ^ 8 ∷ []
  bytes ← build_data apdu
  ok (v_safe_apdu ++ (header ++ (bytes ++ build_le apdu)))
