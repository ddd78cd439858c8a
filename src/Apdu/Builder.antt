-- ===== src/Apdu/Builder.antt =====
-- `JubApduBuiler` of src/device/ApduBuilder.cpp.
use Prim.Native.Nat.{bit_or}
use jubiter_sdk_c.Common.{
  ℕ, ◌+◌, ◌*◌, ◌%◌, ◌^◌, Bool, true, false, not, Option, none, some, List, [], ◌∷◌, ◌++◌, ltb, ◌==◌,
  if◌then◌else◌, length, take, slice, Outcome, ok, fail, fault, stuck, ◌>>=◌, check, or_fault,
}
use jubiter_sdk_c.Status.{jubr_error, jubr_arguments_bad, jubr_buffer_too_small, jubr_error_args}
use jubiter_sdk_c.Gpc.TlvBuf.{same_bytes}
use jubiter_sdk_c.Gpc.Scp03
use jubiter_sdk_c.Gpc.Scp03.{Aes, Scp03, icv, encrypt, decrypt, cmac, mac_chaining}
use jubiter_sdk_c.Apdu.Format.{Apdu, ResponseApdu, set_apdu, decode, build_apdu, cmac_len}

-- What the builder reads of a `scp11`: `empty()` and the session key `sk`.
pub record Scp11 : Type 0 where
  pub is_empty : Bool
  pub s_enc : List ℕ
  pub s_mac : List ℕ
  pub s_rmac : List ℕ

pub record Builder : Type 0 where
  pub scp03_ptr : Option Scp03
  pub scp11_ptr : Option Scp11

-- `if (!f(...)) { return e; }` for a method that returns false.
abbrev pub or_return {ℓ} : {A : Type ℓ} → ℕ → Outcome A → Outcome A
or_return e (ok a) = ok a
or_return e (fail x) = fail e
or_return e fault = fault
or_return e stuck = stuck

unfoldable pub set_scp03 : Option Scp03 → Builder → Builder
set_scp03 ptr b = record b { scp03_ptr = ptr }

unfoldable pub set_scp11 : Scp11 → Builder → Outcome Builder
set_scp11 ptr b =
    if ptr.is_empty then fail jubr_arguments_bad else ok (record b { scp11_ptr = some ptr })

unfoldable pub inc_counter : Option Scp03 → Outcome (Option Scp03)
inc_counter none = fail jubr_error_args
inc_counter (some s) = ok (some (Scp03.inc_counter s))

-- `PackData` behind what the destination holds. Without both pointers the code goes on and follows
-- a null pointer, also where it has just copied the source.
unfoldable pub pack_data :
    Aes → Option Scp03 → Option Scp11 → (dest src : List ℕ) → Outcome (List ℕ)
pack_data aes none k dest src = fault
pack_data aes (some s) none dest src = fault
pack_data aes (some s) (some k) dest src = do
  vector ← or_return jubr_error ((icv aes k.s_enc true s).0)
  sized ← or_return jubr_error (encrypt aes k.s_enc vector src none)
  enc ← or_return jubr_error (encrypt aes k.s_enc vector src (some (sized.1)))
  bytes ← or_fault (slice 0 (enc.1) (enc.0))
  ok (dest ++ bytes)

unfoldable pub unpack_bytes :
    Aes → Scp11 → (dest src : List ℕ) → Outcome (List ℕ) → Outcome (List ℕ)
unpack_bytes aes k dest src made = do
  vector ← or_return jubr_error made
  sized ← or_return jubr_error (decrypt aes k.s_enc vector src true)
  dec ← or_return jubr_error (decrypt aes k.s_enc vector src false)
  bytes ← or_fault (slice 0 (dec.1) (dec.0))
  ok (dest ++ bytes)

-- `UnPackData`: the counter steps on before anything is decrypted.
unfoldable pub unpack_data :
    Aes → Option Scp03 → Option Scp11 → (dest src : List ℕ) → Outcome (List ℕ) × Option Scp03
unpack_data aes none k dest src = (fault, none)
unpack_data aes (some s) none dest src = (fault, some s)
unpack_data aes (some s) (some k) dest src =
    let made = icv aes k.s_enc false s in (unpack_bytes aes k dest src (made.0), some (made.1))

-- The header with the secure messaging bit, and a length for the data and the MAC behind it.
unfoldable pub safe_header : Apdu → Apdu
safe_header apdu = record apdu { cla = bit_or apdu.cla 0x04; lc = apdu.lc + 8; le = 0; body = [] }

unfoldable pub command_mac_input : List ℕ → Apdu → List ℕ → List ℕ
command_mac_input chain safe enc =
    chain
    ++ (safe.cla % 2 ^ 8
        ∷ safe.ins % 2 ^ 8
        ∷ safe.p1 % 2 ^ 8
        ∷ safe.p2 % 2 ^ 8
        ∷ safe.lc % 2 ^ 8
        ∷ enc)

-- `PlusCMAC`: the command with its MAC, and the state with the MAC as the new chain.
unfoldable pub plus_cmac : Aes → Option Scp03 → Option Scp11 → Apdu → Outcome (Apdu × Option Scp03)
plus_cmac aes none k apdu = fault
plus_cmac aes (some s) none apdu = fault
plus_cmac aes (some s) (some k) apdu = do
  let safe = safe_header apdu
  outmac ← or_return jubr_error (cmac aes k.s_mac (command_mac_input s.mac_chain safe apdu.body) 16)
  ok (record safe { body = apdu.body ++ take 8 outmac }, some (mac_chaining outmac s))

unfoldable pub response_mac_input : List ℕ → ResponseApdu → List ℕ
response_mac_input chain resp = chain ++ (resp.body ++ (resp.sw1 ∷ resp.sw2 ∷ []))

unfoldable pub check_cmac : Aes → Option Scp03 → Option Scp11 → ResponseApdu → Outcome (Unit {0})
check_cmac aes none none resp = ok tt
check_cmac aes none (some k) resp = fault
check_cmac aes (some s) none resp = fault
check_cmac aes (some s) (some k) resp = do
  outmac ← or_return jubr_error (cmac aes k.s_rmac (response_mac_input s.mac_chain resp) 16)
  check (same_bytes resp.cmac (take cmac_len outmac)) jubr_error

-- `BuildSafeApdu` behind what the destination holds, with the state after it.
unfoldable pub build_safe_apdu :
    Aes → Option Scp03 → Option Scp11 → Apdu → List ℕ → Outcome (List ℕ × Option Scp03)
build_safe_apdu aes s k apdu v_safe_apdu = do
  enc ← pack_data aes s k [] apdu.body
  enc_apdu ← set_apdu apdu.cla apdu.ins apdu.p1 apdu.p2 (length enc) (some enc) 0
  safe ← plus_cmac aes s k enc_apdu
  bytes ← build_apdu (safe.0) v_safe_apdu
  ok (bytes, safe.1)

-- `wRet`, and the bytes written to `retData` with their number, if there is room asked for them.
pub record Parsed : Type 0 where
  pub w_ret : ℕ
  pub ret_data : Option (List ℕ)

-- The end of `ParseSafeApduResp`: `room` is `*pretDataLen`, and `recv` what was received.
unfoldable pub copy_out : ℕ → Option ℕ → (recv dec : List ℕ) → Outcome Parsed
copy_out w none recv dec = ok (record { w_ret = w; ret_data = none })
copy_out w (some room) recv dec =
    if ltb room (length recv)
    then fail jubr_buffer_too_small
    else ok (record { w_ret = w; ret_data = some dec })

-- `IncCounter` where its result is not looked at.
abbrev pub stepped : Option Scp03 → Outcome (Option Scp03) → Option Scp03
stepped s (ok s') = s'
stepped s _ = s

abbrev after_check :
    Outcome (Unit {0})
    → Option Scp03
    → Outcome Parsed × Option Scp03
    → Outcome Parsed × Option Scp03
after_check (ok u) s next = next
after_check (fail e) s next = (fail e, s)
after_check fault s next = (fault, s)
after_check stuck s next = (stuck, s)

unfoldable pub parse_decoded :
    Aes → Option Scp03 → Option Scp11 → Option ℕ → ResponseApdu → Outcome Parsed × Option Scp03
parse_decoded aes s k room resp =
    let w = resp.sw1 * 0x100 + resp.sw2 in
    if not (0x9000 == w)
    then (ok (record { w_ret = w; ret_data = none }), stepped s (inc_counter s))
    else let unpacked = unpack_data aes s k [] resp.body in
      after_check (check_cmac aes s k resp) s
        ((unpacked.0 >>= λ dec. copy_out w room resp.body dec), unpacked.1)

abbrev after_decode :
    Outcome ResponseApdu
    → Option Scp03
    → (ResponseApdu → Outcome Parsed × Option Scp03)
    → Outcome Parsed × Option Scp03
after_decode (ok resp) s next = next resp
after_decode (fail e) s next = (fail jubr_arguments_bad, s)
after_decode fault s next = (fault, s)
after_decode stuck s next = (stuck, s)

-- `ParseSafeApduResp`, and the state after it.
unfoldable pub parse_safe_apdu_resp :
    Aes → Option Scp03 → Option Scp11 → List ℕ → Option ℕ → Outcome Parsed × Option Scp03
parse_safe_apdu_resp aes s k resp_data room =
    after_decode (decode resp_data) s (parse_decoded aes s k room)
