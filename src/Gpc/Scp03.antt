-- ===== src/Gpc/Scp03.antt =====
-- gpc/src/scp03.cpp and gpc/include/scp03/scp03.hpp: padding, chaining vectors, encryption and MACs
-- of the secure channel. AES and AES-CMAC belong to TrezorCrypto, and are a parameter.
mod Cipher
pub mod Padding
pub mod Encryption
pub use Cipher.*
use jubiter_sdk_c.Common.{
  ℕ, zero, suc, ◌+◌, ◌-◌, ◌%◌, ◌^◌, Bool, true, false, not, Option, none, some, List, [], ◌∷◌, ◌++◌,
  ltb, leb, ◌==◌, if◌then◌else◌, length, get_elem?, take, replicate, slice, Outcome, ok, fail,
  fault, stuck, ◌>>=◌, ◌>>◌, check, within, or_fault,
}

-- A method that returns false.
abbrev pub returned_false : ℕ
returned_false = 0

abbrev pub or_false {ℓ} : {A : Type ℓ} → Option A → Outcome A
or_false none = fail returned_false
or_false (some a) = ok a

-- `counter` is a static member; the sign bit of its type is never reached.
pub record Scp03 : Type 0 where
  pub counter : ℕ
  pub mac_chain : List ℕ

abbrev pub aes_block_size : ℕ
aes_block_size = 16

unfoldable pub inc_counter : Scp03 → Scp03
inc_counter s = record s { counter = s.counter + 1 }

unfoldable pub mac_chaining : List ℕ → Scp03 → Scp03
mac_chaining chain s = record s { mac_chain = chain }

-- `for (totalLength++; (totalLength % blocksize) != 0; totalLength++)`.
unfoldable pub pad_total : ℕ → ℕ → ℕ → Outcome ℕ
pad_total zero blocksize total = stuck
pad_total (suc fuel) blocksize total =
    let rest = pad_total fuel blocksize (total + 1) in
    if total % blocksize == 0 then ok total else rest

-- The padded text, nothing where `pad` is a null pointer, and the value of `*ppadlength`.
unfoldable pub pad80 : List ℕ → ℕ → ℕ → ℕ → Bool → Outcome (List ℕ × ℕ)
pad80 text offset size blocksize is_null = do
  within (not (blocksize == 0))
  total ← pad_total blocksize blocksize (size + 1)
  if is_null then ok ([], total) else (do
    check (not (ltb total (total - size))) returned_false
    body ← or_fault (slice offset (offset + size) text)
    ok (body ++ (0x80 ∷ replicate (total - size - 1) 0), total))

-- `while (offset > 0 && pad[offset] == 0)`.
unfoldable pub unpad_offset : List ℕ → ℕ → Outcome ℕ
unpad_offset pad zero = ok 0
unpad_offset pad (suc offset) =
    let rest = unpad_offset pad offset in
    or_fault (get_elem? pad (suc offset)) >>= λ byte. if byte == 0 then rest else ok (suc offset)

-- With no bytes the offset is -1, where `pad[offset]` is outside the buffer.
unfoldable pub unpad80 : List ℕ → ℕ → Bool → Outcome (List ℕ × ℕ)
unpad80 pad padlength is_null = do
  within (not (padlength == 0))
  offset ← unpad_offset pad (padlength - 1)
  mark ← or_fault (get_elem? pad offset)
  check (mark == 0x80) returned_false
  if is_null then ok ([], offset) else (do body ← or_fault (slice 0 offset pad); ok (body, offset))

-- The reversed block: the low byte of the counter stands last.
unfoldable pub counter_block : ℕ → ℕ → List ℕ
counter_block first counter = first ∷ (replicate 14 0 ++ (counter % 2 ^ 8 ∷ []))

unfoldable pub icv : Aes → List ℕ → Bool → Scp03 → Outcome (List ℕ) × Scp03
icv aes key for_wrap s =
    if not (aes.key_ok key)
    then (fail returned_false, s)
    else if for_wrap
    then (or_false (aes.cbc_encrypt key (replicate 16 0) (counter_block 0x00 s.counter)), s)
    else (
      or_false (aes.cbc_encrypt key (replicate 16 0) (counter_block 0x80 (inc_counter s).counter)),
      inc_counter s,
    )

-- `room` is `*pencLen`, for a destination that is no null pointer; the code leaves it as it is.
unfoldable pub encrypt : Aes → List ℕ → List ℕ → List ℕ → Option ℕ → Outcome (List ℕ × ℕ)
encrypt aes key vector cmd none =
    pad80 cmd 0 (length cmd) aes_block_size true >>= λ padded. ok ([], padded.1)
encrypt aes key vector cmd (some room) = do
  sized ← pad80 cmd 0 (length cmd) aes_block_size true
  check (not (ltb room (sized.1))) returned_false
  check (aes.key_ok key) returned_false
  padded ← pad80 cmd 0 (length cmd) aes_block_size false
  enc ← or_false (aes.cbc_encrypt key vector (padded.0))
  ok (enc, room)

unfoldable pub decrypt : Aes → List ℕ → List ℕ → List ℕ → Bool → Outcome (List ℕ × ℕ)
decrypt aes key vector enc true = ok ([], length enc)
decrypt aes key vector enc false = do
  check (aes.key_ok key) returned_false
  padding ← or_false (aes.cbc_decrypt key vector enc)
  unpad80 padding (length enc) false

-- AES_CMAC reads 16 bytes of the key; the code asks for `room` bytes of the result.
unfoldable pub cmac : Aes → List ℕ → List ℕ → ℕ → Outcome (List ℕ)
cmac aes key message room = do
  within (leb 16 (length key))
  ok (if leb room (length key) then take room (aes.mac key message) else replicate room 0)
