-- ===== src/Blade/Tests.antt =====
-- The commands of src/token/JubiterBladeToken.cpp on concrete devices.
use jubiter_sdk_c.Common.{
  ℕ, ◌<◌, ◌≤◌, ◌≡◌, refl, true, false, some, List, [], ◌∷◌, ◌++◌, map, concat, All, length, ok,
  fault, arith,
}
use jubiter_sdk_c.Blade.Send.{no_length, received, last_word}
use jubiter_sdk_c.Blade.TranPack.{tran_pack}
use jubiter_sdk_c.Blade.Packs.{accept, pack_of, last_of}
use jubiter_sdk_c.Blade.Packets.{tran_pack-accept}

abbrev two_left : ℕ
two_left = 0x63C2

abbrev five : List ℕ
five = 1 ∷ 2 ∷ 3 ∷ 4 ∷ 5 ∷ []

tran_pack-accept_example :
    (chunks : List (List ℕ)) × (last : List ℕ) × All (λ chunk. length chunk ≡ 2) chunks
    × (0 < length last)
    × (length last ≤ 2)
    × (concat chunks ++ last ≡ five)
    × (tran_pack (some accept) five 0x40 1 2 true false [] ≡ (
      ok tt,
      map (λ chunk. some (pack_of 0x00 0xF8 0x40 1 2 chunk)) chunks
          ++ (some (last_of true 0x40 1 last) ∷ []),
    ))
tran_pack-accept_example =
    tran_pack-accept five 0x40 1 2 true
      (record {
        cla_byte = omega arith;
        ins_byte = omega arith;
        high_byte = omega arith;
        sig_byte = omega arith;
        some_bytes = omega arith;
        once_fits = omega arith;
      })
      (λ e. omega (arith, e))

-- A response that is too short: the status is read before the buffer.
short_response : received no_length (0x90 ∷ []) ≡ fault
unfolding received last_word
short_response = refl
