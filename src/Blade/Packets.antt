-- ===== src/Blade/Packets.antt =====
-- The packs that `_TranPack` of src/token/JubiterBladeToken.cpp sends.
use jubiter_sdk_c.Common.{
  ℕ, ◌+◌, ◌*◌, ◌≤◌, ◌<◌, ◌≡◌, ◌≢◌, refl, sym, Bool, false, some, List, [], ◌∷◌, ◌++◌, map, ◌==◌,
  length, drop, length-drop, concat, All, ok, arith,
}
use jubiter_sdk_c.Apdu.Parse.{IsCommand}
use jubiter_sdk_c.Blade.TranPack.{pack_counts, tran_pack}
use jubiter_sdk_c.Blade.Packs.{
  accept, pack_counts_lem, pack_of, IsHeader, send_packs-accept, last_p1-lt, last_of,
  send_left-accept,
}

-- If a device accepts every pack, data that is not empty is sent in whole packs of `once` bytes and a
-- last pack of 1 to `once` bytes, in their order; together they are the data. Only the last pack is
-- marked as final, if that is asked for. The marks are bytes, and `once` fits 16 bits and is not 0.
pub tran_pack-accept :
    (source : List ℕ) (high sig once : ℕ) (final_data : Bool)
    → IsHeader 0x00 0xF8 high sig once
    → length source ≢ 0
    → (chunks : List (List ℕ)) × (last : List ℕ) × All (λ chunk. length chunk ≡ once) chunks
      × (0 < length last)
      × (length last ≤ once)
      × (concat chunks ++ last ≡ source)
      × (tran_pack (some accept) source high sig once final_data false [] ≡ (
        ok tt,
        map (λ chunk. some (pack_of 0x00 0xF8 high sig once chunk)) chunks
            ++ (some (last_of final_data high sig last) ∷ []),
      ))
unfolding tran_pack
tran_pack-accept source high sig once final_data header some_data =
    let (total, left_some, left_fits) =
      pack_counts_lem (length source) once some_data header.some_bytes in
    let count = (pack_counts (length source) once).0 in
    let left = (pack_counts (length source) once).1 in
    let last = drop (count * once) source in
    let last_size : length last ≡ left = omega (arith, total, length-drop (count * once) source) in
    let start : 0 * once ≡ 0 = omega arith in
    let stop : count * once ≡ (0 + count) * once = grind arith in
    let fits : count * once ≤ length (drop (0 * once) source) = rw start (omega (arith, total)) in
    let (chunks, sizes, whole, sent) =
      send_packs-accept 0x00 0xF8 high sig once header count 0 (count * once) source [] stop fits in
    let some_bytes : (length source == 0) ≡ false = ground arith in
    let some_room : (once == 0) ≡ false = ground (arith, header.some_bytes) in
    let fields : IsCommand (last_of final_data high sig last) = record {
      cla_byte = omega arith;
      ins_byte = omega arith;
      p1_byte = last_p1-lt final_data high header.high_byte;
      p2_byte = header.sig_byte;
      lc_size = refl;
      lc_fits = omega (arith, last_size, left_fits, header.once_fits);
      le_fits = omega arith;
    } in
    let packs = map (λ chunk. some (pack_of 0x00 0xF8 high sig once chunk)) chunks in
    let tail =
      send_left-accept final_data high sig once (count * once) left source packs (sym last_size)
        left_some fields in
    (
      chunks,
      last,
      sizes,
      omega (arith, last_size, left_some),
      omega (arith, last_size, left_fits),
      rw start at whole,
      rw (some_bytes, some_room, sent, tail),
    )
