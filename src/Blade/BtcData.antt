-- ===== src/Blade/BtcData.antt =====
-- What the commands of src/token/BTC/JubiterBladeBTCImpl.cpp are made of.
use jubiter_sdk_c.Common.{
  ℕ, ◌+◌, ◌*◌, ◌%◌, ◌^◌, Bool, not, ◌&&◌, ◌||◌, List, [], ◌∷◌, ◌++◌, map, concat, ltb, ◌==◌,
  if◌then◌else◌, length, Outcome, ok, fail, fault, ◌>>=◌,
}
use jubiter_sdk_c.Status.{jubr_arguments_bad, jubr_impl_not_support}
use jubiter_sdk_c.Context.{TransType, p2pkh, p2sh_p2wpkh, p2wpkh, p2sh_multisig, p2wsh_multisig}

-- `stVersionExp` of include/token/interface/BaseToken.h.
pub record Version : Type 0 where
  pub major : ℕ
  pub minor : ℕ
  pub patch : ℕ

-- `operator<`.
unfoldable pub older : Version → Version → Bool
older a b =
    ltb a.major b.major
    || (a.major == b.major && (ltb a.minor b.minor || (a.minor == b.minor && ltb a.patch b.patch)))

-- `FromHex`, of the four bytes that the text spells.
unfoldable pub from_hex : (b0 b1 b2 b3 : ℕ) → Version
from_hex b0 b1 b2 b3 = record {
  major = b0;
  minor = b1;
  patch = (if b0 == 1 then b2 * 10 + b3 else b2 * 256 + b3) % 2 ^ 16;
}

-- `_isSupportLegacyAddress`.
unfoldable pub is_support_legacy_address : Version → Bool
unfolding older from_hex
is_support_legacy_address v = not (older v (from_hex 0x01 0x09 0x02 0x05))

-- `_HighMark`, and what it is set for.
unfoldable pub high_mark : ℕ → ℕ
high_mark addr_fmt = addr_fmt % 2 ^ 4 * 2 ^ 4

unfoldable pub format_mark : Version → ℕ → ℕ
unfolding is_support_legacy_address high_mark
format_mark v addr_fmt = if is_support_legacy_address v then high_mark addr_fmt else 0x00

-- The kind of signature of a type of transaction.
unfoldable pub sig_type : TransType → Outcome ℕ
sig_type p2pkh = ok 0x00
sig_type p2sh_p2wpkh = ok 0x04
sig_type p2wpkh = ok 0x02
sig_type _ = fail jubr_impl_not_support

-- The format of an extended key.
unfoldable pub node_format : TransType → Outcome ℕ
node_format p2sh_multisig = ok 0x00
node_format p2wsh_multisig = ok 0x00
node_format p2pkh = ok 0x00
node_format p2sh_p2wpkh = ok 0x01
node_format p2wpkh = ok 0x02
node_format _ = fail jubr_arguments_bad

abbrev pub send_once_len : ℕ
send_once_len = 230

abbrev pub read_once_len : ℕ
read_once_len = 256

-- Paths, each behind its length in a byte.
unfoldable pub path_lv : List (List ℕ) → List ℕ
path_lv paths = concat (map (λ (p : List ℕ). length p % 2 ^ 8 ∷ p) paths)

-- The changes: an index, of which the low byte is sent, and a path.
unfoldable pub change_items : List ℕ → List (List ℕ) → Outcome (List ℕ)
change_items [] paths = ok []
change_items (i ∷ indices) [] = fault
change_items (i ∷ indices) (p ∷ paths) =
    change_items indices paths >>= λ rest. ok (i % 2 ^ 8 ∷ length p % 2 ^ 8 ∷ (p ++ rest))

unfoldable pub change_lv : List ℕ → List (List ℕ) → Outcome (List ℕ)
unfolding change_items
change_lv indices paths =
    change_items indices paths >>= λ items. ok (length indices % 2 ^ 8 ∷ items)
