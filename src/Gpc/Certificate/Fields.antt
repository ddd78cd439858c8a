-- ===== src/Gpc/Certificate/Fields.antt =====
-- The items of a certificate (gpc/src/scp11.cpp), as `tlv_buf` encodes them and `scp11_crt` stores them.
use jubiter_sdk_c.Common.{
  ℕ, ◌+◌, ◌%◌, ◌^◌, ◌≤◌, ◌≡◌, refl, Bool, true, false, some, List, [], ◌∷◌, ◌++◌, leb, ◌==◌, length,
  get_or, Outcome, ok, arith,
}
use mathlib.Core.List.{foldl}
use jubiter_sdk_c.Gpc.TlvBuf.{encode, tag_bytes}
use jubiter_sdk_c.Gpc.TagParse.{gpc_tlv_get_tag}
use jubiter_sdk_c.Gpc.Certificate.{Scp11Crt, Scp11Pk, crt_skip, crt_store, skip_item}

-- The kinds of items that hold no items of their own.
pub data Kind : Type 0 where
  serial_number cakloc_id key_usage disc_53 disc_73 subject_id valid_from valid_to signature
        restrictions :
      Kind

unfoldable pub kind_tag : Kind → ℕ
kind_tag serial_number = 0x93
kind_tag cakloc_id = 0x42
kind_tag key_usage = 0x95
kind_tag disc_53 = 0x53
kind_tag disc_73 = 0x73
kind_tag subject_id = 0x5F20
kind_tag valid_from = 0x5F25
kind_tag valid_to = 0x5F24
kind_tag signature = 0x5F37
kind_tag restrictions = 0xBF20

pub record Field : Type 0 where
  pub kind : Kind
  pub value : List ℕ

unfoldable pub field_bytes : Field → List ℕ
unfolding encode kind_tag
field_bytes f = encode (record { tag = kind_tag f.kind; value = f.value })

-- What an item adds to a certificate.
unfoldable pub put : Kind → List ℕ → Scp11Crt → Scp11Crt
put serial_number v c = record c { serial = record { tag = 0x93; value = v } }
put cakloc_id v c = record c { cakloc_id = record { tag = 0x42; value = v } }
put key_usage v c = record c { key_usage = foldl ◌+◌ 0 v }
put subject_id v c = record c { subject_id = record { tag = 0x5F20; value = v } }
put valid_from v c = record c { valid_from = record { tag = 0x5F25; value = v } }
put valid_to v c = record c { valid_to = record { tag = 0x5F24; value = v } }
put signature v c = record c { sig = record { tag = 0x5F37; value = v } }
put _ v c = c

-- The bytes in front of a value of `n` bytes.
unfoldable pub front : Kind → ℕ → List ℕ
front serial_number n = 0x93 ∷ n ∷ []
front cakloc_id n = 0x42 ∷ n ∷ []
front key_usage n = 0x95 ∷ n ∷ []
front disc_53 n = 0x53 ∷ n ∷ []
front disc_73 n = 0x73 ∷ n ∷ []
front subject_id n = 0x5F ∷ 0x20 ∷ n ∷ []
front valid_from n = 0x5F ∷ 0x25 ∷ n ∷ []
front valid_to n = 0x5F ∷ 0x24 ∷ n ∷ []
front signature n = 0x5F ∷ 0x37 ∷ n ∷ []
front restrictions n = 0xBF ∷ 0x20 ∷ n ∷ []

pub field_bytes-front :
    (k : Kind) (v : List ℕ)
    → field_bytes (record { kind = k; value = v }) ≡ front k (length v % 2 ^ 8) ++ v
unfolding field_bytes encode tag_bytes front kind_tag
field_bytes-front serial_number v = refl
field_bytes-front cakloc_id v = refl
field_bytes-front key_usage v = refl
field_bytes-front disc_53 v = refl
field_bytes-front disc_73 v = refl
field_bytes-front subject_id v = refl
field_bytes-front valid_from v = refl
field_bytes-front valid_to v = refl
field_bytes-front signature v = refl
field_bytes-front restrictions v = refl

pub get_tag-front :
    (k : Kind) (n room len : ℕ) (xs : List ℕ)
    → leb len room ≡ true
    → gpc_tlv_get_tag (front k n ++ xs) room len ≡ ok (kind_tag k, n)
unfolding gpc_tlv_get_tag front kind_tag
get_tag-front serial_number n room len xs h = rw h
get_tag-front cakloc_id n room len xs h = rw h
get_tag-front key_usage n room len xs h = rw h
get_tag-front disc_53 n room len xs h = rw h
get_tag-front disc_73 n room len xs h = rw h
get_tag-front subject_id n room len xs h = rw h
get_tag-front valid_from n room len xs h = rw h
get_tag-front valid_to n room len xs h = rw h
get_tag-front signature n room len xs h = rw h
get_tag-front restrictions n room len xs h = rw h

-- How the code treats an item of a kind: it is no end of the data, its value follows the header, is
-- stored, and is skipped.
unfoldable pub Treated : Kind → ℕ → List ℕ → Type 0
Treated k n v =
    ((xs : List ℕ) → (get_or (front k n ++ xs) 0 0 == 0) ≡ false)
    × (crt_skip (kind_tag k) n ≡ some (length (front k n)))
    × ((skip len : ℕ) → skip_item (kind_tag k) skip len ≡ (skip + len) % 2 ^ 8)
    × ((key : List ℕ → Scp11Pk → Outcome (Bool × Scp11Pk)) (c : Scp11Crt)
        → crt_store key (record { tag = kind_tag k; value = v }) c ≡ ok (true, put k v c))

pub treated : (k : Kind) (n : ℕ) (v : List ℕ) → Treated k n v
unfolding Treated front kind_tag crt_skip crt_store put
treated serial_number n v = (λ xs. refl, refl, λ skip len. refl, λ key c. refl)
treated cakloc_id n v = (λ xs. refl, refl, λ skip len. refl, λ key c. refl)
treated key_usage n v = (λ xs. refl, refl, λ skip len. refl, λ key c. refl)
treated disc_53 n v = (λ xs. refl, refl, λ skip len. refl, λ key c. refl)
treated disc_73 n v = (λ xs. refl, refl, λ skip len. refl, λ key c. refl)
treated subject_id n v = (λ xs. refl, refl, λ skip len. refl, λ key c. refl)
treated valid_from n v = (λ xs. refl, refl, λ skip len. refl, λ key c. refl)
treated valid_to n v = (λ xs. refl, refl, λ skip len. refl, λ key c. refl)
treated signature n v = (λ xs. refl, refl, λ skip len. refl, λ key c. refl)
treated restrictions n v = (λ xs. refl, refl, λ skip len. refl, λ key c. refl)

pub front_size : (k : Kind) (n : ℕ) → 2 ≤ length (front k n)
unfolding front
front_size serial_number n = omega arith
front_size cakloc_id n = omega arith
front_size key_usage n = omega arith
front_size disc_53 n = omega arith
front_size disc_73 n = omega arith
front_size subject_id n = omega arith
front_size valid_from n = omega arith
front_size valid_to n = omega arith
front_size signature n = omega arith
front_size restrictions n = omega arith
