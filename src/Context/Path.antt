-- ===== src/Context/Path.antt =====
-- src/context/BaseContext.cpp: the text of a derivation path.
use jubiter_sdk_c.Common.{ℕ, zero, suc, ◌+◌, ◌/◌, ◌%◌, List, [], ◌∷◌, ◌++◌, ltb, if◌then◌else◌}

-- `BIP44_Path`; `change` is its Boolean as a number.
pub record Bip44Path : Type 0 where
  pub change : ℕ
  pub address_index : ℕ

-- `BIP48_Path`.
pub record Bip48Path : Type 0 where
  pub network : ℕ
  pub role : ℕ
  pub account_index : ℕ
  pub key_index : ℕ

-- The decimal digits of `std::to_string`, as characters; a number has no more digits than its size
-- and one.
unfoldable pub digits : ℕ → ℕ → List ℕ
digits zero n = []
digits (suc fuel) n =
    let front = digits fuel (n / 10) in
    if ltb n 10 then (0x30 + n) ∷ [] else front ++ (0x30 + n % 10) ∷ []

unfoldable pub to_string : ℕ → List ℕ
unfolding digits
to_string n = digits (suc n) n

abbrev pub slash : ℕ
slash = 0x2F

abbrev pub quote_mark : ℕ
quote_mark = 0x27

-- `_FullBip44Path`.
unfoldable pub full_bip44_path : List ℕ → Bip44Path → List ℕ
unfolding to_string
full_bip44_path main_path path =
    main_path ++ slash ∷ (to_string path.change ++ slash ∷ to_string path.address_index)

-- `_FullBip48Path`.
unfoldable pub full_bip48_path : List ℕ → Bip48Path → List ℕ
unfolding to_string
full_bip48_path main_path path =
    main_path
    ++ slash
      ∷ (to_string path.network
          ++ quote_mark
            ∷ slash
            ∷ (to_string path.role
                ++ quote_mark
                  ∷ slash
                  ∷ (to_string path.account_index
                      ++ quote_mark ∷ slash ∷ (to_string path.key_index ++ quote_mark ∷ []))))
