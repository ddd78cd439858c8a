-- ===== src/Product/Contexts.antt =====
-- src/context/BaseContext.cpp: the kind of device that a context reports for its token, with the
-- class hierarchy of include/token/.
use jubiter_sdk_c.Common.{
  ℕ, ◌≡◌, refl, sym, ap, ◌∙◌, Bool, true, false, Option, none, some, List, if◌then◌else◌, All,
  arith,
}
use jubiter_sdk_c.Product.{
  DeviceType, DeviceClass, Build, device_ns_item, vd, blade, bio, lite, bridge, bridge_bld,
  bridge_bio, bridge_lite, swi_impl, hid_bld, hid_bio, ble_base, ble_bld, ble_bio, nfc_device,
  same_typeid, registered,
}
use jubiter_sdk_c.Product.Create.Registry.{find-All}
use jubiter_sdk_c.Product.Types.{class_mode, class_type, defined}
use jubiter_sdk_c.Product.Tokens.{
  Token, Family, trezor_crypto, jubiter_blade, jubiter_bio, jubiter_lite, btc_factory, create_in,
  create_token, create_btc_token, create_eth_token, create_misc_token, eth_factory, misc_factory,
  CoinTypes, choose_family, choose_sim, choose_swi, choose_hid, choose_ble, choose_nfc, or_else,
}

-- `dynamic_pointer_cast` to `TrezorCryptoToken`, and so on, of a token of a family.
-- `JubiterBIOToken` and `JubiterLiteToken` derive from `JubiterBladeToken`, once in every class of the
-- factories but `JubiterBIODOTImpl`, whose casts are not modelled.
unfoldable pub is_trezor : Family → Bool
is_trezor trezor_crypto = true
is_trezor _ = false

unfoldable pub is_blade : Family → Bool
is_blade trezor_crypto = false
is_blade _ = true

unfoldable pub is_bio : Family → Bool
is_bio jubiter_bio = true
is_bio _ = false

unfoldable pub is_lite : Family → Bool
is_lite jubiter_lite = true
is_lite _ = false

-- `BaseContext::GetDeviceClass`.
unfoldable pub get_device_class : Family → DeviceType
unfolding is_trezor is_blade is_bio is_lite
get_device_class f =
    if is_trezor f
    then vd
    else if is_blade f
    then blade
    else if is_bio f
    then bio
    else if is_lite f
    then lite
    else device_ns_item

-- The family of the tokens of a class of devices.
unfoldable pub class_family : DeviceClass → Option Family
class_family bridge_bld = some jubiter_blade
class_family bridge_bio = some jubiter_bio
class_family bridge_lite = some jubiter_lite
class_family swi_impl = some trezor_crypto
class_family hid_bld = some jubiter_blade
class_family hid_bio = some jubiter_bio
class_family ble_bld = some jubiter_blade
class_family ble_bio = some jubiter_bio
class_family nfc_device = some jubiter_lite
class_family _ = none

or_else-none : (d : Bool) (f : Family) → or_else d (some f) none ≡ (if d then some f else none)
unfolding or_else
or_else-none true f = refl
or_else-none false f = refl

choose_family-class :
    (b : Build) (c : DeviceClass)
    → choose_family b c ≡ (if defined b (class_mode c) then class_family c else none)
unfolding choose_family choose_sim choose_swi choose_hid choose_ble choose_nfc same_typeid or_else
    defined class_mode class_family
choose_family-class b bridge = refl
choose_family-class b ble_base = refl
choose_family-class b bridge_bld = or_else-none b.sim_mode jubiter_blade
choose_family-class b bridge_bio = or_else-none b.sim_mode jubiter_bio
choose_family-class b bridge_lite = or_else-none b.sim_mode jubiter_lite
choose_family-class b swi_impl = or_else-none b.swi_mode trezor_crypto
choose_family-class b hid_bld = or_else-none b.hid_mode jubiter_blade
choose_family-class b hid_bio = or_else-none b.hid_mode jubiter_bio
choose_family-class b ble_bld = or_else-none b.ble_mode jubiter_blade
choose_family-class b ble_bio = or_else-none b.ble_mode jubiter_bio
choose_family-class b nfc_device = or_else-none b.nfc_mode jubiter_lite

create_in-if :
    (factory : Family → List (ℕ × Token)) (d : Bool) (o : Option Family) (coin : ℕ)
    → create_in factory (if d then o else none) coin
      ≡ (if d then create_in factory o coin else none)
unfolding create_in
create_in-if factory true o coin = refl
create_in-if factory false o coin = refl

create_token-class :
    (factory : Family → List (ℕ × Token)) (b : Build) (c : DeviceClass) (coin : ℕ)
    → create_token factory b (some c) coin
      ≡ (if defined b (class_mode c) then create_in factory (class_family c) coin else none)
unfolding create_token
create_token-class factory b c coin =
    ap (λ o. create_in factory o coin) (choose_family-class b c)
    ∙ create_in-if factory (defined b (class_mode c)) (class_family c) coin

-- `CreateToken` of the three headers, in every build: the token of the coin in the factory of the
-- object's class if the class's link is compiled in, and none otherwise.
pub create_tokens-class :
    (coins : CoinTypes) (b : Build) (c : DeviceClass) (coin : ℕ)
    → (create_btc_token b (some c) coin
        ≡ (if defined b (class_mode c) then create_in btc_factory (class_family c) coin else none))
      × (create_eth_token coins b (some c) coin ≡ (
          if defined b (class_mode c)
          then create_in (eth_factory coins) (class_family c) coin
          else none))
      × (create_misc_token coins b (some c) coin ≡ (
          if defined b (class_mode c)
          then create_in (misc_factory coins) (class_family c) coin
          else none))
unfolding create_btc_token create_eth_token create_misc_token
create_tokens-class coins b c coin = (
  create_token-class btc_factory b c coin,
  create_token-class (eth_factory coins) b c coin,
  create_token-class (misc_factory coins) b c coin,
)

-- Every token of a factory is of the factory's family.
abbrev OfFamily : Family → ℕ × Token → Type 0
OfFamily f (k, t) = t.family ≡ f

btc_factory-All : (f : Family) → All (OfFamily f) (btc_factory f)
unfolding btc_factory registered
btc_factory-All trezor_crypto = (refl, (refl, (refl, (refl, (refl, (refl, (refl, tt)))))))
btc_factory-All jubiter_blade = (refl, (refl, (refl, (refl, (refl, (refl, tt))))))
btc_factory-All jubiter_bio = (refl, (refl, (refl, (refl, (refl, (refl, tt))))))
btc_factory-All jubiter_lite = (refl, (refl, (refl, (refl, (refl, (refl, (refl, tt)))))))

btc_family :
    (o : Option Family) (coin : ℕ) (t : Token)
    → create_in btc_factory o coin ≡ some t
    → o ≡ some t.family
unfolding create_in
btc_family none coin t e = absurd (grind arith)
btc_family (some f) coin t e =
    ap (λ g. some g) (sym (find-All (OfFamily f) (btc_factory f) coin t (btc_factory-All f) e))

btc_if :
    (d : Bool) (o : Option Family) (coin : ℕ) (t : Token)
    → (if d then create_in btc_factory o coin else none) ≡ some t
    → (d ≡ true) × (o ≡ some t.family)
btc_if true o coin t e = (refl, btc_family o coin t e)
btc_if false o coin t e = absurd (grind arith)

-- A token that the BTC factories create is of the family that drives the object's class, and the
-- class's link is compiled in.
pub create_token-family :
    (b : Build) (c : DeviceClass) (coin : ℕ) (t : Token)
    → create_btc_token b (some c) coin ≡ some t
    → (defined b (class_mode c) ≡ true) × (class_family c ≡ some t.family)
unfolding create_btc_token
create_token-family b c coin t e =
    btc_if (defined b (class_mode c)) (class_family c) coin t
      (sym (create_token-class btc_factory b c coin) ∙ e)

-- What `GetDeviceClass` answers for the tokens of a kind of device.
unfoldable pub reported : DeviceType → DeviceType
reported vd = vd
reported device_ns_item = device_ns_item
reported _ = blade

family_reported :
    (c : DeviceClass) (f : Family)
    → class_family c ≡ some f
    → get_device_class f ≡ reported (class_type c)
unfolding class_family class_type reported get_device_class
family_reported bridge_bld trezor_crypto e = absurd (grind arith)
family_reported bridge_bld jubiter_blade e = refl
family_reported bridge_bld jubiter_bio e = refl
family_reported bridge_bld jubiter_lite e = refl
family_reported bridge_bio trezor_crypto e = absurd (grind arith)
family_reported bridge_bio jubiter_blade e = refl
family_reported bridge_bio jubiter_bio e = refl
family_reported bridge_bio jubiter_lite e = refl
family_reported bridge_lite trezor_crypto e = absurd (grind arith)
family_reported bridge_lite jubiter_blade e = refl
family_reported bridge_lite jubiter_bio e = refl
family_reported bridge_lite jubiter_lite e = refl
family_reported swi_impl trezor_crypto e = refl
family_reported swi_impl jubiter_blade e = absurd (grind arith)
family_reported swi_impl jubiter_bio e = absurd (grind arith)
family_reported swi_impl jubiter_lite e = absurd (grind arith)
family_reported hid_bld trezor_crypto e = absurd (grind arith)
family_reported hid_bld jubiter_blade e = refl
family_reported hid_bld jubiter_bio e = refl
family_reported hid_bld jubiter_lite e = refl
family_reported hid_bio trezor_crypto e = absurd (grind arith)
family_reported hid_bio jubiter_blade e = refl
family_reported hid_bio jubiter_bio e = refl
family_reported hid_bio jubiter_lite e = refl
family_reported ble_bld trezor_crypto e = absurd (grind arith)
family_reported ble_bld jubiter_blade e = refl
family_reported ble_bld jubiter_bio e = refl
family_reported ble_bld jubiter_lite e = refl
family_reported ble_bio trezor_crypto e = absurd (grind arith)
family_reported ble_bio jubiter_blade e = refl
family_reported ble_bio jubiter_bio e = refl
family_reported ble_bio jubiter_lite e = refl
family_reported nfc_device trezor_crypto e = absurd (grind arith)
family_reported nfc_device jubiter_blade e = refl
family_reported nfc_device jubiter_bio e = refl
family_reported nfc_device jubiter_lite e = refl
family_reported bridge f e = absurd (grind arith)
family_reported ble_base f e = absurd (grind arith)

-- A context with a token that the BTC factories create reports a Blade for every device but the
-- virtual one, also where the device is a BIO or a Lite.
pub get_device_class-create_token :
    (b : Build) (c : DeviceClass) (coin : ℕ) (t : Token)
    → create_btc_token b (some c) coin ≡ some t
    → get_device_class t.family ≡ reported (class_type c)
get_device_class-create_token b c coin t e =
    family_reported c t.family (create_token-family b c coin t e).1
