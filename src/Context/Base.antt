-- ===== src/Context/Base.antt =====
-- src/context/BaseContext.cpp: what every context does with the token of a device.
use jubiter_sdk_c.Common.{
  ℕ, Bool, false, ◌||◌, none, some, List, if◌then◌else◌, Outcome, fail, after,
}
use jubiter_sdk_c.Status.{jubr_impl_not_support}
use jubiter_sdk_c.Product.Contexts.{is_blade, is_bio}
use jubiter_sdk_c.Context.{BtcContext, BtcToken, as_btc}

-- The casts of `_tokenPtr` to `JubiterBladeToken` and, if that failed, to `JubiterBIOToken`. A card of
-- the Lite family is a `JubiterBladeToken` too.
unfoldable pub is_device : {D : Type 0} → BtcContext D → Bool
is_device c = elim c.family [ none ↦ false | some f ↦ is_blade f || is_bio f ]

unfoldable pub is_fingerprint : {D : Type 0} → BtcContext D → Bool
is_fingerprint c = elim c.family [ none ↦ false | some f ↦ is_bio f ]

module _ {D : Type 0} where
  -- The call of a member of the token once the casts found one; a token of those families of another
  -- coin has these members too, and is not modelled.
  unfoldable pub on_device :
      {A : Type 0} → Bool → (BtcToken D → D → Outcome A × D) → BtcContext D → D → Outcome A × D
  unfolding as_btc
  on_device found call c d =
      if found then after (as_btc c.token, d) call else (fail jubr_impl_not_support, d)

  unfoldable pub show_virtual_pwd : BtcContext D → D → Outcome (Unit {0}) × D
  unfolding on_device is_device
  show_virtual_pwd c d = on_device (is_device c) (λ t. t.show_virtual_pwd) c d

  unfoldable pub cancel_virtual_pwd : BtcContext D → D → Outcome (Unit {0}) × D
  unfolding on_device is_device
  cancel_virtual_pwd c d = on_device (is_device c) (λ t. t.cancel_virtual_pwd) c d

  -- The result is the number of tries that are left.
  unfoldable pub verify_pin : List ℕ → BtcContext D → D → Outcome ℕ × D
  unfolding on_device is_device
  verify_pin pin_mix c d = on_device (is_device c) (λ t. t.verify_pin pin_mix) c d

  unfoldable pub verify_fingerprint : BtcContext D → D → Outcome ℕ × D
  unfolding on_device is_fingerprint
  verify_fingerprint c d = on_device (is_fingerprint c) (λ t. t.verify_fingerprint) c d

  -- `SetTimeout`: the context keeps the timeout whether or not the token takes it.
  unfoldable pub set_timeout : ℕ → BtcContext D → D → Outcome (Unit {0}) × (BtcContext D × D)
  unfolding on_device is_device
  set_timeout timeout c d =
      let c' = record c { timeout = timeout } in
      let (result, d') = on_device (is_device c') (λ t. t.set_timeout timeout) c' d in
      (result, (c', d'))
