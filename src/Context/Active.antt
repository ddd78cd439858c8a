-- ===== src/Context/Active.antt =====
-- include/context/BaseContext.h: `AutoContextManager`, which is to make a context active before it is
-- used. The objects are in a store, and the manager holds their addresses.
use jubiter_sdk_c.Common.{
  ℕ, ◌≡◌, refl, ap, ◌∙◌, Bool, true, false, Option, none, some, ◌==◌, ==_self, if◌then◌else◌,
  Outcome, ok, fail, fault, stuck,
}
use jubiter_sdk_c.Manager.{XManager, find, remember, get_one, clear_last}
use jubiter_sdk_c.Product.Contexts.{is_lite}
use jubiter_sdk_c.Context.{BtcContext}
use jubiter_sdk_c.Context.Btc.{active_self}

-- What stands at an address: a context of the BTC series, or another one.
pub data Object (D : Type 0) : Type 0 where
  btc_context : BtcContext D → Object D
  other_context : Object D

-- The manager, the store, and the state of the devices.
pub record Sdk (D : Type 0) : Type 0 where
  pub manager : XManager ℕ
  pub heap : ℕ → Object D
  pub device : D

unfoldable pub is_at : Option ℕ → ℕ → Bool
is_at none p = false
is_at (some q) p = q == p

unfoldable pub is_lite_token : {D : Type 0} → BtcContext D → Bool
is_lite_token c = elim c.family [ none ↦ false | some f ↦ is_lite f ]

module _ {D : Type 0} where
  -- `ActiveSelf` of the context, with the call of `ClearLast` that ends it for a card of the Lite
  -- family.
  unfoldable pub activate : BtcContext D → Sdk D → Outcome (Unit {0}) × Sdk D
  unfolding active_self is_lite_token
  activate c s =
      let (result, d) = active_self c s.device in
      let s' = record s { device = d } in
      elim result [
        | ok _ ↦
            (ok tt, if is_lite_token c then record s' { manager = clear_last s'.manager } else s')
        | fail e ↦ (fail e, s')
        | fault ↦ (fault, s')
        | stuck ↦ (stuck, s')
      ]

  abbrev pub remember_last : ℕ → Sdk D → Sdk D
  remember_last p s = let m = s.manager in record s { manager = record m { last = some p } }

  -- `GetOneSafe<BTCContext>` once `GetOne` gave the address.
  unfoldable pub safe_at : ℕ → Object D → Sdk D → Option (ℕ × BtcContext D) × Sdk D
  unfolding activate is_at
  safe_at p other_context s = (none, s)
  safe_at p (btc_context c) s =
      (some (p, c), if is_at s.manager.last p then s else remember_last p (activate c s).1)

  unfoldable pub safe_found : Option ℕ → Sdk D → Option (ℕ × BtcContext D) × Sdk D
  unfolding safe_at
  safe_found none s = (none, s)
  safe_found (some p) s = safe_at p (s.heap p) s

  unfoldable pub get_one_safe : Sdk D → ℕ → Option (ℕ × BtcContext D) × Sdk D
  unfolding safe_found
  get_one_safe s id =
      let (found, m) = get_one s.manager id in safe_found found (record s { manager = m })

same_address : (p : ℕ) → is_at (some p) p ≡ true
unfolding is_at
same_address p = ==_self p

module _ {D : Type 0} where
  safe_at-idle :
      (p : ℕ) (o : Object D) (s : Sdk D) → s.manager.last ≡ some p → (safe_at p o s).1 ≡ s
  unfolding safe_at
  safe_at-idle p other_context s e = refl
  safe_at-idle p (btc_context c) s e =
      ap (λ (l : Option ℕ). if is_at l p then s else remember_last p (activate c s).1) e
      ∙ ap (λ (b : Bool). if b then s else remember_last p (activate c s).1) (same_address p)

  remembered-idle :
      (o : Option ℕ) (s : Sdk D)
      → let (found, m) = remember s.manager o in
        (safe_found found (record s { manager = m })).1 ≡ record s { manager = m }
  unfolding safe_found remember
  remembered-idle none s = refl
  remembered-idle (some p) s =
      let m : XManager ℕ = s.manager in
      let n : XManager ℕ = record m { last = some p } in
      safe_at-idle p (s.heap p) (record s { manager = n }) refl

  -- For every state and handle, `GetOneSafe` leaves the devices and the contexts as they are, and the
  -- manager as `GetOne` leaves it: no context is made active, whichever was used before.
  pub get_one_safe-get_one :
      (s : Sdk D) (id : ℕ) → (get_one_safe s id).1 ≡ record s { manager = (get_one s.manager id).1 }
  unfolding get_one_safe get_one
  get_one_safe-get_one s id = remembered-idle (find s.manager.map_list id) s
