-- ===== src/Product/Create/Registry.antt =====
-- What the product factory's map holds, and what its `Create` makes.
use jubiter_sdk_c.Common.{
  ℕ, ◌^◌, ◌<◌, ◌≡◌, refl, sym, ap, ◌∙◌, Bool, true, false, Option, none, some, List, [], ◌∷◌, ◌==◌,
  if◌then◌else◌, All, Outcome, ok, fault, inl, inr, Bool-cases, arith,
}
use jubiter_sdk_c.Product.{
  CommMode, DeviceType, DeviceClass, Build, commode_ns_item, swi, hid, ble, nfc, sim,
  device_ns_item, vd, blade, bio, lite, bridge, bridge_bld, bridge_bio, bridge_lite, swi_impl,
  hid_bld, hid_bio, ble_base, ble_bld, ble_bio, nfc_device, mode_value, type_value, find,
  register_one, registered_if, same_typeid,
}
use mathlib.Core.List.{foldl}
use jubiter_sdk_c.Product.Devices.{Device}
use jubiter_sdk_c.Product.Factory.{
  enum_product, create, create_found, create_class, construct, recreate, accepted, product_factory,
  get_device_type, sim_products, swi_products, hid_products, ble_products, nfc_products,
}
use jubiter_sdk_c.Product.Types.{class_mode, class_type, defined, get_device_type-class}

module _ {ℓ κ} {F : Type ℓ} (P : ℕ × F → Type κ) where
  register_one-All :
      (m : List (ℕ × F)) (k : ℕ) (f : F) → P (k, f) → All P m → All P (register_one m k f)
  unfolding register_one
  register_one-All [] k f p h = (p, tt)
  register_one-All ((k', f') ∷ m) k f p h = elim (Bool-cases (k' == k)) [
    | inl e ↦ rw e (p, h.1)
    | inr e ↦ rw e (h.0, register_one-All m k f p h.1)
  ]

  pub foldl-All :
      (m fs : List (ℕ × F))
      → All P m
      → All P fs
      → All P (foldl (λ m' kf. register_one m' kf.0 kf.1) m fs)
  foldl-All m [] h g = h
  foldl-All m ((k, f) ∷ fs) h g =
      foldl-All (register_one m k f) fs (register_one-All m k f g.0 h) g.1

  registered_if-All :
      (d : Bool) (m fs : List (ℕ × F))
      → All P m
      → (d ≡ true → All P fs)
      → All P (registered_if d m fs)
  unfolding registered_if
  registered_if-All true m fs h g = foldl-All m fs h (g refl)
  registered_if-All false m fs h g = h

  pub find-All : (m : List (ℕ × F)) (k : ℕ) (f : F) → All P m → find m k ≡ some f → P (k, f)
  unfolding find
  find-All [] k f h e = absurd (grind arith)
  find-All ((k', f') ∷ m) k f h e = elim (Bool-cases (k' == k)) [
    | inl same ↦
        let key : k' ≡ k = ground arith in
        let value : f' ≡ f = cc (rw same at e) in rw (← key, ← value) h.0
    | inr other ↦ find-All m k f h.1 (rw other at e)
  ]

-- The link of an entry's class is compiled in, and its key is made from the class's link and kind.
unfoldable IsOwn : Build → ℕ × DeviceClass → Type 0
IsOwn b (k, c) =
    (defined b (class_mode c) ≡ true) × (k ≡ enum_product (class_mode c) (class_type c))

product_factory-All : (b : Build) → All (IsOwn b) (product_factory b)
unfolding product_factory IsOwn defined class_mode class_type sim_products swi_products hid_products
    ble_products nfc_products
product_factory-All b =
    registered_if-All (IsOwn b) b.nfc_mode _ nfc_products
      (registered_if-All (IsOwn b) b.ble_mode _ ble_products
        (registered_if-All (IsOwn b) b.hid_mode _ hid_products
          (registered_if-All (IsOwn b) b.swi_mode _ swi_products
            (registered_if-All (IsOwn b) b.sim_mode [] sim_products tt
              (λ d. ((d, refl), ((d, refl), ((d, refl), tt)))))
            (λ d. ((d, refl), tt)))
          (λ d. ((d, refl), ((d, refl), tt))))
        (λ d. ((d, refl), ((d, refl), tt))))
      (λ d. ((d, refl), tt))

-- The keys tell links and kinds of device apart.
mode_at : ℕ → CommMode
mode_at n =
    if n == 1
    then swi
    else if n == 2
    then hid
    else if n == 3
    then ble
    else if n == 4
    then nfc
    else if n == 5
    then sim
    else commode_ns_item

type_at : ℕ → DeviceType
type_at n =
    if n == 1
    then vd
    else if n == 2
    then blade
    else if n == 3
    then bio
    else if n == 4
    then lite
    else device_ns_item

mode_at-value : (m : CommMode) → mode_at (mode_value m) ≡ m
unfolding mode_at mode_value
mode_at-value commode_ns_item = refl
mode_at-value swi = refl
mode_at-value hid = refl
mode_at-value ble = refl
mode_at-value nfc = refl
mode_at-value sim = refl

type_at-value : (t : DeviceType) → type_at (type_value t) ≡ t
unfolding type_at type_value
type_at-value device_ns_item = refl
type_at-value vd = refl
type_at-value blade = refl
type_at-value bio = refl
type_at-value lite = refl

type_value-small : (t : DeviceType) → type_value t < 2 ^ 16
unfolding type_value
type_value-small device_ns_item = omega arith
type_value-small vd = omega arith
type_value-small blade = omega arith
type_value-small bio = omega arith
type_value-small lite = omega arith

enum_product_injective :
    (m m' : CommMode) (t t' : DeviceType)
    → enum_product m t ≡ enum_product m' t'
    → (m ≡ m') × (t ≡ t')
unfolding enum_product
enum_product_injective m m' t t' e =
    let small = type_value-small t in
    let small' = type_value-small t' in
    let modes : mode_value m ≡ mode_value m' = omega arith in
    let types : type_value t ≡ type_value t' = omega arith in
    (
      sym (mode_at-value m) ∙ ap mode_at modes ∙ mode_at-value m',
      sym (type_at-value t) ∙ ap type_at types ∙ type_at-value t',
    )

-- The class of what a call made, and `c` if it made nothing.
made_class : DeviceClass → Outcome (Option Device) → DeviceClass
made_class c (ok (some d)) = d.class
made_class c _ = c

made_class-if :
    (c : DeviceClass) (t : Bool) (x y : Outcome (Option Device))
    → made_class c x ≡ c
    → made_class c y ≡ c
    → made_class c (if t then x else y) ≡ c
made_class-if c true x y h g = h
made_class-if c false x y h g = g

made_class-recreate : (c : DeviceClass) (d : Option Device) → made_class c (recreate c d) ≡ c
unfolding recreate made_class
made_class-recreate c none = refl
made_class-recreate c (some d) =
    made_class-if c (same_typeid c d.class)
      (ok (some (record { class = c; ip = d.ip; name = d.name }))) fault refl refl

made_class-construct : (c : DeviceClass) (d : Option Device) → made_class c (construct c d) ≡ c
unfolding construct made_class
made_class-construct bridge d = refl
made_class-construct ble_base d = refl
made_class-construct ble_bld d = refl
made_class-construct ble_bio d = refl
made_class-construct nfc_device d = refl
made_class-construct bridge_bld d = made_class-recreate bridge_bld d
made_class-construct bridge_bio d = made_class-recreate bridge_bio d
made_class-construct bridge_lite d = made_class-recreate bridge_lite d
made_class-construct swi_impl d = made_class-recreate swi_impl d
made_class-construct hid_bld d = made_class-recreate hid_bld d
made_class-construct hid_bio none = refl
made_class-construct hid_bio (some d) = made_class-recreate hid_bio (some d)

made_class-create :
    (c : DeviceClass) (t : DeviceType) (d : Option Device) → made_class c (create_class c t d) ≡ c
unfolding create_class made_class
made_class-create c t d =
    made_class-if c (type_value t == type_value (accepted c)) (construct c d) (ok none)
      (made_class-construct c d) refl

found-class :
    (b : Build) (k : ℕ) (t : DeviceType) (d : Option Device) (d' : Device) (o : Option DeviceClass)
    → find (product_factory b) k ≡ o
    → create_found o t d ≡ ok (some d')
    → IsOwn b (k, d'.class)
unfolding create_found made_class
found-class b k t d d' none e g = absurd (grind arith)
found-class b k t d d' (some c) e g =
    let same : c ≡ d'.class = sym (made_class-create c t d) ∙ ap (made_class c) g in
    rw (← same) (find-All (IsOwn b) (product_factory b) k c (product_factory-All b) e)

-- Whatever object `Create` makes for a link and a kind of device, in any build, `GetDeviceType`
-- finds that link and that kind for it again.
pub create-get_device_type :
    (b : Build) (mode : CommMode) (type : DeviceType) (d : Option Device) (d' : Device)
    → create b (enum_product mode type) type d ≡ ok (some d')
    → get_device_type b (some d'.class) ≡ ok (mode, type)
unfolding create IsOwn
create-get_device_type b mode type d d' e =
    let own = found-class b (enum_product mode type) type d d' _ refl e in
    let same = enum_product_injective mode (class_mode d'.class) type (class_type d'.class) own.1 in
    rw (get_device_type-class b d'.class, own.0, same.0, same.1)
