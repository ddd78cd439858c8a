-- ===== src/Common/Effects.antt =====
-- The outcome of a call: its results, an error code, a fault where the code would read or write
-- outside a buffer, or `stuck` where a loop of the model had no fuel left.
use Prim.Native.Nat.{ℕ}
use mathlib.Core.Bool.{Bool, true, false}
use mathlib.Core.Option.{Option, none, some}

pub data Outcome {ℓ} (A : Type ℓ) : Type ℓ where
  ok : A → Outcome A
  fail : ℕ → Outcome A
  fault : Outcome A
  stuck : Outcome A

infixl 5 ◌>>=◌ ◌>>◌
abbrev pub ◌>>=◌ {ℓ κ} : {A : Type ℓ} {B : Type κ} → Outcome A → (A → Outcome B) → Outcome B
ok a >>= f = f a
fail e >>= f = fail e
fault >>= f = fault
stuck >>= f = stuck

abbrev pub ◌>>◌ {ℓ} : {B : Type ℓ} → Outcome (Unit {0}) → Outcome B → Outcome B
m >> k = m >>= λ _. k

-- An early `return e` unless the test holds.
abbrev pub check : Bool → ℕ → Outcome (Unit {0})
check true e = ok tt
check false e = fail e

-- Memory that the code touches whether or not the test holds.
abbrev pub within : Bool → Outcome (Unit {0})
within true = ok tt
within false = fault

abbrev pub or_fault {ℓ} : {A : Type ℓ} → Option A → Outcome A
or_fault none = fault
or_fault (some a) = ok a

-- The next statement, with the state that the last one left.
abbrev pub after : {D A B : Type 0} → Outcome A × D → (A → D → Outcome B × D) → Outcome B × D
after (ok a, d) next = next a d
after (fail e, d) next = (fail e, d)
after (fault, d) next = (fault, d)
after (stuck, d) next = (stuck, d)
