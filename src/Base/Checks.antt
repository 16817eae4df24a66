-- ===== src/Base/Checks.antt =====
-- `if(…) continue;` and `if(…) return;` as a chain of checks: `none` leaves the chain.
use mathlib.Core.Path.{◌≡◌, refl}
use mathlib.Core.Bool.{Bool, true, false}
use mathlib.Core.Option.{Option, none, some}

infixl 5 ◌>>=◌ ◌>>◌
abbrev pub ◌>>=◌ {ℓ κ} : {A : Type ℓ} {B : Type κ} → Option A → (A → Option B) → Option B
none >>= f = none
some a >>= f = f a

abbrev pub ◌>>◌ {ℓ} : {B : Type ℓ} → Option (Unit {0}) → Option B → Option B
m >> k = m >>= λ _. k

abbrev pub guard : Bool → Option (Unit {0})
guard true = some tt
guard false = none

-- A check that was passed held.
pub guard-some {ℓ} :
    {A : Type ℓ} (b : Bool) (k : Option A) {a : A}
    → (guard b >> k) ≡ some a
    → (b ≡ true) × (k ≡ some a)
guard-some true k e = (refl, e)
guard-some false k e = cc
