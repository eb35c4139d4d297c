-- ===== src/Prelude/Options.antt =====
-- Chains of optional results, for do blocks.
use mathlib.Core.Option.{Option, none, some}
use mathlib.Core.Bool.{Bool, true, false}

module _ {ℓ κ} {A : Type ℓ} {B : Type κ} where
  infixl 5 ◌>>=◌
  abbrev pub ◌>>=◌ : Option A → (A → Option B) → Option B
  none >>= f = none
  some a >>= f = f a

  infixl 5 ◌>>◌
  abbrev pub ◌>>◌ : Option A → Option B → Option B
  m >> n = m >>= λ _. n

-- Goes on where the condition does not hold.
abbrev pub stop_if : Bool → Option (Unit {0})
stop_if true = none
stop_if false = some tt

abbrev pub is_some {ℓ} : {A : Type ℓ} → Option A → Bool
is_some none = false
is_some (some a) = true
