-- ===== src/Prelude/Run.antt =====
-- Chains of steps that may fault. `none` stands for what C leaves undefined: a dereference of
-- NULL or of a freed pointer, an access out of an array, or a loop that its fuel does not cover.
use mathlib.Core.Option.{Option, none, some}

infixl 5 ◌>>=◌ ◌>>◌
abbrev pub ◌>>=◌ {ℓ κ} : {A : Type ℓ} {B : Type κ} → Option A → (A → Option B) → Option B
none >>= f = none
some a >>= f = f a

abbrev pub ◌>>◌ {ℓ κ} : {A : Type ℓ} {B : Type κ} → Option A → Option B → Option B
m >> k = m >>= λ _. k
