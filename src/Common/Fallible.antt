-- ===== src/Common/Fallible.antt =====
-- `Option` as the monad of code that can stop: `none` is a fault or undefined behaviour.
use mathlib.Core.Option.{Option, none, some}

infixl 5 ◌>>=◌
abbrev pub ◌>>=◌ {ℓ κ} : {A : Type ℓ} {B : Type κ} → Option A → (A → Option B) → Option B
none >>= f = none
some a >>= f = f a
