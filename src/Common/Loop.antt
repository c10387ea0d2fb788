-- ===== src/Common/Loop.antt =====
-- Loops whose body may stop, counted or over a list, and their invariant rules.
use Prim.Native.Nat.{ℕ, zero, suc, ◌+◌, ◌≤◌, ◌<◌}
use mathlib.Core.List.{List, [], ◌∷◌}
use mathlib.Core.Option.{Option, none, some, none-ne-some}
use mathlib.Core.Path.{◌≡◌, refl, subst}
use native.Mathlib.Omega.{arith}
use buffalo.Common.Fallible.{◌>>=◌}

-- `for (k = i; k < i + rounds; k++) s = body k s`
unfoldable pub for {ℓ} : {S : Type ℓ} → ℕ → ℕ → (ℕ → S → Option S) → S → Option S
for zero i body s = some s
for (suc rounds) i body s = body i s >>= for rounds (suc i) body

-- `for (x : xs) s = body x s`
unfoldable pub each {ℓ κ} : {A : Type ℓ} {S : Type κ} → List A → (A → S → Option S) → S → Option S
each [] body s = some s
each (x ∷ xs) body s = body x s >>= each xs body

-- The run ends, in a value that satisfies `P`.
abbrev pub Returns {ℓ κ} : {A : Type ℓ} → (A → Type κ) → Option A → Type (ℓ ⊔ κ)
Returns {A} P r = (a : A) × (r ≡ some a) × P a

pub Returns-bind {ℓ κ} :
    {A B : Type ℓ} {P : A → Type κ} {Q : B → Type κ} {r : Option A} {f : A → Option B}
    → Returns P r
    → ((a : A) → P a → Returns Q (f a))
    → Returns Q (r >>= f)
Returns-bind (a, run, p) next = let (b, run', q) = next a p in (b, rw run run', q)

-- An invariant that each round carries on to the next index holds at the end, and the loop ends.
pub for-Returns {ℓ κ} :
    {S : Type ℓ} (P : ℕ → S → Type κ) (stop : ℕ) (body : ℕ → S → Option S) (rounds i : ℕ) (s : S)
    → i + rounds ≡ stop
    → ((k : ℕ) (t : S) → i ≤ k → k < stop → P k t → Returns (P (suc k)) (body k t))
    → P i s
    → Returns (P stop) (for rounds i body s)
unfolding for
for-Returns P stop body zero i s e keep p = (s, refl, subst (λ k. P k s) (omega arith) p)
for-Returns P stop body (suc rounds) i s e keep p =
    Returns-bind (keep i s (omega arith) (omega arith) p)
      λ t. for-Returns P stop body rounds (suc i) t (omega arith) (λ k u lo. keep k u (omega arith))

-- An invariant that speaks of the elements that are left.
pub each-Returns {ℓ κ μ} :
    {A : Type ℓ} {S : Type κ} (P : List A → S → Type μ) (body : A → S → Option S) (xs : List A)
    (s : S)
    → ((x : A) (rest : List A) (t : S) → P (x ∷ rest) t → Returns (P rest) (body x t))
    → P xs s
    → Returns (P []) (each xs body s)
unfolding each
each-Returns P body [] s keep p = (s, refl, p)
each-Returns P body (x ∷ xs) s keep p =
    Returns-bind (keep x xs s p) λ t q. each-Returns P body xs t keep q

-- What a run that ends in a value went through.
pub bind-some {ℓ κ} :
    {A : Type ℓ} {B : Type κ} (r : Option A) (f : A → Option B) (b : B)
    → r >>= f ≡ some b
    → (a : A) × (r ≡ some a) × (f a ≡ some b)
bind-some none f b e = absurd (none-ne-some b e)
bind-some (some a) f b e = (a, refl, e)
