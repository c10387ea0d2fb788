-- ===== src/Common/Dict.antt =====
-- `std::map`: the entries, the newest first, with an equality on keys.
use Prim.Native.Nat.{ℕ, ◌+◌, ◌%◌, ◌^◌}
use mathlib.Core.Path.{◌≡◌, refl}
use mathlib.Core.Logic.{◌↔◌}
use mathlib.Core.Bool.{Bool, true, false}
use mathlib.Core.List.{List, [], ◌∷◌}
use mathlib.Core.Option.{Option, none, some}
use buffalo.Common.Tests.{if◌then◌else◌, ◌==◌, ==_iff}

pub record Key {ℓ} (K : Type ℓ) : Type ℓ where
  pub same : K → K → Bool
  pub same_iff : (a b : K) → (same a b ≡ true) ↔ (a ≡ b)

instance abbrev pub nat_key : Key ℕ
nat_key = record { same = ◌==◌; same_iff = ==_iff }

abbrev pub Dict {ℓ κ} : Type ℓ → Type κ → Type (ℓ ⊔ κ)
Dict K V = List (K × V)

module _ {ℓ κ} {K : Type ℓ} {V : Type κ} ⦃k : Key K⦄ where
  -- `m.find(a)`, with the value of what it finds; `none` is `m.end()`.
  unfoldable pub lookup : Dict K V → K → Option V
  lookup [] a = none
  lookup ((b, v) ∷ rest) a = if k.same b a then some v else lookup rest a

  -- `m[a] = v`
  abbrev pub assign : K → V → Dict K V → Dict K V
  assign a v m = (a, v) ∷ m

-- The `uint32_t` or `int` that an entry holds, and 0 for a new one.
abbrev pub or_zero : Option ℕ → ℕ
or_zero none = 0
or_zero (some v) = v

or_zero-if :
    (c : Bool) (v : ℕ) (o : Option ℕ)
    → or_zero (if c then some v else o) ≡ (if c then v else or_zero o)
or_zero-if true v o = refl
or_zero-if false v o = refl

module _ {ℓ} {K : Type ℓ} ⦃k : Key K⦄ where
  -- `m[a]`, where a key without an entry gets 0.
  unfoldable pub value : Dict K ℕ → K → ℕ
  unfolding lookup
  value m a = or_zero (lookup m a)

  -- `m[a] ++` on an `unsigned int`
  unfoldable pub count_up : K → Dict K ℕ → Dict K ℕ
  unfolding value
  count_up a m = assign a ((value m a + 1) % 2 ^ 32) m

  pub value-assign :
      (a b : K) (v : ℕ) (m : Dict K ℕ)
      → value (assign a v m) b ≡ (if k.same a b then v else value m b)
  unfolding value lookup
  value-assign a b v m = or_zero-if (k.same a b) v (lookup m b)

  pub value-count_up :
      (a b : K) (m : Dict K ℕ)
      → value (count_up a m) b ≡ (if k.same a b then (value m a + 1) % 2 ^ 32 else value m b)
  unfolding count_up
  value-count_up a b m = value-assign a b ((value m a + 1) % 2 ^ 32) m
