-- ===== src/Common/Search.antt =====
-- A property of all small numbers, checked by evaluation.
use Prim.Native.Nat.{ℕ, zero, suc, ◌<◌}
use mathlib.Core.Path.{◌≡◌}
use mathlib.Core.Bool.{Bool, true, false}
use native.Mathlib.Omega.{arith}
use buffalo.Common.Tests.{if◌then◌else◌}

-- Whether the numbers below the bound all pass the test.
unfoldable pub all_below : ℕ → (ℕ → Bool) → Bool
all_below zero test = true
all_below (suc k) test = let rest = all_below k test in if test k then rest else false

pub all_below_sound :
    (bound : ℕ) (test : ℕ → Bool) (i : ℕ) → all_below bound test ≡ true → i < bound → test i ≡ true
unfolding all_below
all_below_sound zero test i pass below = absurd (omega arith)
all_below_sound (suc k) test i pass below = ground (arith, all_below_sound k test i)
