-- ===== src/Rand.antt =====
-- What the filters take from the C library: `srand`, `rand`, `RAND_MAX`, and the value of
-- `(long unsigned int)(rand() / (double)RAND_MAX * n)` in IEEE double arithmetic.
use buffalo.Common.{ℕ, ◌^◌, ◌≤◌, ◌<◌, ◌≡◌}

pub record Rand : Type 1 where
  -- the hidden state of the generator
  pub State : Type 0
  pub srand : ℕ → State
  pub rand : State → ℕ × State
  pub rand_max : ℕ
  pub rand-le : (s : State) → (rand s).0 ≤ rand_max
  -- `scale r n` is `(long unsigned int)(r / (double)RAND_MAX * n)`
  pub scale : ℕ → ℕ → ℕ
  -- a quotient below 1, times `n`, stays below `n`
  pub scale-lt : (r n : ℕ) → r < rand_max → 0 < n → n < 2 ^ 53 → scale r n < n
  -- the quotient is exactly 1 at `RAND_MAX`, and such an `n` is a double
  pub scale_max : (n : ℕ) → n < 2 ^ 53 → scale rand_max n ≡ n
