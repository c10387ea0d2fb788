-- ===== src/Tests/Machine.antt =====
-- A generator and an allocator that satisfy what the models ask of the C library.
use native.Mathlib.Nat.{mul-le-mul_right}
use buffalo.Bloom.Build.{Allocates}
use buffalo.Common.{
  ℕ, zero, suc, ◌*◌, ◌/◌, ◌%◌, ◌<◌, ◌≡◌, refl, some, arith, replicate, length-replicate, Bool, true,
  ltb, ◌&&◌,
}
use buffalo.Hashing.{Pointer}
use buffalo.Hashing.Draws.{NeverMax}
use buffalo.Rand.{Rand}

pub scaled-lt : (r n : ℕ) → r < 9 → 0 < n → r * n / 9 < n
scaled-lt r n below pos = omega (arith, mul-le-mul_right {m = r} {n = 8} n (omega arith))

-- The calls of `rand` return the decimal digits of the seed, the last first, and 9 is `RAND_MAX`.
abbrev pub digits : Rand
digits = record {
  State = ℕ;
  srand = λ s. s;
  rand = λ s. (s % 10, s / 10);
  rand_max = 9;
  rand-le = λ s. omega arith;
  scale = λ r n. r * n / 9;
  scale-lt = λ r n below pos small. scaled-lt r n below pos;
  scale_max = λ n small. omega arith;
}

-- A block of the size that is asked for, filled with 7.
abbrev pub malloc : ℕ → Pointer
malloc n = some (replicate n 7)

pub malloc-Allocates : Allocates malloc
malloc-Allocates n = (replicate n 7, refl, length-replicate n 7)

-- No 9 among the last `k` digits.
abbrev pub no_nine : ℕ → ℕ → Bool
no_nine zero s = true
no_nine (suc k) s = ltb (s % 10) 9 && no_nine k (s / 10)

pub safe : (k s : ℕ) → no_nine k s ≡ true → NeverMax digits k s
safe zero s e = tt
safe (suc k) s e = (ground arith, safe k (s / 10) (ground arith))
