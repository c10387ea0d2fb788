-- ===== src/Hashing.antt =====
-- The loops that every method of BloomFilter.h and CountingBloomFilter.h runs: after `srand`, one
-- call of `rand` a round, scaled to an index of `hash_table`.
-- `hash_table` is a pointer: `none` is NULL. A read or a write through NULL or out of bounds is
-- undefined in C++ and stops the model with `none`.
pub mod Iterate
pub mod Draws
pub mod Marks
use buffalo.Common.{
  ℕ, zero, suc, ◌<◌, ◌==◌, if◌then◌else◌, List, Option, none, some, get_elem?, set, length, ltb,
  ◌>>=◌,
}
use buffalo.Rand.{Rand}

-- `unsigned char *`
abbrev pub Pointer : Type 0
Pointer = Option (List ℕ)

-- `p[i]`
unfoldable pub read : Pointer → ℕ → Option ℕ
read none i = none
read (some t) i = get_elem? t i

-- `p[i] = v`
unfoldable pub write : Pointer → ℕ → ℕ → Option Pointer
write none i v = none
write (some t) i v = if ltb i (length t) then some (some (set t i v)) else none

module _ (R : Rand) where
  open R use {State, rand, scale}

  -- `for (i = 0; i < k; i++) { hash = ...; hash_table[hash] = f(hash_table[hash]); }`
  unfoldable pub update_loop : (ℕ → ℕ) → ℕ → State → ℕ → Pointer → Option Pointer
  update_loop f zero s n p = some p
  update_loop f (suc k) s n p = do
    let hash = scale (rand s).0 n
    c ← read p hash
    q ← write p hash (f c)
    update_loop f k (rand s).1 n q

  -- `for (i = 0; i < k; i++) { hash = ...; if (hash_table[hash] == 0) return 0; } return 1;`
  unfoldable pub contains_loop : ℕ → State → ℕ → Pointer → Option ℕ
  contains_loop zero s n p = some 1
  contains_loop (suc k) s n p = do
    let hash = scale (rand s).0 n
    c ← read p hash
    let rest = contains_loop k (rand s).1 n p
    if c == 0 then some 0 else rest
