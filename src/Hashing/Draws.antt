-- ===== src/Hashing/Draws.antt =====
-- The indices that a seed gives, and the loops of `Hashing` as passes over them.
use buffalo.Common.{
  ℕ, zero, suc, ◌^◌, ◌<◌, ◌==◌, if◌then◌else◌, ◌≡◌, refl, List, [], ◌∷◌, some, arith, get_elem?,
  length, length-set, lt→ltb, ◌>>=◌,
}
use buffalo.Rand.{Rand}
use buffalo.Hashing.{update_loop, contains_loop, read, write}
use buffalo.Hashing.Iterate.{cell, All, All-lt-length, update_all}

-- `contains` over a list of indices: 0 at the first empty cell.
unfoldable pub hits : List ℕ → List ℕ → ℕ
hits [] t = 1
hits (h ∷ hs) t = if cell t h == 0 then 0 else hits hs t

pub get_elem?-cell : (t : List ℕ) (i : ℕ) → i < length t → get_elem? t i ≡ some (cell t i)
get_elem?-cell [] i h = elim h [ ]
get_elem?-cell (x ∷ t) zero h = refl
get_elem?-cell (x ∷ t) (suc i) h = get_elem?-cell t i (omega arith)

module _ (R : Rand) where
  open R use {State, rand, rand_max, scale, scale-lt}

  -- The first `k` indices into a table of `n` cells.
  unfoldable pub draws : ℕ → State → ℕ → List ℕ
  draws zero s n = []
  draws (suc k) s n = scale (rand s).0 n ∷ draws k (rand s).1 n

  -- None of the first `k` calls of `rand` returns `RAND_MAX`.
  abbrev pub NeverMax : ℕ → State → Type 0
  NeverMax zero s = Unit
  NeverMax (suc k) s = ((rand s).0 < rand_max) × NeverMax k (rand s).1

  pub draws-lt :
      (k : ℕ) (s : State) (n : ℕ)
      → 0 < n
      → n < 2 ^ 53
      → NeverMax k s
      → All (λ h. h < n) (draws k s n)
  unfolding draws
  draws-lt zero s n pos small b = tt
  draws-lt (suc k) s n pos small b =
      (scale-lt _ n b.0 pos small, draws-lt k (rand s).1 n pos small b.1)

  -- With every index in range the loop ends, and is the pass over the list.
  pub update_loop-draws :
      (f : ℕ → ℕ) (k : ℕ) (s : State) (n : ℕ) (t : List ℕ)
      → All (λ h. h < length t) (draws k s n)
      → update_loop R f k s n (some t) ≡ some (some (update_all f (draws k s n) t))
  unfolding draws update_loop update_all read write
  update_loop-draws f zero s n t b = refl
  update_loop-draws f (suc k) s n t b =
      let h = scale (rand s).0 n in
      rw (get_elem?-cell t h b.0, ◌>>=◌, lt→ltb _ _ b.0)
        (update_loop-draws f k (rand s).1 n _ (All-lt-length _ t _ (length-set t h _) b.1))

  pub contains_loop-draws :
      (k : ℕ) (s : State) (n : ℕ) (t : List ℕ)
      → All (λ h. h < length t) (draws k s n)
      → contains_loop R k s n (some t) ≡ some (hits (draws k s n) t)
  unfolding draws contains_loop hits read
  contains_loop-draws zero s n t b = refl
  contains_loop-draws (suc k) s n t b =
      let h = scale (rand s).0 n in
      rw (get_elem?-cell t h b.0, ◌>>=◌, contains_loop-draws k (rand s).1 n t b.1) (ground arith)
