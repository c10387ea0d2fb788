-- ===== src/Bloom/Remove.antt =====
-- `remove`, and the draws that leave the table.
use buffalo.Bloom.Build.{Holds, in_range}
use buffalo.Bloom.{BloomFilter, mark, clear, insert, remove, contains}
use buffalo.Common.{
  ℕ, zero, suc, ◌^◌, ◌<◌, ◌==◌, lt→ltb, if◌then◌else◌, ◌≡◌, refl, ◌∙◌, ◌⊎◌, inl, inr, List, [], ◌∷◌,
  none, some, arith, length, get_elem?, length-set, Bool-cases, ==_iff, ◌>>=◌,
}
use native.Mathlib.Nat.{zero-add}
use native.Mathlib.Decide.{dec_lt}
use buffalo.EtherAddress.{EtherAddress, seed}
use buffalo.Hashing.Draws.{
  draws, NeverMax, update_loop-draws, hits, contains_loop-draws, get_elem?-cell,
}
use buffalo.Hashing.Iterate.{cell, count, iterate, update_all, cell-update_all, length-update_all}
use buffalo.Hashing.{update_loop, read, write}
use buffalo.Rand.{Rand}

iterate-clear : (n x : ℕ) → iterate clear n x ≡ (if n == 0 then x else 0)
unfolding iterate clear
iterate-clear zero x = refl
iterate-clear (suc n) x = ground (arith, iterate-clear n (if x == 0 then x else 0))

-- One empty cell is enough for `contains` to answer 0.
pub hits-zero : (hs t : List ℕ) (i : ℕ) → 0 < count i hs → cell t i ≡ 0 → hits hs t ≡ 0
unfolding hits count
hits-zero [] t i h e = absurd (omega arith)
hits-zero (x ∷ hs) t i h e = elim (Bool-cases (x == i)) [
  | inl same ↦ rw ((==_iff x i).0 same, e)
  | inr apart ↦ let later = hits-zero hs t i (rw (apart, zero-add) at h) e in ground (arith, later)
]

get_elem?-none : (t : List ℕ) → get_elem? t (length t) ≡ none
get_elem?-none [] = refl
get_elem?-none (x ∷ t) = get_elem?-none t

module _ (R : Rand) where
  open R use {State, srand, rand, rand_max, rand-le, scale, scale-lt, scale_max}

  -- Let `p` and `q` have no draw that is `RAND_MAX`, in a filter of from 1 to 2^53-1 cells. If
  -- they have a cell in common then, whatever was inserted, `contains` answers 0 for `q` after
  -- `remove` of `p`.
  pub contains-remove :
      (k n : ℕ) (p q : EtherAddress) (used : List ℕ) (f : BloomFilter) (i : ℕ)
      → 0 < n
      → n < 2 ^ 53
      → NeverMax R k (srand (seed p))
      → NeverMax R k (srand (seed q))
      → Holds k n used f
      → 0 < count i (draws R k (srand (seed p)) n)
      → 0 < count i (draws R k (srand (seed q)) n)
      → (g : BloomFilter) × (remove R p f ≡ some g) × (contains R q g ≡ some 0)
  unfolding remove contains
  contains-remove k n p q used f i pos small safe_p safe_q h in_p in_q =
      let hs = draws R k (srand (seed p)) n in
      let bound = in_range R k n pos small (seed p) h.table h.length_table safe_p in
      let u = update_all clear hs h.table in
      let width : length u ≡ n = length-update_all clear hs h.table ∙ h.length_table in
      let run = update_loop-draws R clear k (srand (seed p)) n h.table bound in
      let look =
        contains_loop-draws R k (srand (seed q)) n u
          (in_range R k n pos small (seed q) u width safe_q) in
      let emptied : cell u i ≡ 0 =
        cell-update_all clear hs h.table i bound
        ∙ iterate-clear (count i hs) (cell h.table i)
        ∙ ground arith in
      let miss = hits-zero (draws R k (srand (seed q)) n) u i in_q emptied in
      (record f { hash_table = some u }, ground (arith, run), ground (arith, look, miss))

  -- One of the first `k` calls of `rand` returns `RAND_MAX`.
  abbrev pub SomeMax : ℕ → State → Type 0
  SomeMax zero s = ⊥
  SomeMax (suc k) s = ((rand s).0 ≡ rand_max) ⊎ SomeMax k (rand s).1

  update_loop-none :
      (f : ℕ → ℕ) (k : ℕ) (s : State) (n : ℕ) (t : List ℕ)
      → 0 < n
      → n < 2 ^ 53
      → length t ≡ n
      → SomeMax k s
      → update_loop R f k s n (some t) ≡ none
  unfolding update_loop read write
  update_loop-none f zero s n t pos small e m = absurd m
  update_loop-none f (suc k) s n t pos small e m =
      let h = scale (rand s).0 n in
      elim (dec_lt (rand s).0 rand_max) [
        | no top ↦
            let last : (rand s).0 ≡ rand_max = omega (arith, rand-le s) in
            rw (last, scale_max n small, ← e, get_elem?-none t)
        | yes below ↦
            let inside : h < length t = rw e (scale-lt _ n below pos small) in
            let later : SomeMax k (rand s).1 = elim m [
              | inl last ↦ absurd (omega arith)
              | inr rest ↦ rest
            ] in
            rw (get_elem?-cell t h inside, ◌>>=◌, lt→ltb _ _ inside)
              (update_loop-none f k (rand s).1 n _ pos small (length-set t h _ ∙ e) later)
      ]

  -- In a filter of from 1 to 2^53-1 cells, a draw of `RAND_MAX` is scaled to the index
  -- `table_size`, one past the table: `insert` and `remove` then leave the block that they were
  -- given.
  pub insert-remove-none :
      (k n : ℕ) (p : EtherAddress) (used : List ℕ) (f : BloomFilter)
      → 0 < n
      → n < 2 ^ 53
      → SomeMax k (srand (seed p))
      → Holds k n used f
      → (insert R p f ≡ none) × (remove R p f ≡ none)
  unfolding insert remove
  insert-remove-none k n p used f pos small m h =
      let stop =
        λ (g : ℕ → ℕ). update_loop-none g k (srand (seed p)) n h.table pos small h.length_table m in
      let a = stop mark in let b = stop clear in (ground (arith, a), ground (arith, b))
