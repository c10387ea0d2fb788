-- ===== src/Bloom/Membership.antt =====
-- A filter that is built by `bloom_filter_init` and then filled.
use buffalo.Bloom.Build.{Allocates, Holds, init-Holds, insert_seed-Holds, contains_seed-covered}
use buffalo.Bloom.{BloomFilter, bloom_filter_init, insert_seed, contains_seed}
use buffalo.Common.{
  Elem, ℕ, ◌^◌, ◌<◌, ◌≡◌, refl, inl, inr, List, [], ◌∷◌, ◌++◌, Option, some, arith, max, ◌>>=◌,
}
use buffalo.Hashing.Draws.{draws, NeverMax}
use buffalo.Hashing.Iterate.{count}
use buffalo.Hashing.Marks.{covered, covered_of_count, count-append}
use buffalo.Hashing.{Pointer}
use buffalo.Rand.{Rand}

module _ (R : Rand) where
  open R use {srand}

  -- No draw for any of the seeds is `RAND_MAX`.
  abbrev pub AllSafe : ℕ → List ℕ → Type 0
  AllSafe k [] = Unit
  AllSafe k (s ∷ ss) = NeverMax R k (srand s) × AllSafe k ss

  -- `insert` of each seed in turn.
  unfoldable pub insert_all : List ℕ → BloomFilter → Option BloomFilter
  insert_all [] f = some f
  insert_all (s ∷ ss) f = insert_seed R s f >>= insert_all ss

  -- The indices of all the seeds, the last first, before those of `used`.
  unfoldable pub all_indices : ℕ → ℕ → List ℕ → List ℕ → List ℕ
  all_indices k n [] used = used
  all_indices k n (s ∷ ss) used = all_indices k n ss (draws R k (srand s) n ++ used)

  all_indices_mono :
      (k n i : ℕ) (ss used : List ℕ) → 0 < count i used → 0 < count i (all_indices k n ss used)
  unfolding all_indices
  all_indices_mono k n i [] used h = h
  all_indices_mono k n i (s ∷ ss) used h =
      all_indices_mono k n i ss _ (omega (arith, count-append i (draws R k (srand s) n) used))

  all_indices-member :
      (k n i s : ℕ) (ss used : List ℕ)
      → Elem s ss
      → 0 < count i (draws R k (srand s) n)
      → 0 < count i (all_indices k n ss used)
  unfolding all_indices
  all_indices-member k n i s [] used m h = absurd m
  all_indices-member k n i s (x ∷ ss) used (inl e) h =
      all_indices_mono k n i ss _
        (rw (← e) (omega (arith, count-append i (draws R k (srand s) n) used)))
  all_indices-member k n i s (x ∷ ss) used (inr m) h = all_indices-member k n i s ss _ m h

  pub insert_all-Holds :
      (k n : ℕ) (ss used : List ℕ) (f : BloomFilter)
      → 0 < n
      → n < 2 ^ 53
      → AllSafe k ss
      → Holds k n used f
      → (g : BloomFilter) × (insert_all ss f ≡ some g) × Holds k n (all_indices k n ss used) g
  unfolding insert_all all_indices
  insert_all-Holds k n [] used f pos small safe h = (f, refl, h)
  insert_all-Holds k n (s ∷ ss) used f pos small safe h =
      let (g, run, h') = insert_seed-Holds R k n pos small s used f safe.0 h in
      let (g', run', h'') = insert_all-Holds k n ss _ g pos small safe.1 h' in
      (g', rw run run', h'')

  module _ (malloc : ℕ → Pointer) (m n j : ℕ) (memory : BloomFilter) (alloc : Allocates malloc)
      (small : m < 2 ^ 32) (pos : 0 < n) where
    -- Let `malloc` succeed, the table have below 2^32 cells and the element count not be 0.
    -- Initialising a filter and inserting any seeds never faults while no draw is `RAND_MAX`; for
    -- a seed with no such draw `contains` then answers 1 exactly when each of its indices is an
    -- index of some inserted seed.
    pub contains-insert_all :
        (ss : List ℕ) (q : ℕ)
        → AllSafe 8 ss
        → NeverMax R 8 (srand q)
        → (f : BloomFilter) × ((bloom_filter_init malloc m n j memory >>= insert_all ss) ≡ some f)
          × (contains_seed R q f
              ≡ some (covered (draws R 8 (srand q) (max 1 m)) (all_indices 8 (max 1 m) ss [])))
    contains-insert_all ss q safe safe_q =
        let (f, run, h) = init-Holds malloc m n j memory alloc small pos in
        let (g, run', h') =
          insert_all-Holds 8 (max 1 m) ss [] f (omega arith) (omega arith) safe h in
        (
          g,
          rw run run',
          contains_seed-covered R 8 (max 1 m) (omega arith) (omega arith) q _ g safe_q h',
        )

    -- No false negatives: let `malloc` succeed, the table have below 2^32 cells and the element
    -- count not be 0. After a filter is initialised and any seeds are inserted, none with a draw
    -- of `RAND_MAX`, `contains` answers 1 for each of these seeds.
    pub contains-member :
        (ss : List ℕ) (q : ℕ)
        → AllSafe 8 ss
        → NeverMax R 8 (srand q)
        → Elem q ss
        → (f : BloomFilter) × ((bloom_filter_init malloc m n j memory >>= insert_all ss) ≡ some f)
          × (contains_seed R q f ≡ some 1)
    contains-member ss q safe safe_q member =
        let (f, run, answer) = contains-insert_all ss q safe safe_q in
        let found =
          covered_of_count (draws R 8 (srand q) (max 1 m)) (all_indices 8 (max 1 m) ss [])
            (λ i h. all_indices-member 8 (max 1 m) i q ss [] member h) in
        (f, run, rw found at answer)
