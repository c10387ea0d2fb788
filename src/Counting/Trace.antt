-- ===== src/Counting/Trace.antt =====
-- Any sequence of inserts, and of removals of elements that are present.
use buffalo.Bloom.Build.{Allocates, zero_loop-clears}
use buffalo.Common.{
  Elem, ℕ, ◌+◌, ◌^◌, ◌≤◌, ◌<◌, ◌==◌, ltb, if◌then◌else◌, ◌≡◌, refl, subst, sym, ◌∙◌, ap, inl, inr,
  true, false, List, [], ◌∷◌, ◌++◌, some, arith, max,
}
use buffalo.Counting.Counts.{Holds, insert_seed-Holds, remove_seed-Holds, contains_seed-covered}
use buffalo.Counting.{
  CountingBloomFilter, counting_bloom_filter_init, insert_seed, remove_seed, contains_seed,
}
use mathlib.Core.Option.{some-injective}
use buffalo.Bloom.{zero_loop}
use buffalo.Hashing.{Pointer}
use buffalo.Hashing.Draws.{draws, NeverMax}
use buffalo.Hashing.Iterate.{count}
use buffalo.Hashing.Marks.{covered_of_count, count-append}
use buffalo.Rand.{Rand}

init_runs :
    (malloc : ℕ → Pointer) (m n j : ℕ) (f : CountingBloomFilter) (t u : List ℕ)
    → m < 2 ^ 32
    → 0 < n
    → malloc (max 1 m) ≡ some t
    → zero_loop (max 1 m) 0 (some t) ≡ some (some u)
    → counting_bloom_filter_init malloc m n j f
      ≡ some (record {
        hash_table = some u;
        table_size = max 1 m;
        element_size = n;
        function_size = 8;
      })
unfolding counting_bloom_filter_init
init_runs malloc m n j f t u small pos block runs =
    let size : (if m == 0 then 1 else m) ≡ max 1 m = ground arith in
    let nonempty : (n == 0) ≡ false = ground arith in
    let fits : ltb (max 1 m) (2 ^ 32) ≡ true = ground arith in
    rw (size, nonempty, fits, block, runs)

-- A fresh filter counts nothing.
pub init-Holds :
    (malloc : ℕ → Pointer) (m n j : ℕ) (f : CountingBloomFilter)
    → Allocates malloc
    → m < 2 ^ 32
    → 0 < n
    → (g : CountingBloomFilter) × (counting_bloom_filter_init malloc m n j f ≡ some g)
      × Holds 8 (max 1 m) [] g
unfolding count
init-Holds malloc m n j f alloc small pos =
    let (t, block, width) = alloc (max 1 m) in
    let (u, runs, same, zeros) =
      zero_loop-clears (max 1 m) 0 t (omega arith) (λ j h. absurd (omega arith)) in
    (
      record { hash_table = some u; table_size = max 1 m; element_size = n; function_size = 8 },
      init_runs malloc m n j f t u small pos block runs,
      record {
        table = u;
        points = refl;
        length_table = same ∙ width;
        size = refl;
        functions = refl;
        counts = zeros;
      },
    )

module _ (R : Rand) where
  open R use {srand}

  -- The draws of all the seeds of a list.
  unfoldable pub seed_draws : ℕ → ℕ → List ℕ → List ℕ
  seed_draws k n [] = []
  seed_draws k n (s ∷ ss) = draws R k (srand s) n ++ seed_draws k n ss

  -- `Trace k n ss f`: the filter `f` after inserts and removals that leave the elements `ss`.
  -- An insert keeps every counter at 255 or less; a removal is of an element that is present.
  pub data Trace (k n : ℕ) : List ℕ → CountingBloomFilter → Type 0 where
    start : {f : CountingBloomFilter} → Holds k n [] f → Trace k n [] f
    inserted :
        {ss : List ℕ} {f g : CountingBloomFilter} (s : ℕ)
        → Trace k n ss f
        → NeverMax R k (srand s)
        → ((i : ℕ) → count i (seed_draws k n (s ∷ ss)) ≤ 255)
        → insert_seed R s f ≡ some g
        → Trace k n (s ∷ ss) g
    removed :
        {ss rest : List ℕ} {f g : CountingBloomFilter} (s : ℕ) (xs ys : List ℕ)
        → Trace k n ss f
        → NeverMax R k (srand s)
        → ss ≡ xs ++ s ∷ ys
        → rest ≡ xs ++ ys
        → remove_seed R s f ≡ some g
        → Trace k n rest g

  count-middle :
      (k n i s : ℕ) (xs ys : List ℕ)
      → count i (seed_draws k n (xs ++ s ∷ ys))
        ≡ count i (draws R k (srand s) n) + count i (seed_draws k n (xs ++ ys))
  unfolding seed_draws
  count-middle k n i s [] ys = count-append i (draws R k (srand s) n) (seed_draws k n ys)
  count-middle k n i s (x ∷ xs) ys = omega (
    arith,
    count-append i (draws R k (srand x) n) (seed_draws k n (xs ++ s ∷ ys)),
    count-append i (draws R k (srand x) n) (seed_draws k n (xs ++ ys)),
    count-middle k n i s xs ys,
  )

  module _ (k n : ℕ) (pos : 0 < n) (small : n < 2 ^ 53) where
    -- The filter counts exactly the draws of the elements that are left.
    pub Trace-Holds :
        {ss : List ℕ} {f : CountingBloomFilter} → Trace k n ss f → Holds k n (seed_draws k n ss) f
    unfolding seed_draws count
    Trace-Holds (start h) = h
    Trace-Holds (inserted {ss} {f} s before safe fits runs) =
        let h = Trace-Holds before in
        let (g, run, h') =
          insert_seed-Holds R k n pos small s (seed_draws k n ss) f safe
            (λ i. omega (arith, fits i, count-append i (draws R k (srand s) n) (seed_draws k n ss)))
            h in
        subst (Holds k n (draws R k (srand s) n ++ seed_draws k n ss))
          (some-injective _ _ (sym run ∙ runs)) h'
    Trace-Holds (removed {ss} {rest} {f} s xs ys before safe split left runs) =
        let h = Trace-Holds before in
        let (g, run, h') =
          remove_seed-Holds R k n pos small s (seed_draws k n ss) (seed_draws k n rest) f safe
            (λ i. rw (split, left) (count-middle k n i s xs ys)) h in
        subst (Holds k n (seed_draws k n rest)) (some-injective _ _ (sym run ∙ runs)) h'

    seed_draws-member :
        (i s : ℕ) (ss : List ℕ)
        → Elem s ss
        → 0 < count i (draws R k (srand s) n)
        → 0 < count i (seed_draws k n ss)
    unfolding seed_draws
    seed_draws-member i s [] m h = absurd m
    seed_draws-member i s (x ∷ ss) (inl e) h =
        rw (← e) (omega (arith, count-append i (draws R k (srand s) n) (seed_draws k n ss)))
    seed_draws-member i s (x ∷ ss) (inr m) h = omega (
      arith,
      count-append i (draws R k (srand x) n) (seed_draws k n ss),
      seed_draws-member i s ss m h,
    )

    -- No false negatives, whatever was removed: after inserts that keep every counter at 255 or
    -- less and removals of elements that are present, `contains` answers 1 for an element that is
    -- left, if none of its draws is `RAND_MAX` and the table has from 1 to 2^53-1 cells.
    pub contains-Trace :
        {ss : List ℕ} {f : CountingBloomFilter} (q : ℕ)
        → Trace k n ss f
        → NeverMax R k (srand q)
        → Elem q ss
        → contains_seed R q f ≡ some 1
    contains-Trace {ss} {f} q trace safe m =
        let found =
          covered_of_count (draws R k (srand q) n) (seed_draws k n ss)
            (λ i h. seed_draws-member i q ss m h) in
        contains_seed-covered R k n pos small q (seed_draws k n ss) f safe (Trace-Holds trace)
        ∙ ap some found

    -- Let a counting filter of from 1 to 2^53-1 cells be the result of inserts that keep every
    -- counter at 255 or less and of removals of elements that are present. A removal of a present
    -- element, none of whose draws is `RAND_MAX`, does not fault, and afterwards `contains` answers
    -- 1 for every element that is left and none of whose draws is `RAND_MAX`.
    pub contains-remove_seed :
        {f : CountingBloomFilter} (s : ℕ) (xs ys : List ℕ)
        → Trace k n (xs ++ s ∷ ys) f
        → NeverMax R k (srand s)
        → (g : CountingBloomFilter) × (remove_seed R s f ≡ some g)
          × ((q : ℕ) → NeverMax R k (srand q) → Elem q (xs ++ ys) → contains_seed R q g ≡ some 1)
    contains-remove_seed {f} s xs ys trace safe =
        let (g, run, _) =
          remove_seed-Holds R k n pos small s (seed_draws k n (xs ++ s ∷ ys))
            (seed_draws k n (xs ++ ys)) f safe (λ i. count-middle k n i s xs ys)
            (Trace-Holds trace) in
        let after = removed s xs ys trace safe refl refl run in
        (g, run, λ q safe' m. contains-Trace q after safe' m)
