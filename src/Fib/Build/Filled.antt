-- ===== src/Fib/Build/Filled.antt =====
-- Single steps of the tables of filters: an initialisation and an insert.
use native.Mathlib.Decide.{ℕ_discrete}
use buffalo.Bloom.Build.{Allocates, Holds, init-Holds, contains_seed-covered}
use buffalo.Bloom.{BloomFilter, bloom_filter_init, contains_seed}
use buffalo.Common.{
  ℕ, zero, suc, ◌^◌, ◌<◌, ◌≡◌, ◌≢◌, refl, ◌∙◌, ap, List, [], ◌∷◌, none, some, arith, get_elem?,
  get_elem?-set_self, get_elem?-set_ne, set, length, length-set, Returns, max, ◌>>=◌,
}
use buffalo.Fib.Build.{on_filter}
use buffalo.Hashing.Draws.{draws, NeverMax}
use buffalo.Hashing.Iterate.{count}
use buffalo.Hashing.Marks.{covered, covered_of_count}
use buffalo.Hashing.{Pointer}
use buffalo.Rand.{Rand}

-- Filter `i` is initialised, with 8 hash functions.
pub record Ready (fs : List BloomFilter) (i : ℕ) : Type 0 where
  pub filter : BloomFilter
  pub cells : ℕ
  pub used : List ℕ
  pub here : get_elem? fs i ≡ some filter
  pub nonempty : 0 < cells
  pub small : cells < 2 ^ 53
  pub holds : Holds 8 cells used filter

-- Filter `i` has no table, as after an initialisation for no elements.
pub record Empty (fs : List BloomFilter) (i : ℕ) : Type 0 where
  pub filter : BloomFilter
  pub here : get_elem? fs i ≡ some filter
  pub no_table : filter.hash_table ≡ none

pub get_elem?-lt {ℓ} :
    {A : Type ℓ} (xs : List A) (i : ℕ) (x : A) → get_elem? xs i ≡ some x → i < length xs
get_elem?-lt [] i x e = cc
get_elem?-lt (y ∷ xs) zero x e = omega arith
get_elem?-lt (y ∷ xs) (suc i) x e = omega (arith, get_elem?-lt xs i x e)

pub get_elem?-some {ℓ} :
    {A : Type ℓ} (xs : List A) (i : ℕ) → i < length xs → (x : A) × (get_elem? xs i ≡ some x)
get_elem?-some [] i h = elim h [ ]
get_elem?-some (y ∷ xs) zero h = (y, refl)
get_elem?-some (y ∷ xs) (suc i) h = get_elem?-some xs i (omega arith)

-- After a write at `k`, what holds of the filter there holds of the one written.
set-Ready :
    (fs : List BloomFilter) (k i : ℕ) (g : BloomFilter)
    → Ready (set fs k g) k
    → Ready fs i
    → Ready (set fs k g) i
set-Ready fs k i g now r = elim (ℕ_discrete k i) [
  | yes e ↦ rw (← e) now
  | no apart ↦ record {
    filter = r.filter;
    cells = r.cells;
    used = r.used;
    here = get_elem?-set_ne fs g apart ∙ r.here;
    nonempty = r.nonempty;
    small = r.small;
    holds = r.holds;
  }
]

pub on_filter-init :
    (malloc : ℕ → Pointer) (fs : List BloomFilter) (i size n : ℕ)
    → Allocates malloc
    → i < length fs
    → size < 2 ^ 32
    → 0 < n
    → Returns
        (λ gs.
          Ready gs i
          × ((k : ℕ) → Ready fs k → Ready gs k)
          × ((k : ℕ) → i ≢ k → Empty fs k → Empty gs k)
          × (length gs ≡ length fs))
        (on_filter i (bloom_filter_init malloc size n 10) fs)
unfolding on_filter
on_filter-init malloc fs i size n alloc inside fits pos =
    let (f, here) = get_elem?-some fs i inside in
    let (g, run, h) = init-Holds malloc size n 10 f alloc fits pos in
    let now : Ready (set fs i g) i = record {
      filter = g;
      cells = max 1 size;
      used = [];
      here = get_elem?-set_self fs i g inside;
      nonempty = omega arith;
      small = omega arith;
      holds = h;
    } in
    (
      set fs i g,
      rw (here, ◌>>=◌, run) refl,
      (
        now,
        λ k. set-Ready fs i k g now,
        λ k apart e. record {
          filter = e.filter;
          here = get_elem?-set_ne fs g apart ∙ e.here;
          no_table = e.no_table;
        },
        length-set fs i g,
      ),
    )

module _ (R : Rand) where
  open R use {srand}

  -- Filter `i` has every cell of a seed.
  pub record Has (fs : List BloomFilter) (i s : ℕ) : Type 0 where
    pub ready : Ready fs i
    pub all : (h : ℕ) → 0 < count h (draws R 8 (srand s) ready.cells) → 0 < count h ready.used

  pub Has-contains_seed :
      (fs : List BloomFilter) (i s : ℕ)
      → NeverMax R 8 (srand s)
      → Has fs i s
      → (f : BloomFilter) × (get_elem? fs i ≡ some f) × (contains_seed R s f ≡ some 1)
  Has-contains_seed fs i s safe h =
      let r = h.ready in
      (
        r.filter,
        r.here,
        contains_seed-covered R 8 r.cells r.nonempty r.small s r.used r.filter safe r.holds
            ∙ ap some (covered_of_count (draws R 8 (srand s) r.cells) r.used h.all),
      )

  -- An initialised filter answers for every seed.
  pub Ready-contains_seed :
      (fs : List BloomFilter) (i s : ℕ)
      → NeverMax R 8 (srand s)
      → Ready fs i
      → (f : BloomFilter) × (n : ℕ) × (get_elem? fs i ≡ some f) × (contains_seed R s f ≡ some n)
  Ready-contains_seed fs i s safe r = (
    r.filter,
    covered (draws R 8 (srand s) r.cells) r.used,
    r.here,
    contains_seed-covered R 8 r.cells r.nonempty r.small s r.used r.filter safe r.holds,
  )

  -- Inserts take nothing away.
  pub record Grows (fs gs : List BloomFilter) : Type 0 where
    pub ready : (i : ℕ) → Ready fs i → Ready gs i
    pub has : (i s : ℕ) → Has fs i s → Has gs i s
    pub empty : (i : ℕ) → Empty fs i → Empty gs i
