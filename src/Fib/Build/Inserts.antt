-- ===== src/Fib/Build/Inserts.antt =====
-- The loops that insert into the table of filters: what they keep, and what they add.
use mathlib.Core.Option.{some-injective, none-ne-some}
use native.Mathlib.Decide.{ℕ_discrete}
use buffalo.Bloom.Build.{Holds, insert_seed-Holds}
use buffalo.Bloom.{BloomFilter, insert_seed}
use buffalo.Common.{
  ℕ, ◌<◌, ◌≡◌, ◌≢◌, refl, sym, ap, ◌∙◌, subst, List, [], ◌∷◌, ◌++◌, some, arith, Elem, inl, inr,
  get_elem?, get_elem?-set_self, get_elem?-set_ne, set, each, Returns, Returns-bind, ◌>>=◌,
}
use buffalo.Fib.Build.Filled.{Ready, Empty, Has, Grows, get_elem?-lt}
use buffalo.Fib.Build.{on_filter}
use buffalo.Hashing.Draws.{draws, NeverMax}
use buffalo.Hashing.Iterate.{count}
use buffalo.Hashing.Marks.{count-append}
use buffalo.Rand.{Rand}

module _ (R : Rand) where
  open R use {srand}

  pub Grows-self : (fs : List BloomFilter) → Grows R fs fs
  Grows-self fs = record { ready = λ i r. r; has = λ i s h. h; empty = λ i e. e }

  pub Grows-trans : (fs gs hs : List BloomFilter) → Grows R fs gs → Grows R gs hs → Grows R fs hs
  Grows-trans fs gs hs a b = record {
    ready = λ i r. b.ready i (a.ready i r);
    has = λ i s h. b.has i s (a.has i s h);
    empty = λ i e. b.empty i (a.empty i e);
  }

  -- What the insert of `s` makes of a filter that is initialised.
  inserted :
      (fs : List BloomFilter) (k s : ℕ) (g : BloomFilter)
      → NeverMax R 8 (srand s)
      → ((f : BloomFilter) → get_elem? fs k ≡ some f → insert_seed R s f ≡ some g)
      → (r : Ready fs k)
      → (t : Ready (set fs k g) k) × (t.cells ≡ r.cells)
        × (t.used ≡ draws R 8 (srand s) r.cells ++ r.used)
  inserted fs k s g safe run r =
      let (g', run', h) =
        insert_seed-Holds R 8 r.cells r.nonempty r.small s r.used r.filter safe r.holds in
      let same : g' ≡ g = some-injective _ _ (sym run' ∙ run r.filter r.here) in
      (
        record {
          filter = g;
          cells = r.cells;
          used = draws R 8 (srand s) r.cells ++ r.used;
          here = get_elem?-set_self fs k g (get_elem?-lt fs k r.filter r.here);
          nonempty = r.nonempty;
          small = r.small;
          holds = subst (Holds 8 r.cells (draws R 8 (srand s) r.cells ++ r.used)) same h;
        },
        refl,
        refl,
      )

  -- A filter elsewhere is left alone.
  elsewhere :
      (fs : List BloomFilter) (k i : ℕ) (g : BloomFilter)
      → k ≢ i
      → (r : Ready fs i) → (t : Ready (set fs k g) i) × (t.cells ≡ r.cells) × (t.used ≡ r.used)
  elsewhere fs k i g apart r = (
    record {
      filter = r.filter;
      cells = r.cells;
      used = r.used;
      here = get_elem?-set_ne fs g apart ∙ r.here;
      nonempty = r.nonempty;
      small = r.small;
      holds = r.holds;
    },
    refl,
    refl,
  )

  -- The cells of filter `i` stay, and those in use stay in use.
  abbrev Kept : List BloomFilter → List BloomFilter → ℕ → Type 0
  Kept fs gs i =
      (r : Ready fs i)
      → (t : Ready gs i) × (t.cells ≡ r.cells) × ((h : ℕ) → 0 < count h r.used → 0 < count h t.used)

  insert-Kept :
      (fs : List BloomFilter) (k s : ℕ) (g : BloomFilter)
      → NeverMax R 8 (srand s)
      → ((f : BloomFilter) → get_elem? fs k ≡ some f → insert_seed R s f ≡ some g)
      → (i : ℕ) → Kept fs (set fs k g) i
  insert-Kept fs k s g safe run i = elim (ℕ_discrete k i) [
    | yes e ↦ subst (Kept fs (set fs k g)) e λ r.
        let (t, cells, used) = inserted fs k s g safe run r in
        (
          t,
          cells,
          λ h q. rw (used, count-append h (draws R 8 (srand s) r.cells) r.used) (omega arith),
        )
    | no apart ↦
        λ r. let (t, cells, used) = elsewhere fs k i g apart r in (t, cells, λ h. rw used (λ q. q))
  ]

  Kept-Has : (fs gs : List BloomFilter) (i s : ℕ) → Kept fs gs i → Has R fs i s → Has R gs i s
  Kept-Has fs gs i s kept h =
      let (t, cells, used) = kept h.ready in
      record { ready = t; all = λ c. rw cells (λ q. used c (h.all c q)) }

  -- A filter with a table is not one without.
  set-Empty :
      (fs : List BloomFilter) (k i : ℕ) (g : BloomFilter)
      → Ready fs k
      → Empty fs i
      → Empty (set fs k g) i
  set-Empty fs k i g r e = elim (ℕ_discrete k i) [
    | yes same ↦
        let at_i : get_elem? fs i ≡ some r.filter = ap (get_elem? fs) (sym same) ∙ r.here in
        let one = some-injective _ _ (sym at_i ∙ e.here) in
        absurd (none-ne-some _ (sym e.no_table ∙ ap (λ f. f.hash_table) (sym one) ∙ r.holds.points))
    | no apart ↦ record {
      filter = e.filter;
      here = get_elem?-set_ne fs g apart ∙ e.here;
      no_table = e.no_table;
    }
  ]

  pub on_filter-insert :
      (fs : List BloomFilter) (k s : ℕ)
      → NeverMax R 8 (srand s)
      → Ready fs k
      → Returns (λ gs. Grows R fs gs × Has R gs k s) (on_filter k (insert_seed R s) fs)
  unfolding on_filter
  on_filter-insert fs k s safe r =
      let (g, run, h) =
        insert_seed-Holds R 8 r.cells r.nonempty r.small s r.used r.filter safe r.holds in
      let runs : (f : BloomFilter) → get_elem? fs k ≡ some f → insert_seed R s f ≡ some g =
        λ f here. rw (some-injective _ _ (sym here ∙ r.here)) run in
      let keep = insert-Kept fs k s g safe runs in
      let (t, cells, used) = inserted fs k s g safe runs r in
      (
        set fs k g,
        rw (r.here, ◌>>=◌, run) refl,
        (
          record {
            ready = λ i q. (keep i q).0;
            has = λ i s'. Kept-Has fs (set fs k g) i s' (keep i);
            empty = λ i e. set-Empty fs k i g r e;
          },
          record {
            ready = t;
            all = λ c.
                rw (cells, used, count-append c (draws R 8 (srand s) r.cells) r.used)
                  (λ q. omega arith);
          },
        ),
      )

module _ (R : Rand) {A : Type 0} (index seed_of : A → ℕ) where
  open R use {srand}

  -- The inserts of a list end, and each filter then has what was to be inserted into it.
  pub insert_each :
      (xs : List A) (fs : List BloomFilter)
      → ((x : A) → Elem x xs → Ready fs (index x) × NeverMax R 8 (srand (seed_of x)))
      → Returns
          (λ gs. Grows R fs gs × ((x : A) → Elem x xs → Has R gs (index x) (seed_of x)))
          (each xs (λ x. on_filter (index x) (insert_seed R (seed_of x))) fs)
  unfolding each
  insert_each [] fs good = (fs, refl, (Grows-self R fs, λ x m. absurd m))
  insert_each (x ∷ xs) fs good =
      let (ready, safe) = good x (inl refl) in
      Returns-bind (on_filter-insert R fs (index x) (seed_of x) safe ready) λ gs (grows, has).
        let (hs, run, (more, all)) =
          insert_each xs gs
            (λ y m. (grows.ready (index y) (good y (inr m)).0, (good y (inr m)).1)) in
        (
          hs,
          run,
          (
            Grows-trans R fs gs hs grows more,
            λ y m. elim m [
              | inl e ↦
                  subst (λ z. Has R hs (index z) (seed_of z)) (sym e)
                    (more.has (index x) (seed_of x) has)
              | inr m' ↦ all y m'
            ],
          ),
        )
