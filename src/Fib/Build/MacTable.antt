-- ===== src/Fib/Build/MacTable.antt =====
-- The table of filters for MAC addresses: `create_mac_table` has no false negative.
use buffalo.Bloom
use buffalo.Bloom.Build.{Allocates}
use buffalo.Bloom.{BloomFilter, bloom_filter_init, insert_seed, contains_seed}
use buffalo.Common.Dict.{value, nat_key}
use buffalo.Common.Int.{ℤ}
use buffalo.Common.{
  ℕ, true, false, ◌^◌, ◌<◌, ◌==◌, ltb, lt→ltb, ◌≡◌, refl, sym, ◌∙◌, subst, List, [], ◌∷◌, arith,
  Elem, inl, inr, length, each, Returns, ◌>>=◌,
}
use buffalo.EtherAddress.Equal.{address_key}
use buffalo.EtherAddress.{EtherAddress, seed}
use buffalo.Fib.Build.Filled.{Ready, Has, on_filter-init}
use buffalo.Fib.Build.Inserts.{insert_each}
use buffalo.Fib.Build.{
  as_unsigned_long, next_size, init_mac, init_mac_filters, divided, insert_mac, insert_mac_list,
  create_mac_table,
}
use buffalo.Fib.Globals.{Globals}
use buffalo.FilterBank.{as_int}
use buffalo.Hashing.Draws.{NeverMax}
use buffalo.Hashing.{Pointer}
use buffalo.Rand.{Rand}

-- The tables that the loops over the next hops and the addresses rely on, for `n` filters.
pub record MacTables (g : Globals) (n : ℕ) : Type 0 where
  pub some_nexthop : 0 < length g.nhlist
  pub counted :
      (nh : ℕ) → Elem nh g.nhlist → (0 < value g.nhcount nh) × (value g.nhcount nh < 2 ^ 31)
  pub indexed : (nh : ℕ) → Elem nh g.nhlist → value g.nhindex nh < n
  pub routed : (p : EtherAddress) → Elem p g.maclist → Elem (value g.macmap p) g.nhlist

-- The sizes are such that `bloom_filter_init` does not wrap them.
abbrev pub Sizes : List ℤ → Type 0
Sizes [] = Unit
Sizes (size ∷ sizes) = (as_unsigned_long size < 2 ^ 32) × Sizes sizes

next_size-Sizes :
    (sizes : List ℤ)
    → Sizes sizes
    → (as_unsigned_long (next_size sizes).0 < 2 ^ 32) × Sizes (next_size sizes).1
unfolding next_size as_unsigned_long
next_size-Sizes [] all = (omega arith, tt)
next_size-Sizes (size ∷ sizes) (first, rest) = (first, rest)

-- The initialisations from the next hops that are left.
init_loop :
    (malloc : ℕ → Pointer) (g : Globals) (n : ℕ)
    → Allocates malloc
    → (nhs : List ℕ)
    → ((nh : ℕ) → Elem nh nhs → (0 < value g.nhcount nh) × (value g.nhcount nh < 2 ^ 31))
    → ((nh : ℕ) → Elem nh nhs → value g.nhindex nh < n)
    → (fs : List BloomFilter) (sizes : List ℤ) → length fs ≡ n
    → Sizes sizes
    → Returns
        (λ t.
          ((k : ℕ) → Ready fs k → Ready t.0 k)
          × ((nh : ℕ) → Elem nh nhs → Ready t.0 (value g.nhindex nh)))
        (each nhs (init_mac malloc g) (fs, sizes))
unfolding each init_mac as_int
init_loop malloc g n alloc [] counted indexed fs sizes len fit =
    ((fs, sizes), refl, (λ k r. r, λ nh m. absurd m))
init_loop malloc g n alloc (nh ∷ nhs) counted indexed fs sizes len fit =
    let (positive, small) = counted nh (inl refl) in
    let fits = next_size-Sizes sizes fit in
    let small_test : ltb (value g.nhcount nh) (2 ^ 31) ≡ true = lt→ltb _ _ small in
    let (gs, run, (now, keep, apart, same)) =
      on_filter-init malloc fs (value g.nhindex nh) (as_unsigned_long (next_size sizes).0)
        (value g.nhcount nh) alloc (rw len (indexed nh (inl refl))) fits.0 positive in
    let (t, run', (more, all)) =
      init_loop malloc g n alloc nhs (λ k m. counted k (inr m)) (λ k m. indexed k (inr m)) gs
        (next_size sizes).1 (same ∙ len) fits.1 in
    (
      t,
      rw (small_test, ◌>>=◌, run) run',
      (
        λ k r. more k (keep k r),
        λ k m. elim m [
          | inl e ↦
              subst (λ z. Ready t.0 (value g.nhindex z)) (sym e) (more (value g.nhindex nh) now)
          | inr m' ↦ all k m'
        ],
      ),
    )

module _ (R : Rand) where
  open R use {srand}

  -- What the table promises after it is built: the filters answer, and have the addresses.
  pub record MacBuilt (g : Globals) (built : List BloomFilter) : Type 0 where
    pub answers : (nh : ℕ) → Elem nh g.nhlist → Ready built (value g.nhindex nh)
    pub has :
        (p : EtherAddress)
        → Elem p g.maclist
        → Has R built (value g.nhindex (value g.macmap p)) (seed p)

  pub create_mac_table-MacBuilt :
      (malloc : ℕ → Pointer) (sizes : List ℤ) (g : Globals) (filters : List BloomFilter)
      → Allocates malloc
      → Sizes sizes
      → MacTables g (length filters)
      → ((p : EtherAddress) → Elem p g.maclist → NeverMax R 8 (srand (seed p)))
      → Returns (MacBuilt g) (create_mac_table R malloc sizes g filters)
  unfolding create_mac_table init_mac_filters insert_mac_list insert_mac divided Bloom.insert
  create_mac_table-MacBuilt malloc sizes g filters alloc fit tables safe =
      let (t, run, (keep, ready)) =
        init_loop malloc g (length filters) alloc g.nhlist tables.counted tables.indexed filters
          sizes refl fit in
      let at_p : EtherAddress → ℕ = λ p. value g.nhindex (value g.macmap p) in
      let (built, run', (grows, has)) =
        insert_each R at_p seed g.maclist t.0
          (λ p m. (ready (value g.macmap p) (tables.routed p m), safe p m)) in
      let apart : (length g.nhlist == 0) ≡ false = ground (arith, tables.some_nexthop) in
      (
        built,
        rw (run, apart, ◌>>=◌) run',
        record { answers = λ nh m. grows.ready (value g.nhindex nh) (ready nh m); has = has },
      )
