-- ===== src/Fib/Main/Lookups.antt =====
-- A file of prefixes, from the reading to a lookup in the filters.
use buffalo.Bloom.Build.{Allocates, contains_seed-covered}
use buffalo.Bloom.{BloomFilter, contains_prefix, contains_seed}
use buffalo.Common.Dict.{value, or_zero, nat_key}
use buffalo.Common.OrdSet.{nat_order}
use buffalo.Common.{
  ℕ, zero, suc, ◌*◌, ◌^◌, ◌≤◌, ◌<◌, ◌==◌, Bool, true, false, Bool-cases, ◌≡◌, ◌≢◌, refl, ap, ◌∙◌,
  subst, List, [], ◌∷◌, Option, none, some, arith, Elem, inl, inr, ◌⊎◌, get_elem?, length, Returns,
  ◌>>=◌,
}
use buffalo.Common.Int.{ℤ}
use buffalo.Fib.Blocks.{block}
use buffalo.Fib.Build.Filled.{Has-contains_seed}
use buffalo.Fib.Build.PfxBuilt.{PfxBuilt, create_bloom_filter_pfxlen_each_out-PfxBuilt}
use buffalo.Fib.Build.{pfx_index, create_bloom_filter_pfxlen_each_out}
use buffalo.Fib.Globals.{
  Globals, DataScheme, data_routeview, data_funet, data_internet2, data_mac, Scheme, pfxlen_count,
}
use buffalo.Fib.Longest.{linear_lookup-LongestBlock}
use buffalo.Fib.Main.Loaded.{Loaded}
use buffalo.Fib.Main.{FibFile, no_tables, read_fib, index_all, create_filters, set_up}
use buffalo.Fib.Search.Agree.{NoMiss, ask_filters-single}
use buffalo.Fib.Search.Asked.{Answers, Answering}
use buffalo.Fib.Search.{ask_filters}
use buffalo.Fib.{find, linear_lookup}
use buffalo.Hashing.Draws.{NeverMax, draws}
use buffalo.Hashing.Iterate.{count}
use buffalo.Hashing.Marks.{covered}
use buffalo.Hashing.{Pointer}
use buffalo.Prefix.Equal.{prefix_key}
use buffalo.Prefix.{Prefix}
use buffalo.Rand.{Rand}
use buffalo.Fib.Main.Tables.{
  HasRoutes, read_fib-Loaded, index_all-PfxTables, index_all-Routed, Elem-length,
}

-- An answer of `contains`.
abbrev is_hit : Option ℕ → Bool
is_hit none = false
is_hit (some zero) = false
is_hit (some (suc n)) = true

covered-cases : (hs used : List ℕ) → (covered hs used ≡ 0) ⊎ (covered hs used ≡ 1)
unfolding covered
covered-cases [] used = inr refl
covered-cases (h ∷ hs) used = elim (covered-cases hs used) [
  | inl e ↦ inl (ground (arith, e))
  | inr e ↦ elim (Bool-cases (count h used == 0)) [
    | inl none_there ↦ inl (ground (arith, none_there))
    | inr there ↦ inr (ground (arith, there, e))
  ]
]

module _ (R : Rand) (g : Globals) (built : List BloomFilter) where
  open R use {srand}

  -- What the filters that are built answer.
  abbrev pub built_hit : Answers
  built_hit nh p = is_hit (get_elem? built (pfx_index g p.len nh) >>= contains_prefix R p)

  pub built-Answering :
      (addr : ℕ)
      → ((j : ℕ) → 0 < j → j ≤ 32 → NeverMax R 8 (srand (block addr j).addr))
      → PfxBuilt R g built
      → Answering R g built built_hit addr
  unfolding contains_prefix contains_seed block
  built-Answering addr safe b nh j m pos short = elim (b.answers nh j m pos short) [
    | inr e ↦ (e.filter, e.here, rw (e.here, ◌>>=◌, e.no_table) refl)
    | inl ready ↦
        let s = (block addr j).addr in
        let answer =
          contains_seed-covered R 8 ready.cells ready.nonempty ready.small s ready.used ready.filter
            (safe j pos short) ready.holds in
        (
          ready.filter,
          ready.here,
          elim (covered-cases (draws R 8 (srand s) ready.cells) ready.used) [
            | inl miss ↦ rw (ready.here, ◌>>=◌, answer, miss) refl
            | inr hits ↦ rw (ready.here, ◌>>=◌, answer, hits) refl
          ],
        )
  ]

  pub built-NoMiss :
      (addr : ℕ)
      → ((j : ℕ) → 0 < j → j ≤ 32 → NeverMax R 8 (srand (block addr j).addr))
      → ((p : Prefix) (v : ℕ) → find g.pmap p ≡ some v → Elem p g.pfxlist)
      → ((p : Prefix) → Elem p g.pfxlist → Elem (value g.pmap p) g.nhlist)
      → PfxBuilt R g built
      → NoMiss g built_hit addr
  unfolding contains_prefix block find value
  built-NoMiss addr safe listed member b j v pos short found =
      let p = block addr j in
      let m = listed p v found in
      let mine : value g.pmap p ≡ v = ap or_zero found in
      let (f, here, answer) =
        Has-contains_seed R built (pfx_index g j (value g.pmap p)) p.addr (safe j pos short)
          (b.has p m) in
      (subst (λ x. Elem x g.nhlist) mine (member p m), rw (← mine, here, ◌>>=◌, answer) refl)

module _ (R : Rand) where
  open R use {srand}

  -- The filters of a file of prefixes that was read, and a lookup in them.
  built-lookup :
      (malloc : ℕ → Pointer) (share : ℕ → ℕ → ℕ) (filters : List BloomFilter) (read : Globals)
      (n addr v : ℕ)
      → Allocates malloc
      → ((c t : ℕ) → share c t < 2 ^ 32)
      → n < 2 ^ 31
      → Loaded read n
      → read.nhindex ≡ []
      → length read.nhlist * pfxlen_count ≤ length filters
      → ((p : Prefix) → Elem p read.pfxlist → NeverMax R 8 (srand p.addr))
      → addr < 2 ^ 32
      → ((j : ℕ) → 0 < j → j ≤ 32 → NeverMax R 8 (srand (block addr j).addr))
      → v ≢ 0
      → linear_lookup read.pmap addr 32 ≡ v
      → Returns
          (λ built.
            Returns
              (λ found. (0 < found.error) × ((1 < found.error) ⊎ (found.nh ≡ v)))
              (ask_filters R (index_all read) built addr))
          (create_bloom_filter_pfxlen_each_out R malloc share (index_all read) filters)
  unfolding index_all
  built-lookup malloc share filters read n addr v alloc shares few r fresh room safe small blocks
        nonzero linear =
      let g = index_all read in
      let (j, pos, short, found, longest) =
        linear_lookup-LongestBlock read.pmap addr small v nonzero linear in
      let entry = r.member (block addr j) (r.listed (block addr j) v found) in
      let tables =
        index_all-PfxTables read n few r fresh (length filters) (Elem-length _ read.nhlist entry)
          room in
      let (built, run, b) =
        create_bloom_filter_pfxlen_each_out-PfxBuilt R malloc share g filters alloc shares tables
          (λ p m. (index_all-Routed read n few r fresh p m, safe p m)) in
      (
        built,
        run,
        ask_filters-single R g built (built_hit R g built) addr small
            (built-Answering R g built addr blocks b)
            (built-NoMiss R g built addr blocks r.listed r.member b) v nonzero linear,
      )

  -- The three schemes of prefixes build the same filters.
  pub create_filters-routes :
      (malloc : ℕ → Pointer) (share : ℕ → ℕ → ℕ) (sizes : List ℤ) (datascheme : DataScheme)
      (file : FibFile) (g : Globals) (filters : List BloomFilter)
      → HasRoutes datascheme file
      → create_filters R malloc share sizes datascheme g filters
        ≡ create_bloom_filter_pfxlen_each_out R malloc share g filters
  unfolding create_filters
  create_filters-routes malloc share sizes data_routeview file g filters ok = refl
  create_filters-routes malloc share sizes data_funet file g filters ok = refl
  create_filters-routes malloc share sizes data_internet2 file g filters ok = refl
  create_filters-routes malloc share sizes data_mac file g filters ok = absurd ok

  -- For a file of fewer than 2^31 prefixes, none of length 0, that is read by the reader of its
  -- scheme, with 33 filters or more for each next hop, memory for the tables, sizes below 2^32, no
  -- draw of RAND_MAX for the prefixes of the list nor for the 32 blocks of a 32-bit address, and a
  -- next hop for the address that is not 0 in `linear_lookup`: the rest of `set_up` ends, and the
  -- lookup of the address in the filters that it builds ends with at least one hit, which is that
  -- next hop if it is the only one.
  pub set_up-lookup :
      (malloc : ℕ → Pointer) (share : ℕ → ℕ → ℕ) (sizes : List ℤ) (datascheme : DataScheme)
      (runscheme : Scheme) (file : FibFile) (filters : List BloomFilter) (read : Globals)
      (addr v : ℕ)
      → Allocates malloc
      → ((c t : ℕ) → share c t < 2 ^ 32)
      → HasRoutes datascheme file
      → read_fib datascheme runscheme file no_tables ≡ some read
      → length read.nhlist * pfxlen_count ≤ length filters
      → ((p : Prefix) → Elem p read.pfxlist → NeverMax R 8 (srand p.addr))
      → addr < 2 ^ 32
      → ((j : ℕ) → 0 < j → j ≤ 32 → NeverMax R 8 (srand (block addr j).addr))
      → v ≢ 0
      → linear_lookup read.pmap addr 32 ≡ v
      → Returns
          (λ ready.
            Returns
              (λ found. (0 < found.error) × ((1 < found.error) ⊎ (found.nh ≡ v)))
              (ask_filters R ready.0 ready.1 addr))
          (set_up R malloc share sizes datascheme runscheme file filters)
  unfolding set_up create_filters
  set_up-lookup malloc share sizes datascheme runscheme file filters read addr v alloc shares ok e
        room safe small blocks nonzero linear =
      let (n, few, r, fresh) = read_fib-Loaded datascheme runscheme file read ok e in
      let (built, run, answer) =
        built-lookup malloc share filters read n addr v alloc shares few r fresh room safe small
          blocks nonzero linear in
      let made : create_filters R malloc share sizes datascheme (index_all read) filters
          ≡ some built =
        create_filters-routes malloc share sizes datascheme file (index_all read) filters ok
        ∙ run in
      ((index_all read, built), rw (e, ◌>>=◌, made) refl, answer)
