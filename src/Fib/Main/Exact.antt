-- ===== src/Fib/Main/Exact.antt =====
-- Filters that were built, at an address where they have no false positive.
use mathlib.Core.Option.{some-injective}
use buffalo.Bloom.Build.{Allocates}
use buffalo.Bloom.{BloomFilter}
use buffalo.Common.Int.{ℤ}
use buffalo.Common.{
  ℕ, ◌*◌, ◌^◌, ◌≤◌, ◌<◌, ◌≡◌, ◌≢◌, refl, sym, subst, ◌∙◌, List, some, Elem, length, Returns, ◌>>=◌,
}
use buffalo.Fib.Blocks.{block}
use buffalo.Fib.Build.PfxBuilt.{create_bloom_filter_pfxlen_each_out-PfxBuilt}
use buffalo.Fib.Globals.{Globals, DataScheme, Scheme, pfxlen_count}
use buffalo.Fib.Longest.{linear_lookup-LongestBlock}
use buffalo.Fib.Main.Lookups.{built_hit, built-Answering, built-NoMiss, create_filters-routes}
use buffalo.Fib.Main.Tables.{
  Elem-length, HasRoutes, read_fib-Loaded, index_all-PfxTables, index_all-Routed,
}
use buffalo.Fib.Main.{FibFile, no_tables, read_fib, index_all, create_filters, set_up}
use buffalo.Fib.Search.Agree.{NoFalseHit, ask_filters-linear_lookup}
use buffalo.Fib.Search.{ask_filters}
use buffalo.Fib.{linear_lookup}
use buffalo.Hashing.Draws.{NeverMax}
use buffalo.Hashing.{Pointer}
use buffalo.Prefix.{Prefix}
use buffalo.Rand.{Rand}

module _ (R : Rand) where
  open R use {srand}

  -- For a file of fewer than 2^31 prefixes, none of length 0, that is read by the reader of its
  -- scheme, with 33 filters or more for each next hop, memory for the tables, sizes below 2^32, no
  -- draw of RAND_MAX for the prefixes of the list nor for the 32 blocks of a 32-bit address, and a
  -- next hop for the address that is not 0 in `linear_lookup`: if of the filters that `set_up`
  -- builds only those answer for a block of the address that belong to the next hop of an entry for
  -- the block, then the lookup of the address returns that next hop, however many next hops hit.
  pub set_up-linear_lookup :
      (malloc : ℕ → Pointer) (share : ℕ → ℕ → ℕ) (sizes : List ℤ) (datascheme : DataScheme)
      (runscheme : Scheme) (file : FibFile) (filters : List BloomFilter) (read : Globals)
      (addr v : ℕ) (ready : Globals × List BloomFilter)
      → Allocates malloc
      → ((c t : ℕ) → share c t < 2 ^ 32)
      → HasRoutes datascheme file
      → read_fib datascheme runscheme file no_tables ≡ some read
      → length read.nhlist * pfxlen_count ≤ length filters
      → ((p : Prefix) → Elem p read.pfxlist → NeverMax R 8 (srand p.addr))
      → addr < 2 ^ 32
      → ((j : ℕ) → 0 < j → j ≤ 32 → NeverMax R 8 (srand (block addr j).addr))
      → v ≢ 0
      → linear_lookup read.pmap addr 32 ≡ v
      → set_up R malloc share sizes datascheme runscheme file filters ≡ some ready
      → NoFalseHit ready.0 (built_hit R ready.0 ready.1) addr
      → Returns (λ found. found.nh ≡ v) (ask_filters R ready.0 ready.1 addr)
  unfolding set_up index_all
  set_up-linear_lookup malloc share sizes datascheme runscheme file filters read addr v ready alloc
        shares ok e room safe small blocks nonzero linear is_ready exact =
      let (n, few, r, fresh) = read_fib-Loaded datascheme runscheme file read ok e in
      let g = index_all read in
      let (j, pos, short, found, _) =
        linear_lookup-LongestBlock read.pmap addr small v nonzero linear in
      let entry = r.member (block addr j) (r.listed (block addr j) v found) in
      let tables =
        index_all-PfxTables read n few r fresh (length filters) (Elem-length _ read.nhlist entry)
          room in
      let (built, run, b) =
        create_bloom_filter_pfxlen_each_out-PfxBuilt R malloc share g filters alloc shares tables
          (λ p m. (index_all-Routed read n few r fresh p m, safe p m)) in
      let made : create_filters R malloc share sizes datascheme g filters ≡ some built =
        create_filters-routes R malloc share sizes datascheme file g filters ok ∙ run in
      let all : set_up R malloc share sizes datascheme runscheme file filters ≡ some (g, built) =
        rw (e, ◌>>=◌, made) refl in
      let same : ready ≡ (g, built) = some-injective _ _ (sym is_ready ∙ all) in
      let exact' : NoFalseHit g (built_hit R g built) addr =
        subst (λ x. NoFalseHit x.0 (built_hit R x.0 x.1) addr) same exact in
      subst (λ x. Returns (λ found. found.nh ≡ v) (ask_filters R x.0 x.1 addr)) (sym same)
        (ask_filters-linear_lookup R g built (built_hit R g built) addr small
          (built-Answering R g built addr blocks b)
          (built-NoMiss R g built addr blocks r.listed r.member b) v nonzero linear exact')
