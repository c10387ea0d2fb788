-- ===== src/Fib/Main/Bits.antt =====
-- The branch for HASH_BIT 0, over the filters that were built.
use buffalo.Bloom.Build.{Allocates}
use buffalo.Bloom.{BloomFilter}
use buffalo.Common.Dict.{nat_key}
use buffalo.Common.Int.{ℤ}
use buffalo.Common.{
  ℕ, ◌*◌, ◌^◌, ◌≤◌, ◌<◌, ◌≡◌, refl, ◌∙◌, List, some, arith, Elem, length, Returns, ◌>>=◌,
}
use buffalo.Fib.Bits.Answered.{hash_bits-falsepos}
use buffalo.Fib.Bits.{hash_bits}
use buffalo.Fib.Blocks.{block}
use buffalo.Fib.Build.PfxBuilt.{create_bloom_filter_pfxlen_each_out-PfxBuilt}
use buffalo.Fib.Build.{pfx_index}
use buffalo.Fib.Globals.{Globals, DataScheme, Scheme, pfxlen_count}
use buffalo.Fib.Main.Lookups.{built_hit, built-Answering, create_filters-routes}
use buffalo.Fib.Main.Tables.{HasRoutes, read_fib-Loaded, index_all-PfxTables, index_all-Routed}
use buffalo.Fib.Main.{FibFile, no_tables, read_fib, index_all, create_filters, set_up}
use buffalo.Hashing.Draws.{NeverMax}
use buffalo.Hashing.{Pointer}
use buffalo.Prefix.{Prefix}
use buffalo.Rand.{Rand}

module _ (R : Rand) where
  open R use {srand}

  pub set_up-hash_bits :
      (malloc : ℕ → Pointer) (share : ℕ → ℕ → ℕ) (sizes : List ℤ) (datascheme : DataScheme)
      (runscheme : Scheme) (file : FibFile) (filters : List BloomFilter) (read : Globals)
      (addr falsepos : ℕ)
      → Allocates malloc
      → ((c t : ℕ) → share c t < 2 ^ 32)
      → HasRoutes datascheme file
      → read_fib datascheme runscheme file no_tables ≡ some read
      → 0 < length read.nhlist
      → length read.nhlist * pfxlen_count ≤ length filters
      → ((p : Prefix) → Elem p read.pfxlist → NeverMax R 8 (srand p.addr))
      → addr < 2 ^ 32
      → ((j : ℕ) → 0 < j → j ≤ 32 → NeverMax R 8 (srand (block addr j).addr))
      → Returns
          (λ ready. hash_bits R ready.0 ready.1 addr falsepos ≡ some falsepos)
          (set_up R malloc share sizes datascheme runscheme file filters)
  unfolding set_up index_all pfx_index
  set_up-hash_bits malloc share sizes datascheme runscheme file filters read addr falsepos alloc
        shares ok e some_nexthop room safe small blocks =
      let (n, few, r, fresh) = read_fib-Loaded datascheme runscheme file read ok e in
      let g = index_all read in
      let tables = index_all-PfxTables read n few r fresh (length filters) some_nexthop room in
      let exact =
        index_all-PfxTables read n few r fresh (length read.nhlist * pfxlen_count) some_nexthop
          (omega arith) in
      let (built, run, b) =
        create_bloom_filter_pfxlen_each_out-PfxBuilt R malloc share g filters alloc shares tables
          (λ p m. (index_all-Routed read n few r fresh p m, safe p m)) in
      let made : create_filters R malloc share sizes datascheme g filters ≡ some built =
        create_filters-routes R malloc share sizes datascheme file g filters ok ∙ run in
      (
        (g, built),
        rw (e, ◌>>=◌, made) refl,
        hash_bits-falsepos R g built (built_hit R g built) addr small
            (built-Answering R g built addr blocks b)
            (λ nh m. omega (arith, exact.indexed nh 32 m (omega arith))) falsepos,
      )
