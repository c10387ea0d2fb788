-- ===== src/Fib/Main/Sampled.antt =====
-- A file of prefixes, from the reading to the end of the sampling of a file of packets.
use buffalo.Bloom.Build.{Allocates}
use buffalo.Bloom.{BloomFilter}
use buffalo.Common.Int.{ℤ}
use buffalo.Common.{
  ℕ, ◌*◌, ◌^◌, ◌≤◌, ◌<◌, ◌≡◌, refl, ◌∙◌, List, [], some, arith, Elem, length, Returns, ◌>>=◌,
}
use buffalo.Fib.Blocks.{block}
use buffalo.Fib.Build.PfxBuilt.{create_bloom_filter_pfxlen_each_out-PfxBuilt}
use buffalo.Fib.Globals.{Globals, DataScheme, Scheme, pfxlen_count}
use buffalo.Fib.Main.Lookups.{built_hit, built-Answering, built-NoMiss, create_filters-routes}
use buffalo.Fib.Main.Tables.{HasRoutes, read_fib-Loaded, index_all-PfxTables, index_all-Routed}
use buffalo.Fib.Main.{FibFile, no_tables, read_fib, index_all, create_filters, set_up}
use buffalo.Fib.Perform.Agreement.{drawn, sample_loop-file}
use buffalo.Fib.Perform.Judged.{IsFile}
use buffalo.Fib.Perform.{Sampling, sample_loop}
use buffalo.Hashing.Draws.{NeverMax}
use buffalo.Hashing.Iterate.{All}
use buffalo.Hashing.{Pointer}
use buffalo.Prefix.{Prefix}
use buffalo.Rand.{Rand}

-- The variables before the sampling.
abbrev pub begin : List ℕ → ℕ → ℕ → Sampling
begin packets xseed packet_count = record {
  packets = packets;
  xseed = xseed;
  packet_count = packet_count;
  i = 0;
  falsepos = 0;
  falseneg = 0;
  maxerror = 0;
  avgerror = 0;
  detail = [];
  correct = [];
}

module _ (R : Rand) where
  open R use {srand}

  -- A 32-bit address whose leading bits, at every length, are a seed that draws no `RAND_MAX`.
  abbrev Drawable : ℕ → Type 0
  Drawable addr =
      (addr < 2 ^ 32) × ((j : ℕ) → 0 < j → j ≤ 32 → NeverMax R 8 (srand (block addr j).addr))

  -- For a file of fewer than 2^31 prefixes, none of length 0, that is read for FUNET or Internet2
  -- to a table with a next hop, with 33 filters or more for each next hop, memory for the tables,
  -- sizes below 2^32, and a file of packets whose number times that of the next hops is below 2^31,
  -- where the addresses fetched are below 2^32, and neither the prefixes kept nor the leading bits
  -- of those addresses, as seeds, give `RAND_MAX` among eight draws: the tables and filters are
  -- built and the sampling of the packets ends, with at most one round more than there are packets;
  -- it counts no more disagreements with `linear_lookup` than addresses at which several next hops
  -- hit, and no more of these than packets.
  pub set_up-sample_loop :
      (mixed : ℕ → ℕ → ℕ) (malloc : ℕ → Pointer) (share : ℕ → ℕ → ℕ) (sizes : List ℤ)
      (datascheme : DataScheme) (runscheme : Scheme) (file : FibFile) (filters : List BloomFilter)
      (read : Globals) (fuel xseed packet_count : ℕ) (packets : List ℕ)
      → Allocates malloc
      → ((c t : ℕ) → share c t < 2 ^ 32)
      → HasRoutes datascheme file
      → IsFile datascheme
      → read_fib datascheme runscheme file no_tables ≡ some read
      → 0 < length read.nhlist
      → length read.nhlist * pfxlen_count ≤ length filters
      → ((p : Prefix) → Elem p read.pfxlist → NeverMax R 8 (srand p.addr))
      → All Drawable (drawn R mixed datascheme xseed packets)
      → length packets < fuel
      → length packets * length read.nhlist < 2 ^ 31
      → Returns
          (λ t. (t.falseneg ≤ t.falsepos) × (t.falsepos ≤ length packets))
          (do
            ready ← set_up R malloc share sizes datascheme runscheme file filters
            sample_loop R mixed ready.0 ready.1 fuel datascheme (begin packets xseed packet_count))
  unfolding set_up index_all
  set_up-sample_loop mixed malloc share sizes datascheme runscheme file filters read fuel xseed
        packet_count packets alloc shares ok is_file e some_nexthop room safe good enough hits =
      let (n, few, r, fresh) = read_fib-Loaded datascheme runscheme file read ok e in
      let g = index_all read in
      let tables = index_all-PfxTables read n few r fresh (length filters) some_nexthop room in
      let (built, run, b) =
        create_bloom_filter_pfxlen_each_out-PfxBuilt R malloc share g filters alloc shares tables
          (λ p m. (index_all-Routed read n few r fresh p m, safe p m)) in
      let made : create_filters R malloc share sizes datascheme g filters ≡ some built =
        create_filters-routes R malloc share sizes datascheme file g filters ok ∙ run in
      let (t, run', p) =
        sample_loop-file R mixed g built (built_hit R g built) Drawable (λ addr fine. fine.0)
          (λ addr fine. built-Answering R g built addr fine.1 b)
          (λ addr fine. built-NoMiss R g built addr fine.1 r.listed r.member b) fuel datascheme
          packets (begin packets xseed packet_count) refl enough is_file good (omega arith)
          (omega (arith, hits)) (omega arith) in
      (t, rw (e, ◌>>=◌, made) run', (p.0, omega (arith, p.1)))
