-- ===== src/Fib/Build/PfxBuilt.antt =====
-- `create_bloom_filter_pfxlen_each_out`: what the filters answer when all prefixes are inserted.
use mathlib.Core.Option.{some-injective}
use buffalo.Bloom
use buffalo.Bloom.Build.{Allocates}
use buffalo.Bloom.{BloomFilter, insert_seed}
use buffalo.Common.Dict.{value}
use buffalo.Common.{
  ℕ, ◌^◌, ◌≤◌, ◌<◌, ◌==◌, false, ◌≡◌, sym, ◌∙◌, refl, List, some, arith, Elem, inl, inr, ◌⊎◌,
  length, Returns, ◌>>=◌,
}
use buffalo.Fib.Build.Filled.{Ready, Empty, Has}
use buffalo.Fib.Build.Inserts.{insert_each}
use buffalo.Fib.Build.PfxTable.{Made, init_pfx_filters-Made, total_count-Returns}
use buffalo.Fib.Build.PfxTables.{PfxTables}
use buffalo.Fib.Build.{
  pfx_count, pfx_index, divided, insert_pfx, insert_pfx_list, create_bloom_filter_pfxlen_each_out,
}
use buffalo.Fib.Globals.{Globals}
use buffalo.Hashing.Draws.{NeverMax}
use buffalo.Hashing.{Pointer}
use buffalo.Prefix.Equal.{prefix_key}
use buffalo.Prefix.{Prefix}
use buffalo.Rand.{Rand}

-- A prefix of the list has a length from 1 to 32, a next hop of the set, and is counted there.
pub record Routed (g : Globals) (p : Prefix) : Type 0 where
  pub positive : 0 < p.len
  pub short : p.len ≤ 32
  pub member : Elem (value g.pmap p) g.nhlist
  pub counted : (c : ℕ) × (pfx_count g p.len (value g.pmap p) ≡ some c) × (0 < c)

module _ (R : Rand) where
  open R use {srand}

  -- What the table promises after it is built.
  pub record PfxBuilt (g : Globals) (built : List BloomFilter) : Type 0 where
    pub answers :
        (nh j : ℕ)
        → Elem nh g.nhlist
        → 0 < j
        → j ≤ 32
        → Ready built (pfx_index g j nh) ⊎ Empty built (pfx_index g j nh)
    pub has :
        (p : Prefix) → Elem p g.pfxlist → Has R built (pfx_index g p.len (value g.pmap p)) p.addr

  Made-Ready :
      (g : Globals) (fs : List BloomFilter) (p : Prefix)
      → Routed g p
      → Made g fs (value g.pmap p) p.len
      → Ready fs (pfx_index g p.len (value g.pmap p))
  Made-Ready g fs p r (c, count, made) =
      let (c', count', positive) = r.counted in
      elim made [
        | inl (pos, ready) ↦ ready
        | inr (none_there, e) ↦
            absurd (omega (arith, some-injective _ _ (sym count ∙ count'), none_there, positive))
      ]

  pub create_bloom_filter_pfxlen_each_out-PfxBuilt :
      (malloc : ℕ → Pointer) (share : ℕ → ℕ → ℕ) (g : Globals) (filters : List BloomFilter)
      → Allocates malloc
      → ((c t : ℕ) → share c t < 2 ^ 32)
      → PfxTables g (length filters)
      → ((p : Prefix) → Elem p g.pfxlist → Routed g p × NeverMax R 8 (srand p.addr))
      → Returns (PfxBuilt g) (create_bloom_filter_pfxlen_each_out R malloc share g filters)
  unfolding create_bloom_filter_pfxlen_each_out insert_pfx_list insert_pfx divided
      Bloom.insert_prefix
  create_bloom_filter_pfxlen_each_out-PfxBuilt malloc share g filters alloc shares tables good =
      let n = length filters in
      let (total, summed, sum) = total_count-Returns malloc share g n alloc shares tables in
      let (fs, run, (len, made)) =
        init_pfx_filters-Made malloc share g n alloc shares tables total filters refl in
      let at_p : Prefix → ℕ = λ p. pfx_index g p.len (value g.pmap p) in
      let (built, run', (grows, has)) =
        insert_each R at_p (λ p. p.addr) g.pfxlist fs
          (λ p m.
            let (r, safe) = good p m in
            (
              Made-Ready g fs p r (made (value g.pmap p) p.len r.member r.positive r.short),
              safe,
            )) in
      let apart : (length g.nhlist == 0) ≡ false = ground (arith, tables.some_nexthop) in
      (
        built,
        rw (summed, run, apart, ◌>>=◌) run',
        record {
          answers = λ nh j m pos short.
              let (c, count, ready) = made nh j m pos short in
              elim ready [
                | inl (some_there, r) ↦ inl (grows.ready (pfx_index g j nh) r)
                | inr (none_there, e) ↦ inr (grows.empty (pfx_index g j nh) e)
              ];
          has = has;
        },
      )
