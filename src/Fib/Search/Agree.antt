-- ===== src/Fib/Search/Agree.antt =====
-- The lookup in the filters against `linear_lookup`: they agree where no more than one next hop hits.
use native.Mathlib.Decide.{ℕ_discrete, dec_lt}
use mathlib.Core.Option.{some-injective, some-ne-none}
use buffalo.Bloom.{BloomFilter}
use buffalo.Common.{
  ℕ, ◌^◌, ◌≤◌, ◌<◌, ◌≡◌, ◌≢◌, refl, sym, ◌∙◌, ap, List, none, some, arith, true, inl, inr, ◌⊎◌,
  Elem, length, Returns,
}
use buffalo.Fib.Blocks.{block}
use buffalo.Fib.Globals.{Globals}
use buffalo.Fib.Longest.{linear_lookup-LongestBlock}
use buffalo.Fib.Search.Asked.{Answers, top, asked, Answering, ask_filters-asked}
use buffalo.Fib.Search.{Found, ask_filters}
use buffalo.Fib.{find, linear_lookup}
use buffalo.Rand.{Rand}
use buffalo.Fib.Search.Hits.{
  top-le, top-ge, top-hit, asked-bound, asked-lt, asked-single, asked-longest,
}

module _ (g : Globals) (hit : Answers) (addr : ℕ) where
  -- Every entry of the table hits its own next hop's filter.
  abbrev pub NoMiss : Type 0
  NoMiss =
      (j v : ℕ)
      → 0 < j
      → j ≤ 32
      → find g.pmap (block addr j) ≡ some v
      → Elem v g.nhlist × (hit v (block addr j) ≡ true)

  -- Every hit is an entry of the table.
  abbrev pub NoFalseHit : Type 0
  NoFalseHit =
      (j nh : ℕ)
      → 0 < j
      → j ≤ 32
      → Elem nh g.nhlist
      → hit nh (block addr j) ≡ true
      → find g.pmap (block addr j) ≡ some nh

module _ (R : Rand) (g : Globals) (filters : List BloomFilter) (hit : Answers) (addr : ℕ) where
  -- Each next hop counts once.
  pub ask_filters-bound :
      addr < 2 ^ 32
      → Answering R g filters hit addr
      → Returns (λ found. found.error ≤ length g.nhlist) (ask_filters R g filters addr)
  ask_filters-bound small answering =
      let start : Found = record { error = 0; nh = 0; hitj = 0 } in
      (
        asked hit addr g.nhlist start,
        ask_filters-asked R g filters hit addr small answering,
        omega (arith, asked-bound hit addr g.nhlist start),
      )

  module _ (small : addr < 2 ^ 32) (answering : Answering R g filters hit addr)
      (no_miss : NoMiss g hit addr) (v : ℕ) (nonzero : v ≢ 0)
      (linear : linear_lookup g.pmap addr 32 ≡ v) where
    -- Let the filters answer for a 32-bit address, and every entry of the table hit its own next
    -- hop's filter. If `linear_lookup` returns a next hop that is not 0 then at least one next hop
    -- hits, and if no more than one hits the lookup in the filters returns the same next hop.
    pub ask_filters-single :
        Returns
          (λ found. (0 < found.error) × ((1 < found.error) ⊎ (found.nh ≡ v)))
          (ask_filters R g filters addr)
    ask_filters-single =
        let (j, pos, le, found, longest) =
          linear_lookup-LongestBlock g.pmap addr small v nonzero linear in
        let (member, hits) = no_miss j v pos le found in
        let start : Found = record { error = 0; nh = 0; hitj = 0 } in
        let high = top-ge hit addr v j 32 pos le hits in
        (
          asked hit addr g.nhlist start,
          ask_filters-asked R g filters hit addr small answering,
          (
            omega (arith, asked-lt hit addr v g.nhlist start member (omega arith)),
            elim (dec_lt 1 (asked hit addr g.nhlist start).error) [
              | yes several ↦ inl several
              | no single ↦
                  inr
                    (asked-single hit addr v g.nhlist start member (omega arith) refl (omega arith))
            ],
          ),
        )

    -- A hit that is as long as the longest entry is that entry's.
    same_next_hop :
        (nh j : ℕ)
        → NoFalseHit g hit addr
        → Elem nh g.nhlist
        → 0 < j
        → find g.pmap (block addr j) ≡ some v
        → ((l : ℕ) → j < l → l ≤ 32 → find g.pmap (block addr l) ≡ none)
        → j ≤ top hit addr nh 32
        → nh ≡ v
    same_next_hop nh j exact m pos found longest le =
        let t = top hit addr nh 32 in
        let entry : find g.pmap (block addr t) ≡ some nh =
          exact t nh (omega arith) (top-le hit addr nh 32) m
            (top-hit hit addr nh 32 (omega arith)) in
        elim (ℕ_discrete t j) [
          | yes e ↦ some-injective _ _ (sym entry ∙ ap (λ l. find g.pmap (block addr l)) e ∙ found)
          | no apart ↦
              absurd (some-ne-none nh (sym entry ∙ longest t (omega arith) (top-le hit addr nh 32)))
        ]

    -- Let the filters answer for a 32-bit address, as `hit` says, every entry of the table that
    -- covers the address hit its own next hop's filter, `linear_lookup` return a next hop that is
    -- not 0, and every hit be an entry of the table with that next hop. Then the lookup in the
    -- filters returns the next hop of `linear_lookup`, however many next hops hit.
    pub ask_filters-linear_lookup :
        NoFalseHit g hit addr → Returns (λ found. found.nh ≡ v) (ask_filters R g filters addr)
    ask_filters-linear_lookup exact =
        let (j, pos, le, found, longest) =
          linear_lookup-LongestBlock g.pmap addr small v nonzero linear in
        let (member, hits) = no_miss j v pos le found in
        let start : Found = record { error = 0; nh = 0; hitj = 0 } in
        let high = top-ge hit addr v j 32 pos le hits in
        (
          asked hit addr g.nhlist start,
          ask_filters-asked R g filters hit addr small answering,
          asked-longest hit addr v g.nhlist start member nonzero (omega arith) (λ nh m.
              elim (dec_lt (top hit addr nh 32) j) [
                | yes shorter ↦ inr (omega arith)
                | no longer ↦ inl (same_next_hop nh j exact m pos found longest (omega arith))
              ]),
        )
