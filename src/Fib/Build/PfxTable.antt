-- ===== src/Fib/Build/PfxTable.antt =====
-- `create_bloom_filter_pfxlen_each_out`: the initialisation of a filter for each next hop and length.
use native.Mathlib.Decide.{ℕ_discrete}
use buffalo.Bloom.Build.{Allocates}
use buffalo.Bloom.{BloomFilter}
use buffalo.Common.Dict.{nat_key}
use buffalo.Common.{
  ℕ, ◌+◌, ◌^◌, ◌≤◌, ◌<◌, ltb, true, ◌≡◌, ◌≢◌, refl, sym, ◌∙◌, List, [], ◌∷◌, some, arith, Elem, inl,
  inr, ◌⊎◌, length, each, for, for-Returns, each-Returns, Returns, Returns-bind, ◌>>=◌,
}
use buffalo.Fib.Build.Filled.{Ready, Empty, on_filter-init}
use buffalo.Fib.Build.{pfx_count, pfx_index, total_count, init_pfx, init_pfx_filters}
use buffalo.Fib.Globals.{Globals}
use buffalo.Hashing.{Pointer}
use buffalo.Fib.Build.PfxTables.{on_filter-init_none, PfxTables}

-- The filter of a next hop and a length is initialised, with a table if there are entries.
abbrev pub Made : Globals → List BloomFilter → ℕ → ℕ → Type 0
Made g fs nh j =
    (c : ℕ) × (pfx_count g j nh ≡ some c)
    × (((0 < c) × Ready fs (pfx_index g j nh)) ⊎ ((c ≡ 0) × Empty fs (pfx_index g j nh)))

index-apart :
    (g : Globals) (n a b j k : ℕ)
    → PfxTables g n
    → Elem a g.nhlist
    → Elem b g.nhlist
    → j ≤ 32
    → k ≤ 32
    → pfx_index g j a ≡ pfx_index g k b
    → (a ≡ b) × (j ≡ k)
unfolding pfx_index
index-apart g n a b j k tables ma mb hj hk e = (tables.apart a b ma mb (omega arith), omega arith)

module _ (malloc : ℕ → Pointer) (share : ℕ → ℕ → ℕ) (g : Globals) (n : ℕ) (alloc : Allocates malloc)
    (shares : (c t : ℕ) → share c t < 2 ^ 32) (tables : PfxTables g n) where
  -- What is kept elsewhere keeps the other pairs.
  keeps :
      (nh j : ℕ) (fs gs : List BloomFilter)
      → Elem nh g.nhlist
      → j ≤ 32
      → ((k : ℕ) → pfx_index g j nh ≢ k → Ready fs k → Ready gs k)
      → ((k : ℕ) → pfx_index g j nh ≢ k → Empty fs k → Empty gs k)
      → (a k : ℕ) → Elem a g.nhlist
      → k ≤ 32
      → (a ≢ nh) ⊎ (k ≢ j)
      → Made g fs a k
      → Made g gs a k
  keeps nh j fs gs m high ready empty a k ma hk other (c, count, made) =
      let apart : pfx_index g j nh ≢ pfx_index g k a = λ e.
        let (same, level) = index-apart g n nh a j k tables m ma high hk e in
        elim other [ inl differ ↦ differ (sym same) | inr differ ↦ differ (sym level) ] in
      (
        c,
        count,
        elim made [
          | inl (pos, r) ↦ inl (pos, ready (pfx_index g k a) apart r)
          | inr (none_there, e) ↦ inr (none_there, empty (pfx_index g k a) apart e)
        ],
      )

  -- One initialisation.
  init_pfx-Made :
      (total nh j : ℕ) (fs : List BloomFilter)
      → Elem nh g.nhlist
      → 0 < j
      → j ≤ 32
      → length fs ≡ n
      → Returns
          (λ gs.
            Made g gs nh j
            × ((a k : ℕ)
                → Elem a g.nhlist
                → k ≤ 32
                → (a ≢ nh) ⊎ (k ≢ j)
                → Made g fs a k
                → Made g gs a k)
            × (length gs ≡ n))
          (init_pfx malloc share g total nh j fs)
  unfolding init_pfx
  init_pfx-Made total nh j fs m low high len =
      let (c, count) = tables.counted nh j low high in
      let i = pfx_index g j nh in
      let inside : i < length fs = omega (arith, tables.indexed nh j m high, len) in
      elim (ℕ_discrete c 0) [
        | yes e ↦
            let (gs, run, (now, ready, empty, same)) = on_filter-init_none malloc fs i 1 inside in
            (
              gs,
              rw (count, ◌>>=◌, e) run,
              ((c, count, inr (e, now)), keeps nh j fs gs m high ready empty, same ∙ len),
            )
        | no some_there ↦
            let positive : ltb 0 c ≡ true = ground (arith, some_there) in
            let (gs, run, (now, ready, empty, same)) =
              on_filter-init malloc fs i (share c total) c alloc inside (shares c total)
                (omega (arith, some_there)) in
            (
              gs,
              rw (count, ◌>>=◌, positive) run,
              (
                (c, count, inl (omega (arith, some_there), now)),
                keeps nh j fs gs m high (λ k apart. ready k) empty,
                same ∙ len,
              ),
            )
      ]

  -- The lengths of one next hop.
  init_lengths-Made :
      (total nh : ℕ) (fs : List BloomFilter)
      → Elem nh g.nhlist
      → length fs ≡ n
      → Returns
          (λ gs.
            (length gs ≡ n)
            × ((j : ℕ) → 0 < j → j ≤ 32 → Made g gs nh j)
            × ((a j : ℕ) → Elem a g.nhlist → a ≢ nh → j ≤ 32 → Made g fs a j → Made g gs a j))
          (for 32 1 (init_pfx malloc share g total nh) fs)
  init_lengths-Made total nh fs m len =
      let (gs, run, (same, made, kept)) =
        for-Returns
          (λ k gs.
            (length gs ≡ n)
            × ((j : ℕ) → 0 < j → j < k → Made g gs nh j)
            × ((a j : ℕ) → Elem a g.nhlist → a ≢ nh → j ≤ 32 → Made g fs a j → Made g gs a j))
          33 (init_pfx malloc share g total nh) 32 1 fs (omega arith)
          (λ k gs low high (same, made, kept).
            let (hs, run, (now, keep, same')) =
              init_pfx-Made total nh k gs m (omega arith) (omega arith) same in
            (
              hs,
              run,
              (
                same',
                λ j pos below. elim (ℕ_discrete j k) [
                  | yes e ↦ rw e now
                  | no other ↦
                      keep nh j m (omega arith) (inr other) (made j pos (omega (arith, other)))
                ],
                λ a j ma other hj made_a. keep a j ma hj (inl other) (kept a j ma other hj made_a),
              ),
            ))
          (len, (λ j pos below. absurd (omega arith)), (λ a j ma other hj made. made)) in
      (gs, run, (same, (λ j pos hj. made j pos (omega arith)), kept))

  -- The next hops that are not to come.
  init_nexthops-Made :
      (total : ℕ) (todo : List ℕ) (fs : List BloomFilter)
      → ((a : ℕ) → Elem a todo → Elem a g.nhlist)
      → length fs ≡ n
      → ((a j : ℕ) → Elem a g.nhlist → 0 < j → j ≤ 32 → Elem a todo ⊎ Made g fs a j)
      → Returns
          (λ gs. (length gs ≡ n) × ((a j : ℕ) → Elem a g.nhlist → 0 < j → j ≤ 32 → Made g gs a j))
          (each todo (λ nh. for 32 1 (init_pfx malloc share g total nh)) fs)
  unfolding each
  init_nexthops-Made total [] fs part len settled = (
    fs,
    refl,
    (
      len,
      λ a j m pos hj. elim (settled a j m pos hj) [
        | inl none_left ↦ absurd none_left
        | inr made ↦ made
      ],
    ),
  )
  init_nexthops-Made total (nh ∷ todo) fs part len settled =
      Returns-bind (init_lengths-Made total nh fs (part nh (inl refl)) len) λ gs (same, made, kept).
        init_nexthops-Made total todo gs (λ a m. part a (inr m)) same
          (λ a j m pos hj. elim (ℕ_discrete a nh) [
            | yes e ↦ inr (rw e (made j pos hj))
            | no other ↦ elim (settled a j m pos hj) [
              | inl todo_a ↦ elim todo_a [ inl e ↦ absurd (other e) | inr later ↦ inl later ]
              | inr made_a ↦ inr (kept a j m other hj made_a)
            ]
          ])

  -- All initialisations end, and each filter is as its count says.
  pub init_pfx_filters-Made :
      (total : ℕ) (fs : List BloomFilter)
      → length fs ≡ n
      → Returns
          (λ gs. (length gs ≡ n) × ((a j : ℕ) → Elem a g.nhlist → 0 < j → j ≤ 32 → Made g gs a j))
          (init_pfx_filters malloc share g total fs)
  unfolding init_pfx_filters
  init_pfx_filters-Made total fs len =
      init_nexthops-Made total g.nhlist fs (λ a m. m) len (λ a j m pos hj. inl m)

  -- The sum of the counts is made.
  pub total_count-Returns : Returns (λ t. 0 ≤ t) (total_count g)
  unfolding total_count
  total_count-Returns =
      each-Returns (λ xs t. 0 ≤ t) _ g.nhlist 0
        (λ nh rest t p.
          for-Returns (λ k u. 0 ≤ u) 33 _ 32 1 t (omega arith)
            (λ k u low high q.
              let (c, count) = tables.counted nh k (omega arith) (omega arith) in
              (u + c, rw (count, ◌>>=◌) refl, omega arith))
            p)
        (omega arith)
