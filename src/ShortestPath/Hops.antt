-- ===== src/ShortestPath/Hops.antt =====
-- Where the next hops lead: each is a neighbour that is nearer to the end.
use native.Mathlib.Decide.{ℕ_discrete}
use buffalo.Common.{
  ℕ, zero, suc, ◌+◌, ◌*◌, ◌≤◌, ◌<◌, ltb, ltb→lt, true, ◌≡◌, ◌≢◌, refl, sym, ap, ◌∙◌, subst, List,
  Option, none, some, arith, length, Returns, Bool-cases, Option-cases, inl, inr, ◌⊎◌,
}
use buffalo.ShortestPath.Closure.{
  Walk, step, join, after, after-le, after-le-Walk, after-Walk, after-triangle,
}
use buffalo.ShortestPath.Round.{at, relaxed-better, relaxed-worse}
use buffalo.ShortestPath.Setup.{AllInRange, Reads, links_table, calc_shortest_path-after}
use buffalo.ShortestPath.{Entry, Link, infinity, first_entry, calc_shortest_path}
use buffalo.ShortestPath.Steps.{
  AllWeighted, AllWeighted-AllExact, Steps, first_entry-Steps, put_links-Steps,
}

module _ (d : ℕ → ℕ → Entry) (n : ℕ) (s : Steps d) where
  -- A walk without a first step is as long as a missing link.
  Walk-none : {i j c : ℕ} {h : Option ℕ} → Walk d n i j c h → h ≡ none → infinity ≤ c
  Walk-none {i} {j} (step hi hj e f) missing = omega (arith, s.unlinked i j (sym f ∙ missing), e)
  Walk-none (join k c' c'' h' hk left right e) missing = omega (arith, Walk-none left missing, e)

  -- The first step of a walk to a node, and the walk from there on.
  Walk-head :
      {i j c : ℕ} {h : Option ℕ} (k : ℕ)
      → Walk d n i j c h
      → h ≡ some k
      → (k < n)
        × (((k ≡ j) × (c ≡ (d i k).length))
            ⊎ ((c2 : ℕ) × (h2 : Option ℕ) × Walk d n k j c2 h2 × (c ≡ (d i k).length + c2)))
  Walk-head {i} {j} k (step hi hj e f) there =
      let last = s.next_is i j k (sym f ∙ there) in
      (rw last hj, inl (last, e ∙ ap (λ x. (d i x).length) (sym last)))
  Walk-head {i} {j} k (join l c' c'' h' hl left right e) there =
      let (hk, first) = Walk-head k left there in
      (
        hk,
        elim first [
          | inl (last, whole) ↦
              inr (
                c'',
                h',
                subst (λ x. Walk d n x j c'' h') (sym last) right,
                omega (arith, e, whole),
              )
          | inr (c2, h2, rest, whole) ↦
              inr (c2 + c'', h2, join l c2 c'' h' hl rest right refl, omega (arith, e, whole))
        ],
      )

  -- What the rounds keep: a next hop leads away, over a path of links.
  after-away :
      (m a b k : ℕ)
      → a ≢ b
      → (after d m a b).next ≡ some k
      → (k ≢ a) × ((after d m a b).length < infinity)
  unfolding after
  after-away zero a b k apart e = (λ same. apart (sym same ∙ s.next_is a b k e), s.linked a b k e)
  after-away (suc m) a b k apart e =
      let t = after d m in
      elim (Bool-cases (ltb ((t a m).length + (t m b).length) (t a b).length)) [
        | inl better ↦
            let now = relaxed-better t m a b better in
            let through : a ≢ m = λ same. absurd (
              let worse : ltb ((t a a).length + (t a b).length) (t a b).length ≡ true =
                subst (λ x. ltb ((t a x).length + (t x b).length) (t a b).length ≡ true) (sym same)
                  better in
              ground (arith, worse)) in
            let (away, short) = after-away m a m k through (ap (λ x. x.next) (sym now) ∙ e) in
            (
              away,
              rw now (
                  omega (
                    arith,
                    ltb→lt ((t a m).length + (t m b).length) (t a b).length better,
                    after-le d m a b,
                    s.bounded a b,
                  )),
            )
        | inr worse ↦
            let now = relaxed-worse t m a b worse in
            let (away, short) = after-away m a b k apart (ap (λ x. x.next) (sym now) ∙ e) in
            (away, rw now short)
      ]

-- Two nodes are apart.
after-positive : (d : ℕ → ℕ → Entry) (m i j : ℕ) → Steps d → i ≢ j → 0 < (after d m i j).length
unfolding after
after-positive d zero i j s apart = s.positive i j apart
after-positive d (suc m) i j s apart =
    let t = after d m in
    elim (Bool-cases (ltb ((t i m).length + (t m j).length) (t i j).length)) [
      | inl better ↦ rw (relaxed-better t m i j better) (elim (ℕ_discrete i m) [
        | yes e ↦ omega (arith, after-positive d m m j s (λ q. apart (e ∙ q)))
        | no away ↦ omega (arith, after-positive d m i m s away)
      ])
      | inr worse ↦ rw (relaxed-worse t m i j worse) (after-positive d m i j s apart)
    ]

-- A next hop other than the end is a node that is nearer to the end by the length of the step, and
-- it has a next hop in turn.
pub record NextHops (t : List Entry) (n : ℕ) : Type 0 where
  pub width : length t ≡ n * n
  pub short :
      (i j k : ℕ)
      → i < n
      → j < n
      → i ≢ j
      → (at t n i j).next ≡ some k
      → (0 < (at t n i j).length) × ((at t n i j).length < infinity)
  pub nearer :
      (i j k : ℕ)
      → i < n
      → j < n
      → i ≢ j
      → k ≢ j
      → (at t n i j).next ≡ some k
      → (k < n)
        × (0 < (at t n i k).length)
        × ((at t n i j).length ≡ (at t n i k).length + (at t n k j).length)
        × ((h : ℕ) × ((at t n k j).next ≡ some h))

after-nearer :
    (d : ℕ → ℕ → Entry) (n i j k : ℕ)
    → Steps d
    → i < n
    → j < n
    → i ≢ j
    → k ≢ j
    → (after d n i j).next ≡ some k
    → (k < n)
      × (0 < (after d n i k).length)
      × ((after d n i j).length ≡ (after d n i k).length + (after d n k j).length)
      × ((h : ℕ) × ((after d n k j).next ≡ some h))
after-nearer d n i j k s hi hj apart more e =
    let (away, short) = after-away d n s n i j k apart e in
    let (hk, first) = Walk-head d n s k (after-Walk d n n i j (omega arith) hi hj) e in
    let positive = s.positive i k (λ q. away (sym q)) in
    elim first [
      | inl (last, _) ↦ absurd (more last)
      | inr (c2, h2, rest, whole) ↦
          let one_step = after-le d n i k in
          let left = after-le-Walk d n rest in
          let triangle = after-triangle d n k i j hk in
          (
            hk,
            omega (arith, one_step, left, triangle, whole, positive),
            omega (arith, one_step, left, triangle, whole),
            elim (Option-cases (after d n k j).next) [
              | inl missing ↦ absurd (
                  omega (
                    arith,
                    Walk-none d n s (after-Walk d n n k j (omega arith) hk hj) missing,
                    short,
                    one_step,
                    left,
                    triangle,
                    whole,
                  ))
              | inr there ↦ there
            ],
          )
    ]

-- For a table of n * n entries and at least m links whose ends are below n, or both deleted, and
-- whose weights are positive and below 999999999, `calc_shortest_path` ends; in the table that it
-- leaves, nodes with a next hop are apart by a positive length below 999999999, and a next hop that is not yet the end is a node that is nearer to the end, by just the
-- length of the step to it, and has a next hop in turn.
pub calc_shortest_path-NextHops :
    (spath : List Entry) (n m : ℕ) (ls : List Link)
    → length spath ≡ n * n
    → m ≤ length ls
    → AllInRange n ls
    → AllWeighted ls
    → Returns (λ u. NextHops u n) (calc_shortest_path spath n m ls)
unfolding Reads
calc_shortest_path-NextHops spath n m ls width le ok weighted =
    let d = links_table m ls in
    let steps : Steps d = put_links-Steps m ls first_entry weighted first_entry-Steps in
    let (v, run, (width', cells)) =
      calc_shortest_path-after spath n m ls width le ok (AllWeighted-AllExact ls weighted) in
    (
      v,
      run,
      record {
        width = width';
        short = λ i j k hi hj apart e.
            let ij = cells i j hi hj in
            let (_, short) = after-away d n steps n i j k apart (ap (λ x. x.next) (sym ij) ∙ e) in
            (rw ij (after-positive d n i j steps apart), rw ij short);
        nearer = λ i j k hi hj apart more e.
            let ij = cells i j hi hj in
            let (hk, positive, sum, (h, there)) =
              after-nearer d n i j k steps hi hj apart more (ap (λ x. x.next) (sym ij) ∙ e) in
            let ik = cells i k hi hk in
            let kj = cells k j hk hj in (hk, rw ik positive, rw (ij, ik, kj) sum, (h, rw kj there));
      },
    )
