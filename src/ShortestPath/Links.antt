-- ===== src/ShortestPath/Links.antt =====
-- The lengths and next hops are those of walks over links that are there.
use buffalo.Common.{
  ℕ, ◌+◌, ◌*◌, ◌≤◌, ◌<◌, ◌≡◌, ◌⊎◌, inl, inr, ◌∙◌, List, Option, Option-cases, some, arith, length,
  Returns,
}
use native.Mathlib.Decide.{dec_lt}
use buffalo.ShortestPath.Closure.{Walk, step, join, after, after-le, after-Walk}
use buffalo.ShortestPath.Round.{at}
use buffalo.ShortestPath.Setup.{AllInRange, Reads, links_table, calc_shortest_path-after}
use buffalo.ShortestPath.{Entry, Link, infinity, first_entry, calc_shortest_path}
use buffalo.ShortestPath.Steps.{
  AllWeighted, AllWeighted-AllExact, Steps, first_entry-Steps, put_links-Steps,
}

-- `LinkWalk d n i j c h`: a walk from `i` to `j` of the length `c` and the first step `h`, each
-- step of which is an entry of the table `d` that has a next hop.
pub data LinkWalk (d : ℕ → ℕ → Entry) (n : ℕ) : ℕ → ℕ → ℕ → ℕ → Type 0 where
  over :
      {i j h : ℕ} (c : ℕ)
      → i < n
      → j < n
      → c ≡ (d i j).length
      → (d i j).next ≡ some h
      → LinkWalk d n i j c h
  onward :
      {i j c h : ℕ} (k c' c'' h' : ℕ)
      → k < n
      → LinkWalk d n i k c' h
      → LinkWalk d n k j c'' h'
      → c ≡ c' + c''
      → LinkWalk d n i j c h

-- A walk that is shorter than a missing link is over links.
Walk-LinkWalk :
    (d : ℕ → ℕ → Entry) (n : ℕ) (s : Steps d) {i j c : ℕ} {first : Option ℕ}
    → Walk d n i j c first
    → c < infinity
    → (h : ℕ) × (first ≡ some h) × LinkWalk d n i j c h
Walk-LinkWalk d n s {i} {j} {c} (step hi hj e f) short = elim (Option-cases (d i j).next) [
  | inl missing ↦ absurd (omega (arith, s.unlinked i j missing, e, short))
  | inr (h, there) ↦ (h, f ∙ there, over c hi hj e there)
]
Walk-LinkWalk d n s (join k c' c'' h' hk left right e) short =
    let (h, first, walk) = Walk-LinkWalk d n s left (omega (arith, e, short)) in
    let (h2, _, walk') = Walk-LinkWalk d n s right (omega (arith, e, short)) in
    (h, first, onward k c' c'' h2 hk walk walk' e)

-- For a table of n * n entries and at least m links whose ends are below n, or both deleted, and
-- whose weights are positive and below 999999999, `calc_shortest_path` ends inside the table,
-- whatever the table held; between two nodes below n the length is then 999999999, or that of a
-- walk of which every step is a link or stays at its node, and whose first step is `next`.
pub calc_shortest_path-LinkWalk :
    (spath : List Entry) (n m : ℕ) (ls : List Link) (i j : ℕ)
    → length spath ≡ n * n
    → m ≤ length ls
    → AllInRange n ls
    → AllWeighted ls
    → i < n
    → j < n
    → Returns
        (λ u.
          (length u ≡ n * n)
          × (((at u n i j).length ≡ infinity)
              ⊎ ((h : ℕ) × ((at u n i j).next ≡ some h)
                  × LinkWalk (links_table m ls) n i j (at u n i j).length h)))
        (calc_shortest_path spath n m ls)
unfolding Reads
calc_shortest_path-LinkWalk spath n m ls i j width le ok weighted hi hj =
    let d = links_table m ls in
    let s : Steps d = put_links-Steps m ls first_entry weighted first_entry-Steps in
    let (v, run, (width', cells)) =
      calc_shortest_path-after spath n m ls width le ok (AllWeighted-AllExact ls weighted) in
    (
      v,
      run,
      (
        width',
        rw (cells i j hi hj) (elim (dec_lt (after d n i j).length infinity) [
          | yes short ↦ inr (Walk-LinkWalk d n s (after-Walk d n n i j (omega arith) hi hj) short)
          | no long ↦ inl (omega (arith, long, after-le d n i j, s.bounded i j))
        ]),
      ),
    )
