-- ===== src/Tests/Networks.antt =====
-- A network of three nodes in a line, with a direct link that is longer.
use buffalo.Common.{
  ℕ, ◌≡◌, ◌≤◌, ◌⊎◌, refl, List, [], ◌∷◌, none, some, arith, replicate, length, Returns,
}
use buffalo.ShortestPath.Closure.{Walk, step, join}
use buffalo.ShortestPath.Round.{at}
use buffalo.ShortestPath.Setup.{
  AllExact, AllInRange, links_table, put_links, put_link, calc_shortest_path-le,
}
use buffalo.ShortestPath.Links.{LinkWalk, calc_shortest_path-LinkWalk}
use buffalo.ShortestPath.{Entry, Link, infinity, first_entry, calc_shortest_path}

abbrev pub link : ℕ → ℕ → ℕ → Link
link i j w = record { from = some i; to = some j; weight = w }

abbrev links : List Link
links = link 0 1 2 ∷ link 1 2 3 ∷ link 0 2 9 ∷ record { from = none; to = none; weight = 0 } ∷ []

abbrev pub old_table : List Entry
old_table = replicate 9 (record { length = 5; next = none })

links-AllInRange : AllInRange 3 links
links-AllInRange = (
  (omega arith, omega arith),
  ((omega arith, omega arith), ((omega arith, omega arith), (tt, tt))),
)

links-AllExact : AllExact links
links-AllExact = (omega arith, (omega arith, (omega arith, (omega arith, tt))))

through_middle : Walk (links_table 4 links) 3 0 2 5 (some 1)
unfolding put_links put_link first_entry
through_middle =
    join 1 2 3 (some 2) (omega arith) (step (omega arith) (omega arith) refl refl)
      (step (omega arith) (omega arith) refl refl) refl

calc_shortest_path-le_example :
    Returns (λ u. (at u 3 0 2).length ≤ 5) (calc_shortest_path old_table 3 4 links)
calc_shortest_path-le_example =
    calc_shortest_path-le old_table 3 4 links 0 2 5 (some 1) refl (omega arith) links-AllInRange
      links-AllExact (omega arith) (omega arith) through_middle

-- The same without the deleted link.
abbrev kept : List Link
kept = link 0 1 2 ∷ link 1 2 3 ∷ link 0 2 9 ∷ []

calc_shortest_path-LinkWalk_example :
    Returns
      (λ u.
        (length u ≡ 9)
        × (((at u 3 0 2).length ≡ infinity)
            ⊎ ((h : ℕ) × ((at u 3 0 2).next ≡ some h)
                × LinkWalk (links_table 3 kept) 3 0 2 (at u 3 0 2).length h)))
      (calc_shortest_path old_table 3 3 kept)
calc_shortest_path-LinkWalk_example =
    calc_shortest_path-LinkWalk old_table 3 3 kept 0 2 refl (omega arith) (ground arith)
      (ground arith) (omega arith) (omega arith)
