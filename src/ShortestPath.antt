-- ===== src/ShortestPath.antt =====
-- util.c: `calc_shortest_path`, Floyd's algorithm over an n by n table, with the classes
-- `ShortestPath` and `Link` of util.h.
-- A length is a double that holds a natural number, as the weights of conext/1239.bof are. A sum
-- below 2^53 is exact; one that may be rounded is left out, as `none`.
pub mod Round
pub mod Closure
pub mod Setup
pub mod Steps
pub mod Hops
pub mod Links
use buffalo.Common.{
  ℕ, ◌+◌, ◌*◌, ◌^◌, ◌==◌, ltb, if◌then◌else◌, List, Option, none, some, get_elem?, set, length, for,
  ◌>>=◌,
}

-- `length` is a double that holds a natural number, and those that are computed are below 2^53:
-- see `relax`. `next` is `none` where the source has -1.
pub record Entry : Type 0 where
  pub length : ℕ
  pub next : Option ℕ

-- An end is `none` where the source has -1.
pub record Link : Type 0 where
  pub from : Option ℕ
  pub to : Option ℕ
  pub weight : ℕ

abbrev pub infinity : ℕ
infinity = 999_999_999

-- `*(spath + i) = e`; out of bounds is undefined.
unfoldable pub store : List Entry → ℕ → Entry → Option (List Entry)
store t i e = if ltb i (length t) then some (set t i e) else none

unfoldable pub first_entry : ℕ → ℕ → Entry
first_entry i j =
    if i == j
    then record { length = 0; next = some i }
    else record { length = infinity; next = none }

-- The first two nested loops.
unfoldable pub clear_table : ℕ → List Entry → Option (List Entry)
clear_table n = for n 0 λ i. for n 0 λ j t. store t (i * n + j) (first_entry i j)

-- One round of the loop over the links: both directions take the weight.
unfoldable pub add_link : ℕ → Link → List Entry → Option (List Entry)
add_link n l t = elim l.from [
  | none ↦ elim l.to [ none ↦ some t | some j ↦ none ]
  | some i ↦ elim l.to [
    | none ↦ none
    | some j ↦ do
      u ← store t (i * n + j) (record { length = l.weight; next = some j })
      store u (j * n + i) (record { length = l.weight; next = some i })
  ]
]

unfoldable pub add_links : ℕ → ℕ → List Link → List Entry → Option (List Entry)
add_links n m link = for m 0 λ k t. do l ← get_elem? link k; add_link n l t

-- The body of the last three nested loops.
unfoldable pub relax : ℕ → ℕ → ℕ → ℕ → List Entry → Option (List Entry)
relax n k i j t = do
  ik ← get_elem? t (i * n + k)
  kj ← get_elem? t (k * n + j)
  ij ← get_elem? t (i * n + j)
  let sum = ik.length + kj.length
  let improved = store t (i * n + j) (record { length = sum; next = ik.next })
  if ltb sum (2 ^ 53) then (if ltb sum ij.length then improved else some t) else none

unfoldable pub round : ℕ → ℕ → List Entry → Option (List Entry)
unfolding relax
round n k = for n 0 λ i. for n 0 λ j. relax n k i j

unfoldable pub floyd : ℕ → List Entry → Option (List Entry)
unfolding round
floyd n = for n 0 λ k. round n k

unfoldable pub calc_shortest_path : List Entry → ℕ → ℕ → List Link → Option (List Entry)
unfolding clear_table add_links floyd
calc_shortest_path spath n m link = do
  cleared ← clear_table n spath
  linked ← add_links n m link cleared
  floyd n linked
