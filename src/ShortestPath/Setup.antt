-- ===== src/ShortestPath/Setup.antt =====
-- The table that the links give, and what `calc_shortest_path` makes of it.
use buffalo.Common.{
  ℕ, zero, suc, ◌+◌, ◌*◌, ◌^◌, ◌≤◌, ◌<◌, ◌==◌, ltb, if◌then◌else◌, ◌≡◌, refl, sym, ◌&&◌, ◌||◌, List,
  [], ◌∷◌, Option, none, some, arith, get_elem?, length, take, Option-cases, inl, inr, subst, true,
  ap, for-Returns, Returns, ◌>>=◌,
}
use mathlib.Core.Option.{some-injective}
use buffalo.ShortestPath.Closure.{Walk, after, after-le-Walk, floyd-after}
use buffalo.ShortestPath.Round.{at, store-at}
use buffalo.ShortestPath.{
  Entry, Link, first_entry, clear_table, add_link, add_links, calc_shortest_path, store,
}

-- The entry that `clear_table` leaves at row `i`, column `j`, whatever was there.
record Cleared (n i j : ℕ) (t : List Entry) : Type 0 where
  width : length t ≡ n * n
  cells :
      (a b : ℕ)
      → a < n
      → b < n
      → (ltb a i || (a == i && ltb b j)) ≡ true
      → at t n a b ≡ first_entry a b

clear_cell :
    (n i j : ℕ) (t : List Entry)
    → i < n
    → j < n
    → Cleared n i j t
    → Returns (Cleared n i (suc j)) (store t (i * n + j) (first_entry i j))
clear_cell n i j t hi hj p =
    let (u, run, (width, cells)) = store-at t n i j (first_entry i j) p.width hi hj in
    (
      u,
      run,
      record { width = width; cells = λ a b ha hb done. ground (arith, cells a b, p.cells a b) },
    )

clear_row : (n i : ℕ) (t : List Entry) → Cleared n i n t → Cleared n (suc i) 0 t
clear_row n i t p = record {
  width = p.width;
  cells = λ a b ha hb done. ground (arith, p.cells a b);
}

clear_table-first :
    (n : ℕ) (t : List Entry)
    → length t ≡ n * n
    → Returns
        (λ u. (length u ≡ n * n) × ((a b : ℕ) → a < n → b < n → at u n a b ≡ first_entry a b))
        (clear_table n t)
unfolding clear_table
clear_table-first n t width =
    let (u, run, p) =
      for-Returns (λ i. Cleared n i 0) n _ n 0 t (omega arith)
        (λ i v lo hi q.
          let (w, run, r) =
            for-Returns (Cleared n i) n _ n 0 v (omega arith)
              (λ j x lo' hj. clear_cell n i j x hi hj) q in
          (w, run, clear_row n i w r))
        (record { width = width; cells = λ a b ha hb done. ground arith }) in
    (u, run, (p.width, λ a b ha hb. p.cells a b ha hb (ground arith)))

-- Both ends are nodes, or the link is deleted: both are -1.
abbrev pub InRange : ℕ → Link → Type 0
InRange n l = elim l.from [
  | none ↦ elim l.to [ none ↦ Unit {0} | some j ↦ ⊥ ]
  | some i ↦ elim l.to [ none ↦ ⊥ | some j ↦ (i < n) × (j < n) ]
]

abbrev pub AllInRange : ℕ → List Link → Type 0
AllInRange n [] = Unit
AllInRange n (l ∷ ls) = InRange n l × AllInRange n ls

-- A link sets both of its entries, and a later link overrides an earlier one.
unfoldable pub put_link : Link → (ℕ → ℕ → Entry) → ℕ → ℕ → Entry
put_link l d a b = elim l.from [
  | none ↦ d a b
  | some i ↦ elim l.to [
    | none ↦ d a b
    | some j ↦
        if a == j && b == i
        then record { length = l.weight; next = some i }
        else if a == i && b == j
        then record { length = l.weight; next = some j }
        else d a b
  ]
]

-- The entries that the links give, from those of an empty network.
unfoldable pub put_links : List Link → (ℕ → ℕ → Entry) → ℕ → ℕ → Entry
put_links [] d = d
put_links (l ∷ ls) d = put_links ls (put_link l d)

unfoldable pub Reads : ℕ → (ℕ → ℕ → Entry) → List Entry → Type 0
Reads n d t = (length t ≡ n * n) × ((a b : ℕ) → a < n → b < n → at t n a b ≡ d a b)

add_link-Reads_ends :
    (n : ℕ) (from to : Option ℕ) (w : ℕ) (d : ℕ → ℕ → Entry) (t : List Entry)
    → let l : Link = record { from = from; to = to; weight = w } in
      InRange n l → Reads n d t → Returns (Reads n (put_link l d)) (add_link n l t)
unfolding add_link put_link Reads
add_link-Reads_ends n none none w d t ok p = (t, refl, p)
add_link-Reads_ends n none (some j) w d t ok p = absurd ok
add_link-Reads_ends n (some i) none w d t ok p = absurd ok
add_link-Reads_ends n (some i) (some j) w d t ok p =
    let (u, run, (width, cells)) =
      store-at t n i j (record { length = w; next = some j }) p.0 ok.0 ok.1 in
    let (v, run', (width', cells')) =
      store-at u n j i (record { length = w; next = some i }) width ok.1 ok.0 in
    (
      v,
      rw run run',
      (width', λ a b ha hb. ground (arith, cells' a b hb, cells a b hb, p.1 a b ha hb)),
    )

add_link-Reads :
    (n : ℕ) (l : Link) (d : ℕ → ℕ → Entry) (t : List Entry)
    → InRange n l
    → Reads n d t
    → Returns (Reads n (put_link l d)) (add_link n l t)
add_link-Reads n l d t ok p = add_link-Reads_ends n l.from l.to l.weight d t ok p

get_elem?-AllInRange :
    (n : ℕ) (ls : List Link) (k : ℕ)
    → k < length ls
    → AllInRange n ls
    → (l : Link) × (get_elem? ls k ≡ some l) × InRange n l
get_elem?-AllInRange n [] k h ok = elim h [ ]
get_elem?-AllInRange n (x ∷ ls) zero h ok = (x, refl, ok.0)
get_elem?-AllInRange n (x ∷ ls) (suc k) h ok = get_elem?-AllInRange n ls k (omega arith) ok.1

put_links-take :
    (ls : List Link) (k : ℕ) (l : Link) (d : ℕ → ℕ → Entry)
    → get_elem? ls k ≡ some l
    → put_links (take (suc k) ls) d ≡ put_link l (put_links (take k ls) d)
unfolding put_links
put_links-take [] k l d e = cc
put_links-take (x ∷ ls) zero l d e = ap (λ y. put_link y d) (some-injective _ _ e)
put_links-take (x ∷ ls) (suc k) l d e = put_links-take ls k l (put_link x d) e

add_links-Reads :
    (n m : ℕ) (ls : List Link) (d : ℕ → ℕ → Entry) (t : List Entry)
    → m ≤ length ls
    → AllInRange n ls
    → Reads n d t
    → Returns (Reads n (put_links (take m ls) d)) (add_links n m ls t)
unfolding add_links put_links
add_links-Reads n m ls d t le ok p =
    for-Returns (λ k. Reads n (put_links (take k ls) d)) m _ m 0 t (omega arith)
      (λ k u lo hk q.
        let (l, get, inside) = get_elem?-AllInRange n ls k (omega arith) ok in
        let (v, run, r) = add_link-Reads n l (put_links (take k ls) d) u inside q in
        (v, rw (get, ◌>>=◌) run, subst (λ e. Reads n e v) (sym (put_links-take ls k l d get)) r))
      p

-- The entries before the main loop.
abbrev pub links_table : ℕ → List Link → ℕ → ℕ → Entry
links_table m ls = put_links (take m ls) first_entry

-- Weights of which a double holds every sum of two.
abbrev pub AllExact : List Link → Type 0
AllExact [] = Unit
AllExact (l ∷ ls) = (l.weight < 2 ^ 52) × AllExact ls

put_link-lt :
    (l : Link) (d : ℕ → ℕ → Entry) (a b : ℕ)
    → l.weight < 2 ^ 52
    → (d a b).length < 2 ^ 52
    → (put_link l d a b).length < 2 ^ 52
unfolding put_link
put_link-lt l d a b small small' = elim (Option-cases l.from) [
  | inl none_from ↦ rw none_from small'
  | inr (i, from) ↦ elim (Option-cases l.to) [
    | inl none_to ↦ rw (from, none_to) small'
    | inr (j, to) ↦ rw (from, to) (ground (arith, small, small'))
  ]
]

put_links-lt :
    (m : ℕ) (ls : List Link) (d : ℕ → ℕ → Entry)
    → AllExact ls
    → ((a b : ℕ) → (d a b).length < 2 ^ 52)
    → (a b : ℕ) → (put_links (take m ls) d a b).length < 2 ^ 52
unfolding put_links
put_links-lt zero ls d exact small a b = small a b
put_links-lt (suc m) [] d exact small a b = small a b
put_links-lt (suc m) (l ∷ ls) d exact small a b =
    put_links-lt m ls (put_link l d) exact.1 (λ a b. put_link-lt l d a b exact.0 (small a b)) a b

first_entry-lt : (a b : ℕ) → (first_entry a b).length < 2 ^ 52
unfolding first_entry
first_entry-lt a b = ground arith

-- The lengths and first steps that the main loop ends with.
pub calc_shortest_path-after :
    (spath : List Entry) (n m : ℕ) (ls : List Link)
    → length spath ≡ n * n
    → m ≤ length ls
    → AllInRange n ls
    → AllExact ls
    → Returns (Reads n (after (links_table m ls) n)) (calc_shortest_path spath n m ls)
unfolding calc_shortest_path Reads
calc_shortest_path-after spath n m ls width le ok exact =
    let (t, run, p) = clear_table-first n spath width in
    let (u, run', q) = add_links-Reads n m ls first_entry t le ok p in
    let (v, run'', result) =
      floyd-after n (links_table m ls) u q.0 (put_links-lt m ls first_entry exact first_entry-lt)
        q.1 in
    (v, rw (run, ◌>>=◌, run') run'', result)

-- For a table of n * n entries and at least m links whose ends are below n, or both deleted, and
-- whose weights are below 2^52, `calc_shortest_path` ends, and no walk between two nodes below n
-- over the entries of the links is shorter than the length that it leaves for them.
pub calc_shortest_path-le :
    (spath : List Entry) (n m : ℕ) (ls : List Link) (i j c : ℕ) (h : Option ℕ)
    → length spath ≡ n * n
    → m ≤ length ls
    → AllInRange n ls
    → AllExact ls
    → i < n
    → j < n
    → Walk (links_table m ls) n i j c h
    → Returns (λ u. (at u n i j).length ≤ c) (calc_shortest_path spath n m ls)
unfolding Reads
calc_shortest_path-le spath n m ls i j c h width le ok exact hi hj walk =
    let (v, run, (_, cells)) = calc_shortest_path-after spath n m ls width le ok exact in
    (v, run, rw (cells i j hi hj) (after-le-Walk (links_table m ls) n walk))
