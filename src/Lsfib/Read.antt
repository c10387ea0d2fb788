-- ===== src/Lsfib/Read.antt =====
-- lsfib.cc: the files that the arrays of `main` have room for.
use buffalo.Common.Dict.{nat_key}
use buffalo.Common.{
  ◌++◌, if◌then◌else◌, ℕ, suc, ◌+◌, ◌≤◌, ◌<◌, ltb, Bool, true, ◌≡◌, refl, ◌∙◌, List, [], ◌∷◌, some,
  arith, inl, inr, length, length-append, Elem, each, Returns, ◌>>=◌, set, length-set,
}
use buffalo.Lsfib.Main.{
  Topology, LinkRow, Links, maxnode, maxlink, read_link, read_node, push_neighbor,
}
use buffalo.Lsfib.Run.{get_elem?-inside}
use buffalo.Lsfib.{Double, hops}
use buffalo.ShortestPath.{Link, infinity}
use buffalo.ShortestPath.Steps.{AllWeighted}
use buffalo.ShortestPath.Setup.{AllInRange}

-- A file that fits the arrays: its ends are nodes, its weights positive and below 999999999.
pub record Fits (file : Topology) : Type 0 where
  pub few_nodes : file.n ≤ maxnode
  pub few_links : length file.links ≤ maxlink
  pub nodes_inside : (row : ℕ × Bool) → Elem row file.nodes → row.0 < maxnode
  pub ends : (row : LinkRow) → Elem row file.links → (row.from < file.n) × (row.to < file.n)
  pub weighted : (row : LinkRow) → Elem row file.links → (0 < row.weight) × (row.weight < infinity)

AllInRange-append :
    (n i j w : ℕ) (ls : List Link)
    → i < n
    → j < n
    → AllInRange n ls
    → AllInRange n (ls ++ record { from = some i; to = some j; weight = w } ∷ [])
AllInRange-append n i j w [] hi hj ok = ((hi, hj), tt)
AllInRange-append n i j w (l ∷ ls) hi hj ok = (ok.0, AllInRange-append n i j w ls hi hj ok.1)

AllWeighted-append :
    (l : Link) (ls : List Link)
    → 0 < l.weight
    → l.weight < infinity
    → AllWeighted ls
    → AllWeighted (ls ++ l ∷ [])
AllWeighted-append l [] pos small ok = (pos, small, tt)
AllWeighted-append l (x ∷ ls) pos small ok = (ok.0, ok.1, AllWeighted-append l ls pos small ok.2)

push_neighbor-Returns :
    (i x : ℕ) (neighbors : List (List ℕ))
    → i < length neighbors
    → Returns (λ after. length after ≡ length neighbors) (push_neighbor i x neighbors)
unfolding push_neighbor
push_neighbor-Returns i x neighbors h =
    let (before, get) = get_elem?-inside neighbors i h in
    (
      set neighbors i (before ++ x ∷ []),
      rw (get, ◌>>=◌) refl,
      length-set neighbors i (before ++ x ∷ []),
    )

pub read_nodes-Returns :
    (rows : List (ℕ × Bool)) (node : List Bool)
    → length node ≡ maxnode
    → ((row : ℕ × Bool) → Elem row rows → row.0 < maxnode)
    → Returns (λ after. length after ≡ maxnode) (each rows read_node node)
unfolding each read_node
read_nodes-Returns [] node len inside = (node, refl, len)
read_nodes-Returns (row ∷ rows) node len inside =
    let here : ltb row.0 maxnode ≡ true = ground (arith, inside row (inl refl)) in
    rw (here, ◌>>=◌)
      (read_nodes-Returns rows (set node row.0 row.1) (length-set node row.0 row.1 ∙ len)
        (λ r m. inside r (inr m)))

-- What the reading of the links keeps, with `left` lines to read.
pub record Reading {W : Type 0} (n left total : ℕ) (ls : Links W) : Type 0 where
  pub lists : length ls.neighbors ≡ maxnode
  pub in_range : AllInRange n ls.link
  pub weighted : AllWeighted ls.link
  pub count : length ls.link + left ≡ total

pub clear_net : (x : ℕ) → hops [] x ≡ []
unfolding hops
clear_net x = refl

module _ {W : Type 0} ⦃D : Double W⦄ where
  read_link-Reading :
      (n left total : ℕ) (row : LinkRow) (ls : Links W)
      → n ≤ maxnode
      → total ≤ maxlink
      → row.from < n
      → row.to < n
      → 0 < row.weight
      → row.weight < infinity
      → Reading n (suc left) total ls
      → Returns (Reading n left total) (read_link row ls)
  unfolding read_link
  read_link-Reading n left total row ls few room hi hj pos small r =
      let (forth, run, len) =
        push_neighbor-Returns row.from row.to ls.neighbors (omega (arith, r.lists, hi, few)) in
      let (both, run', len') =
        push_neighbor-Returns row.to row.from forth (omega (arith, len, r.lists, hj, few)) in
      let entry : Link = record { from = some row.from; to = some row.to; weight = row.weight } in
      let space : ltb (length ls.link) maxlink ≡ true = ground (arith, r.count, room) in
      (
        record {
          link = ls.link ++ entry ∷ [];
          maxlen =
              if D.less ls.maxlen (D.of_int row.weight) then D.of_int row.weight else ls.maxlen;
          neighbors = both;
        },
        rw (run, ◌>>=◌, run', space) refl,
        record {
          lists = len' ∙ len ∙ r.lists;
          in_range = AllInRange-append n row.from row.to row.weight ls.link hi hj r.in_range;
          weighted = AllWeighted-append entry ls.link pos small r.weighted;
          count = omega (arith, length-append ls.link (entry ∷ []), r.count);
        },
      )

  pub read_links-Reading :
      (n total : ℕ) (rows : List LinkRow) (ls : Links W)
      → n ≤ maxnode
      → total ≤ maxlink
      → ((row : LinkRow) → Elem row rows → (row.from < n) × (row.to < n))
      → ((row : LinkRow) → Elem row rows → (0 < row.weight) × (row.weight < infinity))
      → Reading n (length rows) total ls
      → Returns (Reading n 0 total) (each rows read_link ls)
  unfolding each
  read_links-Reading n total [] ls few room ends weighted r = (ls, refl, r)
  read_links-Reading n total (row ∷ rows) ls few room ends weighted r =
      let (hi, hj) = ends row (inl refl) in
      let (pos, small) = weighted row (inl refl) in
      let (next, run, p) =
        read_link-Reading n (length rows) total row ls few room hi hj pos small r in
      rw (run, ◌>>=◌)
        (read_links-Reading n total rows next few room (λ x m. ends x (inr m))
          (λ x m. weighted x (inr m)) p)
