-- ===== src/Lsfib/Main.antt =====
-- lsfib.cc: `main`, with CALC_EXP defined as it is in the file: the stretch of every pair of nodes.
-- The files are what `ifs >> ...` yields.
use buffalo.Common.Dict.{nat_key}
use buffalo.Common.{
  ◌++◌, ℕ, suc, ◌+◌, ◌-◌, ◌*◌, ltb, Bool, true, false, if◌then◌else◌, List, [], ◌∷◌, Option, none,
  some, get_elem?, set, length, replicate, for, each, ◌>>=◌,
}
use buffalo.Lsfib.Latency.{calc_latency}
use buffalo.Lsfib.{Double, Net, Graph}
use buffalo.ShortestPath.{Entry, Link, calc_shortest_path}

-- `dataschemetype`
pub data DataScheme : Type 0 where
  data_isp : DataScheme
  data_campus : DataScheme
  data_dc : DataScheme

-- What `getopt` returns: `-d` with the name that `strcmp` knows, `none` for any other; `-f` with
-- what `atoi` makes of the text; another character.
pub data Argument : Type 0 where
  d_option : Option DataScheme → Argument
  f_option : ℕ → Argument
  other_option : Argument

-- `datascheme`, `fpexp` and `falsepos`
pub record Options (W : Type 0) : Type 0 where
  pub datascheme : DataScheme
  pub fpexp : ℕ
  pub falsepos : W

unfoldable pub set_option : {W : Type 0} ⦃D : Double W⦄ → Argument → Options W → Options W
set_option (d_option none) o = o
set_option (d_option (some scheme)) o = record o { datascheme = scheme }
set_option ⦃D⦄ (f_option k) o = record o { fpexp = k; falsepos = D.exp10_minus k }
set_option other_option o = o

unfoldable pub set_options : {W : Type 0} ⦃D : Double W⦄ → List Argument → Options W → Options W
unfolding set_option
set_options [] o = o
set_options (arg ∷ args) o = set_options args (set_option arg o)

abbrev pub maxnode : ℕ
maxnode = 1700

abbrev pub maxlink : ℕ
maxlink = 250_000

-- A line of the links.
pub record LinkRow : Type 0 where
  pub from : ℕ
  pub to : ℕ
  pub weight : ℕ

-- A file: `n`, its lines of nodes with whether `ch` is 'y', and its lines of links.
pub record Topology : Type 0 where
  pub n : ℕ
  pub nodes : List (ℕ × Bool)
  pub links : List LinkRow

-- `node[i] = ...`
unfoldable pub read_node : ℕ × Bool → List Bool → Option (List Bool)
read_node row node = if ltb row.0 maxnode then some (set node row.0 row.1) else none

-- `neighbors[i].push_back(x)`
unfoldable pub push_neighbor : ℕ → ℕ → List (List ℕ) → Option (List (List ℕ))
push_neighbor i x neighbors = do
  before ← get_elem? neighbors i
  some (set neighbors i (before ++ x ∷ []))

-- `link`, `maxlen` and `neighbors`
pub record Links (W : Type 0) : Type 0 where
  pub link : List Link
  pub maxlen : W
  pub neighbors : List (List ℕ)

unfoldable pub read_link : {W : Type 0} ⦃D : Double W⦄ → LinkRow → Links W → Option (Links W)
unfolding push_neighbor
read_link {W} ⦃D⦄ row ls = do
  forth ← push_neighbor row.from row.to ls.neighbors
  both ← push_neighbor row.to row.from forth
  let entry : Link = record { from = some row.from; to = some row.to; weight = row.weight }
  let w = D.of_int row.weight
  let after : Links W = record {
    link = ls.link ++ entry ∷ [];
    maxlen = if D.less ls.maxlen w then w else ls.maxlen;
    neighbors = both;
  }
  if ltb (length ls.link) maxlink then some after else none

-- The variables of the loop over the pairs, and what is written to `outf`.
pub record Measured (W : Type 0) : Type 0 where
  pub flowcount : ℕ
  pub real_path : W
  pub avgstretch : W
  pub maxstretch : W
  pub minstretch : W
  pub outf : List W
  pub net : Net

-- The statements for a pair that has a path.
unfoldable pub measure :
    {W : Type 0} ⦃D : Double W⦄ → Graph W → ℕ → ℕ → ℕ → Measured W → Option (Measured W)
measure ⦃D⦄ g fuel src dst t = do
  e ← get_elem? g.sp (src * g.n + dst)
  let len = D.of_int e.length
  r ← calc_latency g fuel src dst none D.one t.net
  let stretch = D.over (D.minus r.0 len) len
  some (record {
    flowcount = t.flowcount + 1;
    real_path = D.plus t.real_path len;
    avgstretch = D.plus t.avgstretch stretch;
    maxstretch = if D.less t.maxstretch stretch then stretch else t.maxstretch;
    minstretch = if D.less stretch t.minstretch then stretch else t.minstretch;
    outf = t.outf ++ stretch ∷ [];
    net = r.1;
  })

-- `node[src] && node[dst] && sp[src*n+dst].next > -1`
unfoldable pub is_flow : {W : Type 0} → Graph W → List Bool → ℕ → ℕ → Option Bool
is_flow g node src dst = do
  from ← get_elem? node src
  elim from [
    | false ↦ some false
    | true ↦ do
      to ← get_elem? node dst
      elim to [
        | false ↦ some false
        | true ↦ do
          e ← get_elem? g.sp (src * g.n + dst)
          elim e.next [ none ↦ some false | some h ↦ some true ]
      ]
  ]

-- The body of the two loops over `src` and `dst`.
unfoldable pub pair :
    {W : Type 0} ⦃D : Double W⦄ → Graph W → List Bool → ℕ → ℕ → ℕ → Measured W → Option (Measured W)
unfolding is_flow measure
pair g node fuel src dst t = do
  flow ← is_flow g node src dst
  elim flow [ true ↦ measure g fuel src dst t | false ↦ some t ]

unfoldable pub pairs :
    {W : Type 0} ⦃D : Double W⦄ → Graph W → List Bool → ℕ → Measured W → Option (Measured W)
unfolding pair
pairs g node fuel = for g.n 0 λ src. for (g.n - suc src) (suc src) λ dst. pair g node fuel src dst

-- The averages.
unfoldable pub averages : {W : Type 0} ⦃D : Double W⦄ → Measured W → Measured W
averages ⦃D⦄ t = record t {
  real_path = D.over t.real_path (D.of_int t.flowcount);
  avgstretch = D.over t.avgstretch (D.of_int t.flowcount);
}

-- `main`: the file of the scheme is `files`, `node` and `fresh` are what the memory holds.
unfoldable pub main :
    {W : Type 0} ⦃D : Double W⦄
    → (DataScheme → Topology)
    → List Bool
    → (ℕ → List Entry)
    → ℕ
    → List Argument
    → Option (Measured W)
unfolding set_options read_node read_link pairs averages
main {W} ⦃D⦄ files node fresh fuel args = do
  let o = set_options args (record { datascheme = data_isp; fpexp = 3; falsepos = D.thousandth })
  let file = files o.datascheme
  nodes ← each file.nodes read_node node
  ls ←
      each file.links read_link
        (record { link = []; maxlen = D.nought; neighbors = replicate maxnode [] })
  sp ← calc_shortest_path (fresh (file.n * file.n)) file.n (length file.links) ls.link
  let g : Graph W = record { sp = sp; n = file.n; neighbors = ls.neighbors; falsepos = o.falsepos }
  measured ← pairs g nodes fuel (record {
    flowcount = 0;
    real_path = D.nought;
    avgstretch = D.nought;
    maxstretch = D.nought;
    minstretch = D.large;
    outf = [];
    net = [];
  })
  some (averages measured)
