-- ===== src/Click.antt =====
-- click.cc: the configuration of the Click element for a table, in the branches for Internet2 and for FUNET. The rows
-- are what `ifs >> ...` yields before it fails. The table and the numbers of the next hops are kept as
-- in flat.cc, by the same statements.
pub mod Numbers
pub mod Ports
pub mod Funet
use buffalo.Common.Dict.{assign, value, nat_key}
use buffalo.Common.{ℕ, zero, suc, ◌+◌, List, [], ◌∷◌, ◌++◌, Option, none, some, each, map, ◌>>=◌}
use buffalo.Fib.Globals.{FunetRow}
use buffalo.Flat
use buffalo.Flat.{Table, no_routes, number_nexthop, read_funet}
use buffalo.Prefix.Equal.{prefix_key}
use buffalo.Prefix.Text.{str2ip}
use buffalo.Prefix.{Prefix}

pub data ClickScheme : Type 0 where
  click_bf : ClickScheme
  click_range : ClickScheme

-- The lines of click.txt.
pub data Line : Type 0 where
  -- data::BfData();
  bf_data : Line
  -- bfrt:: BfIPLookup(data);
  bf_lookup : Line
  -- cbfrt :: CbfRouteTable(data,
  cbf_table : Line
  -- rt :: RangeIPLookup(
  range_table : Line
  -- <prefix> <port>,
  route : Prefix → ℕ → Line
  -- <addr> <len> <tmp>
  funet_row : Flat.Line → Line
  -- );
  table_end : Line
  -- InfiniteSource() -> GetIPAddress(0) -> SetFileIPAddress()->bfrt;
  bf_source : Line
  -- InfiniteSource() -> GetIPAddress(0) -> SetFileIPAddress()->rt;
  range_source : Line
  -- bfrt[<i>] -> ac<i>::AverageCounter() -> Discard;
  bf_port : ℕ → Line
  -- cbfrt[<i>] -> Discard;
  cbf_port : ℕ → Line
  -- rt[<i>] -> ac<i>::AverageCounter() -> Discard;
  range_port : ℕ → Line

-- The lines before the routes.
unfoldable pub opening : ClickScheme → List Line
opening click_bf = bf_data ∷ bf_lookup ∷ cbf_table ∷ []
opening click_range = range_table ∷ []

-- A row is a prefix and the text of its next hop.
unfoldable pub add_row : Prefix × List ℕ → Table × List Line → Option (Table × List Line)
unfolding str2ip number_nexthop value
add_row (p, str) (t, out) = do
  nexthop ← str2ip str
  numbered ← number_nexthop nexthop str t
  some (
    record numbered { pmap = assign p nexthop numbered.pmap },
    out ++ route p (value numbered.nhmap nexthop) ∷ [],
  )

-- The lines after the routes, but for those of the ports.
unfoldable pub source : ClickScheme → List Line
source click_bf = bf_source ∷ []
source click_range = range_source ∷ []

unfoldable pub port : ClickScheme → ℕ → List Line
port click_bf i = bf_port i ∷ cbf_port i ∷ []
port click_range i = range_port i ∷ []

-- The loop over the ports, from `i` on.
unfoldable pub ports : ClickScheme → ℕ → ℕ → List Line
unfolding port
ports clickscheme zero i = []
ports clickscheme (suc rounds) i = port clickscheme i ++ ports clickscheme rounds (i + 1)

unfoldable pub click_internet2 : ClickScheme → List (Prefix × List ℕ) → Option (List Line)
unfolding opening add_row source ports
click_internet2 clickscheme rows = do
  read ← each rows add_row (no_routes, [])
  let (t, out) = read
  some (
      opening clickscheme
      ++ (out ++ (table_end ∷ (source clickscheme ++ ports clickscheme t.index 0))))

-- The branch for FUNET writes the rows of length 24; no next hop is numbered.
unfoldable pub click_funet : ClickScheme → List FunetRow → Option (List Line)
unfolding opening source ports read_funet
click_funet clickscheme rows = do
  t ← each rows read_funet no_routes
  some (
      opening clickscheme
      ++ (map funet_row t.out ++ (table_end ∷ (source clickscheme ++ ports clickscheme t.index 0))))
