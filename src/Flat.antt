-- ===== src/Flat.antt =====
-- flat.cc: a forwarding table flattened to prefixes of length 24. The rows are what `ifs >> ...`
-- yields before it fails, and `out` is what is written to flat.txt, line by line.
pub mod Reach
pub mod Fill
pub mod First
pub mod Read
pub mod Lines
use Prim.Native.Nat.{bit_and}
use buffalo.Common.Dict.{Dict, lookup, assign, value, nat_key}
use buffalo.Common.OrdSet.{insert}
use buffalo.Common.{
  ℕ, zero, suc, ◌+◌, ◌-◌, ◌%◌, ◌^◌, ◌==◌, ltb, if◌then◌else◌, List, [], ◌∷◌, ◌++◌, Option, none,
  some, get_elem?, set, length, replicate, each, ◌>>=◌,
}
use buffalo.Fib.Globals.{FunetRow}
use buffalo.Fib.{PrefixMap, find}
use buffalo.Prefix.Equal.{prefix_key, prefix_order}
use buffalo.Prefix.Text.{str2ip}
use buffalo.Prefix.{Prefix}

pub data DataScheme : Type 0 where
  data_routeview : DataScheme
  data_funet : DataScheme
  data_internet2 : DataScheme

-- A line of flat.txt: three numbers, or a prefix and a text.
pub data Line : Type 0 where
  funet_line : ℕ → ℕ → ℕ → Line
  internet2_line : Prefix → List ℕ → Line

pub record Table : Type 0 where
  pub pfxlist : List Prefix
  pub pmap : PrefixMap
  pub otherlist : List Prefix
  pub nhmap : Dict ℕ ℕ
  pub nhstr : List (List ℕ)
  pub index : ℕ
  pub out : List Line

-- The globals before `main`, with room for 1000 next hops.
unfoldable pub no_routes : Table
no_routes = record {
  pfxlist = [];
  pmap = [];
  otherlist = [];
  nhmap = [];
  nhstr = replicate 1000 [];
  index = 0;
  out = [];
}

-- A prefix of length 24 is kept and written, and another is left for later.
unfoldable pub add_route : Prefix → ℕ → Line → Table → Table
add_route p nexthop line t =
    let known = record t { pmap = assign p nexthop t.pmap } in
    if p.len == 24
    then record known { pfxlist = insert p t.pfxlist; out = t.out ++ line ∷ [] }
    else record known { otherlist = t.otherlist ++ p ∷ [] }

unfoldable pub read_funet : FunetRow → Table → Option Table
unfolding add_route
read_funet row t = some (
    add_route (record { addr = row.addr; len = row.len % 2 ^ 8 }) row.tmp
      (funet_line row.addr row.len row.tmp) t)

-- A next hop that is new gets the next number; `nhstr` has 1000 elements.
unfoldable pub number_nexthop : ℕ → List ℕ → Table → Option Table
unfolding lookup
number_nexthop nexthop str t = elim (lookup t.nhmap nexthop) [
  | some known ↦ some t
  | none ↦
      if ltb t.index (length t.nhstr)
      then some (record t {
        nhmap = assign nexthop t.index t.nhmap;
        nhstr = set t.nhstr t.index str;
        index = t.index + 1;
      })
      else none
]

-- A row is a prefix and the text of its next hop.
unfoldable pub read_internet2 : Prefix × List ℕ → Table → Option Table
unfolding str2ip number_nexthop add_route
read_internet2 (p, str) t = do
  nexthop ← str2ip str
  numbered ← number_nexthop nexthop str t
  some (add_route p nexthop (internet2_line p str) numbered)

-- What is written for a prefix that has just been given a next hop.
unfoldable pub line_of : DataScheme → Prefix → Table → Option (List Line)
unfolding value
line_of data_routeview p t = some []
line_of data_funet p t = some (funet_line p.addr p.len (value t.pmap p) ∷ [])
line_of data_internet2 p t = do
  str ← get_elem? t.nhstr (value t.nhmap (value t.pmap p))
  some (internet2_line p str ∷ [])

-- `p` takes the next hop of `other`, unless it has an entry.
unfoldable pub fill : DataScheme → Prefix → Prefix → Table → Option Table
unfolding value
fill datascheme other p t = elim (find t.pmap p) [
  | some nexthop ↦ some t
  | none ↦ do
    let filled = record t {
      pfxlist = insert p t.pfxlist;
      pmap = assign p (value t.pmap other) t.pmap;
    }
    line ← line_of datascheme p filled
    some (record filled { out = t.out ++ line })
]

-- The loop over the blocks of a shorter prefix, from the address `addr` on.
unfoldable pub fill_blocks : DataScheme → Prefix → ℕ → ℕ → Table → Option Table
unfolding fill
fill_blocks datascheme other zero addr t = some t
fill_blocks datascheme other (suc rounds) addr t =
    fill datascheme other (record { addr = addr; len = 24 }) t
    >>= fill_blocks datascheme other rounds ((addr + 0x0000_0100) % 2 ^ 32)

unfoldable pub flatten : DataScheme → Prefix → Table → Option Table
unfolding fill_blocks fill
flatten datascheme other t =
    let blocks = fill_blocks datascheme other (2 ^ (24 - other.len)) other.addr t in
    if ltb other.len 24
    then blocks
    else if ltb 24 other.len
    then fill datascheme other (record { addr = bit_and other.addr 0xffff_ff00; len = 24 }) t
    else some t

unfoldable pub flatten_all : DataScheme → Table → Option Table
unfolding flatten
flatten_all datascheme t = each t.otherlist (flatten datascheme) t

unfoldable pub flat_funet : List FunetRow → Option Table
unfolding read_funet flatten_all
flat_funet rows = each rows read_funet no_routes >>= flatten_all data_funet

unfoldable pub flat_internet2 : List (Prefix × List ℕ) → Option Table
unfolding read_internet2 flatten_all
flat_internet2 rows = each rows read_internet2 no_routes >>= flatten_all data_internet2
