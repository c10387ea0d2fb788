-- ===== src/Fib/Globals.antt =====
-- BloomFilterTest.cc: the global tables, and the readers that fill them.
-- A reader takes the rows that `ifs >> ...` yields before it fails. The numbers of Internet2 and
-- of a routeview file are what `str2ip` makes of the text.
use buffalo.Common.Dict.{Dict, assign, count_up, nat_key}
use buffalo.Common.OrdSet.{insert, nat_order}
use buffalo.Common.{
  ℕ, ◌+◌, ◌%◌, ◌^◌, ◌==◌, if◌then◌else◌, List, [], ◌∷◌, ◌++◌, Option, some, get_elem?, set, not,
  Bool, false, each, ◌>>=◌,
}
use buffalo.EtherAddress.Equal.{address_key}
use buffalo.EtherAddress.{EtherAddress}
use buffalo.Fib.{PrefixMap}
use buffalo.Prefix.Equal.{prefix_key}
use buffalo.Prefix.{Prefix}

pub data DataScheme : Type 0 where
  data_routeview : DataScheme
  data_funet : DataScheme
  data_internet2 : DataScheme
  data_mac : DataScheme

pub data Scheme : Type 0 where
  scheme_lpm : Scheme
  scheme_flat : Scheme

pub record Globals : Type 0 where
  pub pfxlist : List Prefix
  pub pmap : PrefixMap
  pub nhlist : List ℕ
  pub nhindex : Dict ℕ ℕ
  pub nhcount : Dict ℕ ℕ
  pub maclist : List EtherAddress
  pub macmap : Dict EtherAddress ℕ
  pub pfxlencount : Dict ℕ ℕ
  pub nh_pfxlen_count : List (Dict ℕ ℕ)

abbrev pub max_bloom_filter : ℕ
max_bloom_filter = 100

abbrev pub pfxlen_count : ℕ
pfxlen_count = 33

-- `runscheme == SCHEME_FLAT && p.len != 24`
unfoldable pub skipped : Scheme → Prefix → Bool
skipped scheme_lpm p = false
skipped scheme_flat p = not (p.len == 24)

-- The statements that both readers of prefixes share; a length of 33 or more is out of bounds.
unfoldable pub add_prefix : Scheme → Prefix → ℕ → Globals → Option Globals
unfolding skipped
add_prefix runscheme p nexthop g = do
  let added = do
    counts ← get_elem? g.nh_pfxlen_count p.len
    some (record g {
      pmap = assign p nexthop g.pmap;
      pfxlist = g.pfxlist ++ p ∷ [];
      nhlist = insert nexthop g.nhlist;
      nhcount = count_up nexthop g.nhcount;
      pfxlencount = count_up p.len g.pfxlencount;
      nh_pfxlen_count = set g.nh_pfxlen_count p.len (count_up nexthop counts);
    })
  if skipped runscheme p then some g else added

-- A row is a prefix and a next hop.
unfoldable pub read_routeviewfib : Scheme → List (Prefix × ℕ) → Globals → Option Globals
unfolding add_prefix
read_routeviewfib runscheme rows = each rows λ (p, nexthop) g. add_prefix runscheme p nexthop g

-- A row of a FUNET file: `addr`, `len` and `tmp`.
pub record FunetRow : Type 0 where
  pub addr : ℕ
  pub len : ℕ
  pub tmp : ℕ

-- The prefix and the next hop of a row.
unfoldable pub funet_route : FunetRow → Prefix × ℕ
funet_route row = (record { addr = row.addr; len = row.len % 2 ^ 8 }, (row.tmp + 100) % 2 ^ 32)

unfoldable pub read_funetfib : Scheme → List FunetRow → Globals → Option Globals
unfolding add_prefix funet_route
read_funetfib runscheme rows =
    each rows λ row g. add_prefix runscheme (funet_route row).0 (funet_route row).1 g

-- A row is an address and `tmp`.
unfoldable pub add_mac : EtherAddress → ℕ → Globals → Globals
add_mac p tmp g =
    let nexthop = (tmp + 100) % 2 ^ 32 in
    record g {
      maclist = g.maclist ++ p ∷ [];
      macmap = assign p nexthop g.macmap;
      nhlist = insert nexthop g.nhlist;
      nhcount = count_up nexthop g.nhcount;
    }

unfoldable pub read_macfib : List (EtherAddress × ℕ) → Globals → Globals
unfolding add_mac
read_macfib [] g = g
read_macfib ((p, tmp) ∷ rows) g = read_macfib rows (add_mac p tmp g)

-- The loop of `main` that numbers the next hops, from `i` on.
unfoldable pub index_nexthops : List ℕ → ℕ → Dict ℕ ℕ → Dict ℕ ℕ
index_nexthops [] i nhindex = nhindex
index_nexthops (nexthop ∷ nhlist) i nhindex =
    index_nexthops nhlist (i + 1) (assign nexthop i nhindex)
