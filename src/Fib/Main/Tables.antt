-- ===== src/Fib/Main/Tables.antt =====
-- The tables of a file of prefixes, with the next hops numbered, are fit to build the filters from.
use mathlib.Core.Option.{some-injective}
use buffalo.Common.Dict.{Dict, lookup, value, nat_key}
use buffalo.Common.OrdSet.{nat_order}
use buffalo.Common.{
  ℕ, zero, suc, ◌+◌, ◌*◌, ◌^◌, ◌≤◌, ◌<◌, ◌≡◌, sym, List, [], ◌∷◌, some, arith, Elem, get_elem?,
  length, length-replicate, replicate, ◌>>=◌,
}
use buffalo.Fib.Build.Filled.{get_elem?-lt, get_elem?-some}
use buffalo.Fib.Build.PfxBuilt.{Routed}
use buffalo.Fib.Build.PfxTables.{PfxTables}
use buffalo.Fib.Build.{pfx_count, pfx_index}
use buffalo.Fib.Globals.{
  Globals, DataScheme, data_routeview, data_funet, data_internet2, data_mac, Scheme, FunetRow,
  funet_route, read_routeviewfib, read_funetfib, pfxlen_count,
}
use buffalo.Fib.Main.Indexed.{index_nexthops-apart}
use buffalo.Fib.Main.Loaded.{Loaded, rows-Loaded}
use buffalo.Fib.Main.Ready.{index_nexthops-lt}
use buffalo.Fib.Main.{FibFile, no_tables, read_fib, index_all}
use buffalo.Fib.{find}
use buffalo.FilterBank.{as_int}
use buffalo.Prefix.Equal.{prefix_key}
use buffalo.Prefix.{Prefix}

-- A file of prefixes for one of the readers of prefixes: no row has the length 0, and there are
-- fewer than 2^31 rows.
abbrev pub HasRoutes : DataScheme → FibFile → Type 0
HasRoutes data_routeview file =
    ((row : Prefix × ℕ) → Elem row file.routes → 0 < (row.0).len) × (length file.routes < 2 ^ 31)
HasRoutes data_funet file =
    ((row : FunetRow) → Elem row file.funet_rows → 0 < ((funet_route row).0).len)
    × (length file.funet_rows < 2 ^ 31)
HasRoutes data_internet2 file =
    ((row : Prefix × ℕ) → Elem row file.routes → 0 < (row.0).len) × (length file.routes < 2 ^ 31)
HasRoutes data_mac file = ⊥

get_elem?-replicate :
    {A : Type 0} (n i : ℕ) (x y : A) → get_elem? (replicate n x) i ≡ some y → y ≡ x
get_elem?-replicate zero i x y e = cc
get_elem?-replicate (suc n) zero x y e = sym (some-injective _ _ e)
get_elem?-replicate (suc n) (suc i) x y e = get_elem?-replicate n i x y e

no_tables-Loaded : Loaded no_tables 0
unfolding find lookup value
no_tables-Loaded = record {
  width = length-replicate {A = Dict ℕ ℕ} pfxlen_count [];
  few = λ l nh counts e. rw (get_elem?-replicate pfxlen_count l [] counts e) (omega arith);
  listed = λ p v e. cc;
  positive = λ p m. absurd m;
  member = λ p m. absurd m;
  counted = λ p m. absurd m;
  few_nexthops = omega arith;
  ordered = tt;
}

-- What is read.
pub read_fib-Loaded :
    (datascheme : DataScheme) (runscheme : Scheme) (file : FibFile) (read : Globals)
    → HasRoutes datascheme file
    → read_fib datascheme runscheme file no_tables ≡ some read
    → (n : ℕ) × (n < 2 ^ 31) × Loaded read n × (read.nhindex ≡ [])
unfolding read_fib read_routeviewfib read_funetfib
read_fib-Loaded data_routeview runscheme file read ok e =
    let (r, index) =
      rows-Loaded runscheme (λ row. row) file.routes 0 no_tables read e ok.0 (omega (arith, ok.1))
        no_tables-Loaded in
    (0 + length file.routes, omega (arith, ok.1), r, index)
read_fib-Loaded data_funet runscheme file read ok e =
    let (r, index) =
      rows-Loaded runscheme funet_route file.funet_rows 0 no_tables read e ok.0
        (omega (arith, ok.1)) no_tables-Loaded in
    (0 + length file.funet_rows, omega (arith, ok.1), r, index)
read_fib-Loaded data_internet2 runscheme file read ok e =
    let (r, index) =
      rows-Loaded runscheme (λ row. row) file.routes 0 no_tables read e ok.0 (omega (arith, ok.1))
        no_tables-Loaded in
    (0 + length file.routes, omega (arith, ok.1), r, index)
read_fib-Loaded data_mac runscheme file read ok e = absurd ok

-- The tables of an address: what is read, with the next hops numbered.
module _ (read : Globals) (n : ℕ) (small : n < 2 ^ 31) (r : Loaded read n)
    (fresh : read.nhindex ≡ []) where
  pub index_all-PfxTables :
      (filters : ℕ)
      → 0 < length read.nhlist
      → length read.nhlist * pfxlen_count ≤ filters
      → PfxTables (index_all read) filters
  unfolding index_all pfx_count as_int pfx_index value lookup
  index_all-PfxTables filters some_nexthop room = record {
    some_nexthop = some_nexthop;
    counted = λ nh j pos short.
        let (counts, here) = get_elem?-some read.nh_pfxlen_count j (omega (arith, r.width)) in
        let few = r.few j nh counts here in
        (value counts nh, rw (here, ◌>>=◌) (ground (arith, few, small)));
    indexed = λ nh j m short.
        let below =
          index_nexthops-lt read.nhlist 0 (length read.nhlist) read.nhindex (omega arith)
            (λ k. rw fresh (omega (arith, some_nexthop))) nh in
        omega (arith, below, room);
    apart = λ a b at_a at_b e.
        index_nexthops-apart a b read.nhlist 0 read.nhindex r.ordered at_a at_b e;
  }

  pub index_all-Routed : (p : Prefix) → Elem p read.pfxlist → Routed (index_all read) p
  unfolding index_all pfx_count as_int
  index_all-Routed p m =
      let (counts, here, positive) = r.counted p m in
      let few = r.few p.len (value read.pmap p) counts here in
      record {
        positive = r.positive p m;
        short = omega (arith, get_elem?-lt read.nh_pfxlen_count p.len counts here, r.width);
        member = r.member p m;
        counted = (
          value counts (value read.pmap p),
          rw (here, ◌>>=◌) (ground (arith, few, small)),
          positive,
        );
      }

pub Elem-length : {A : Type 0} (x : A) (xs : List A) → Elem x xs → 0 < length xs
Elem-length x [] m = absurd m
Elem-length x (y ∷ ys) m = omega arith
