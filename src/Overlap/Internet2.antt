-- ===== src/Overlap/Internet2.antt =====
-- overlap.cc: the branch for Internet2, whose next hops are texts. They are numbered as in flat.cc, by
-- the same statements.
use buffalo.Common.Dict.{assign, value, nat_key}
use buffalo.Common.OrdSet.{insert}
use buffalo.Common.{ℕ, List, [], ◌∷◌, Option, some, get_elem?, each, ◌>>=◌}
use buffalo.Flat.{Table, no_routes, number_nexthop}
use buffalo.Overlap.{Splitting, split_all, check_overlap}
use buffalo.Prefix.Equal.{prefix_key, prefix_order}
use buffalo.Prefix.Text.{str2ip}
use buffalo.Prefix.{Prefix}

-- A row of the file: a prefix and the text of its next hop. Of the table only `nhmap`, `nhstr` and
-- `index` are used.
unfoldable pub add_named : Prefix × List ℕ → Splitting × Table → Option (Splitting × Table)
unfolding str2ip number_nexthop
add_named (p, str) (s, t) = do
  nexthop ← str2ip str
  numbered ← number_nexthop nexthop str t
  some (record s { pmap = assign p nexthop s.pmap; alllist = insert p s.alllist }, numbered)

unfoldable pub read_named : List (Prefix × List ℕ) → Option (Splitting × Table)
unfolding add_named
read_named rows = each rows add_named (record { alllist = []; newlist = []; pmap = [] }, no_routes)

-- The lines of overlap.txt.
unfoldable pub named_lines : Splitting → Table → List Prefix → Option (List (Prefix × List ℕ))
unfolding value
named_lines s t [] = some []
named_lines s t (p ∷ ps) = do
  str ← get_elem? t.nhstr (value t.nhmap (value s.pmap p))
  rest ← named_lines s t ps
  some ((p, str) ∷ rest)

-- `main` for an Internet2 file: the pairs of the check, and the lines.
unfoldable pub overlap_internet2 :
    List (Prefix × List ℕ) → Option (List (Prefix × Prefix) × List (Prefix × List ℕ))
unfolding read_named split_all check_overlap named_lines
overlap_internet2 rows = do
  read ← read_named rows
  s ← split_all read.0
  errors ← check_overlap s.alllist s.alllist
  lines ← named_lines s read.1 s.alllist
  some (errors, lines)
