-- ===== src/Tests/Clicks.antt =====
-- A configuration of one route.
use buffalo.Click.Ports.{wire, click_internet2-wire}
use buffalo.Click.{Line, click_bf, route, add_row, click_internet2}
use buffalo.Common.Dict.{lookup, value, nat_key}
use buffalo.Common.{ℕ, ◌≡◌, refl, List, [], ◌∷◌, some, Elem, inl, each, set, replicate}
use buffalo.Flat.{Table, no_routes, number_nexthop}
use buffalo.Prefix.Text.{str2ip, quad_address}
use buffalo.Prefix.{Prefix}

abbrev ten : Prefix
ten = record { addr = 0x0a00_0000; len = 8 }

abbrev text : List ℕ
text = 10 ∷ 0 ∷ 0 ∷ 1 ∷ []

abbrev rows : List (Prefix × List ℕ)
rows = (ten, text) ∷ []

abbrev table : Table
table = record {
  pfxlist = [];
  pmap = (ten, 0x0a00_0001) ∷ [];
  otherlist = [];
  nhmap = (0x0a00_0001, 0) ∷ [];
  nhstr = set (replicate 1000 []) 0 text;
  index = 1;
  out = [];
}

rows-read : each rows add_row (no_routes, []) ≡ some (table, route ten 0 ∷ [])
unfolding each add_row no_routes str2ip quad_address number_nexthop lookup value
rows-read = refl

click_internet2-wire_example :
    (nh : ℕ) × (lookup table.nhmap nh ≡ some 0)
    × ((other : ℕ) → lookup table.nhmap other ≡ some 0 → other ≡ nh)
    × (lines : List Line) × (click_internet2 click_bf rows ≡ some lines)
    × Elem (wire click_bf 0) lines
click_internet2-wire_example =
    click_internet2-wire click_bf rows table (route ten 0 ∷ []) ten 0 rows-read (inl refl)
