-- ===== src/Tests/Texts.antt =====
-- Flattened tables and packets on small inputs.
use buffalo.Common.OrdSet.{insert, member, nat_order}
use buffalo.Common.Dict.{lookup, value, nat_key}
use buffalo.Common.{
  ℕ, ◌+◌, ◌%◌, ◌^◌, ◌<◌, ◌≡◌, refl, set, replicate, ◌>>=◌, List, [], ◌∷◌, some, arith, inl, each,
  Returns,
}
use buffalo.Fib.Blocks.{block}
use buffalo.Fib.Globals.{FunetRow}
use buffalo.Fib.{find}
use buffalo.Flat.Fill.{or_else, first_nexthop}
use buffalo.Flat.Read.{flat_funet-first}
use buffalo.Flat.{
  add_route, flatten_all, flatten, fill, fill_blocks, line_of, no_routes, read_funet, flat_funet,
  Table,
}
use buffalo.Packet.Drawn.{draw-Listed, draw_all-Listed}
use buffalo.Packet.Sets.{Listed}
use buffalo.Packet.{Sets, read_fib, add_prefix, no_prefixes, draw, draw_all, probe, contains}
use buffalo.Prefix.Equal.{prefix_key, prefix_order}
use buffalo.Prefix.{Prefix, eq}
use buffalo.Tests.Machine.{digits}

abbrev ten : Prefix
ten = record { addr = 0x0a00_0000; len = 8 }

-- 10.1.0.0/22 comes before 10.1.2.0/23, so that 10.1.2.0/24 gets the next hop of the shorter.
abbrev rows : List FunetRow
rows =
    record { addr = 0x0a01_0000; len = 22; tmp = 5 }
    ∷ record { addr = 0x0a01_0200; len = 23; tmp = 6 }
    ∷ record { addr = 0x0a01_0100; len = 24; tmp = 7 }
    ∷ []

flat_funet-first_example :
    (t : Table) × (each rows read_funet no_routes ≡ some t)
    × Returns
        (λ u.
          (q : Prefix)
          → find u.pmap q ≡ or_else (find t.pmap q) (first_nexthop (value t.pmap) t.otherlist q))
        (flat_funet rows)
flat_funet-first_example = flat_funet-first rows

first_wins :
    flat_funet rows >>= (λ u. find u.pmap (record { addr = 0x0a01_0200; len = 24 })) ≡ some 5
unfolding flat_funet read_funet no_routes add_route flatten_all flatten fill fill_blocks line_of
    find lookup value eq each insert
first_wins = refl

abbrev ten_sets : Sets
ten_sets = set (replicate 33 []) 8 (0x0a00_0000 ∷ [])

ten_read : read_fib (ten ∷ []) ≡ some ten_sets
unfolding read_fib each add_prefix no_prefixes insert
ten_read = refl

ten-Listed : Listed (ten ∷ []) 0x0a01_0203
unfolding block
ten-Listed = (8, omega arith, omega arith, inl refl)

draw-Listed_example :
    (test n : ℕ) × ((draw digits ten_sets 0x0a01_0200 5).0 ≡ some test)
    × Listed (ten ∷ []) test
    × (n < 2 ^ 11)
    × (test ≡ (0x0a01_0200 + n) % 2 ^ 32)
draw-Listed_example =
    draw-Listed digits (ten ∷ []) ten_sets 0x0a01_0200 3 5 ten_read (omega arith) ten-Listed

ten_drawn : (draw_all digits ten_sets (0x0a01_0200 ∷ []) 0).0 ≡ 0x0a01_0200 ∷ []
unfolding draw_all draw probe contains member
ten_drawn = refl

draw_all-Listed_example : Listed (ten ∷ []) 0x0a01_0200
draw_all-Listed_example =
    draw_all-Listed digits (ten ∷ []) ten_sets (0x0a01_0200 ∷ []) 0 0x0a01_0200 ten_read
      (rw ten_drawn (inl refl))
