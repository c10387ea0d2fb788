-- ===== src/Fib.antt =====
-- BloomFilterTest.cc: the table of prefixes and the lookup that the filters are compared with.
pub mod Blocks
pub mod Longest
pub mod Build
pub mod Globals
pub mod Macs
pub mod Search
pub mod Perform
pub mod Diversity
pub mod Bits
pub mod Main
use Prim.Native.Nat.{bit_and}
use buffalo.Common.{ℕ, zero, suc, ◌*◌, ◌%◌, ◌^◌, List, [], ◌∷◌, Option, none, some, if◌then◌else◌}
use buffalo.Common.Dict.{Dict, lookup}
use buffalo.Prefix.Equal.{prefix_key}
use buffalo.Prefix.{Prefix}

-- `map<prefix, uint32_t>`, as its entries.
abbrev pub PrefixMap : Type 0
PrefixMap = Dict Prefix ℕ

-- `pmap.find(p)`, with the value of what it finds; `none` is `pmap.end()`.
unfoldable pub find : PrefixMap → Prefix → Option ℕ
unfolding lookup
find = lookup

-- The loop of `linear_lookup` from the length `i` down.
unfoldable pub lookup_loop : PrefixMap → ℕ → ℕ → ℕ → ℕ
lookup_loop pmap addr zero mask = 0
lookup_loop pmap addr (suc i) mask =
    let rest = lookup_loop pmap addr i (mask * 2 % 2 ^ 32) in
    elim (find pmap (record { addr = bit_and addr mask; len = suc i % 2 ^ 8 })) [
      | some nexthop ↦ nexthop
      | none ↦ rest
    ]

unfoldable pub linear_lookup : PrefixMap → ℕ → ℕ → ℕ
unfolding lookup_loop find
linear_lookup pmap addr len = lookup_loop pmap addr len 0xffff_ffff
