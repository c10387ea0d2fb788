-- ===== src/Fib/Search.antt =====
-- BloomFilterTest.cc: the lookup of `perform_pfxlen_each_out`, which asks the filters of every next
-- hop and every length.
pub mod Asked
pub mod Hits
pub mod Agree
use Prim.Native.Nat.{bit_and}
use buffalo.Bloom
use buffalo.Bloom.{BloomFilter}
use buffalo.Common.{
  ℕ, zero, suc, ◌+◌, ◌-◌, ◌*◌, ◌%◌, ◌^◌, ◌==◌, ltb, if◌then◌else◌, List, [], ◌∷◌, ◌++◌, Option,
  none, some, get_elem?, length, each, not, ◌&&◌, ◌||◌, ◌>>=◌,
}
use buffalo.Fib.Build.{pfx_index}
use buffalo.Fib.Globals.{Globals, DataScheme, data_routeview, data_funet, data_internet2, data_mac}
use buffalo.Fib.{linear_lookup}
use buffalo.FilterBank.{as_int}
use buffalo.Prefix.{Prefix}
use buffalo.Rand.{Rand}

-- The variables that the loop over the next hops changes.
pub record Found : Type 0 where
  pub error : ℕ
  pub nh : ℕ
  pub hitj : ℕ

-- The round of one next hop.
unfoldable pub note_hit : ℕ → ℕ → Found → Found
note_hit nexthop zero s = s
note_hit nexthop (suc j) s =
    if s.nh == 0 || ltb s.hitj (suc j)
    then record { error = s.error + 1; nh = nexthop; hitj = suc j }
    else record s { error = s.error + 1 }

module _ (R : Rand) (g : Globals) (filters : List BloomFilter) where
  -- The inner loop from the length `j` down: the length of the first hit, or 0.
  unfoldable pub longest_hit : ℕ → ℕ → ℕ → ℕ → Option ℕ
  unfolding pfx_index
  longest_hit nexthop addr zero mask = some 0
  longest_hit nexthop addr (suc j) mask = do
    f ← get_elem? filters (pfx_index g (suc j) nexthop)
    hit ← Bloom.contains_prefix R (record { addr = bit_and addr mask; len = suc j % 2 ^ 8 }) f
    let rest = longest_hit nexthop addr j (mask * 2 % 2 ^ 32)
    if hit == 0 then rest else some (suc j)

  unfoldable pub ask_filters : ℕ → Option Found
  unfolding longest_hit note_hit
  ask_filters addr =
      each g.nhlist
        (λ nexthop s. do j ← longest_hit nexthop addr 32 0xffff_ffff; some (note_hit nexthop j s))
        (record { error = 0; nh = 0; hitj = 0 })
