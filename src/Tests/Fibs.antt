-- ===== src/Tests/Fibs.antt =====
-- A file of two prefixes, of 10.0.0.0 with 8 and 31 bits, and a lookup of 10.0.0.1.
use buffalo.Common.Dict.{count_up, value, lookup, nat_key}
use buffalo.Common.OrdSet.{insert, nat_order}
use buffalo.Common.{
  ℕ, ◌+◌, ◌-◌, ◌*◌, ◌/◌, ◌%◌, ◌^◌, ◌>>=◌, zero, suc, ◌≤◌, ◌<◌, ◌≡◌, refl, List, [], ◌∷◌, some,
  arith, all_below, all_below_sound, Elem, inl, inr, ◌⊎◌, length, replicate, set, each, Returns,
}
use buffalo.Fib.Blocks.{block}
use buffalo.Fib.Globals.{
  Globals, scheme_lpm, data_routeview, data_internet2, read_routeviewfib, add_prefix, skipped,
  pfxlen_count,
}
use buffalo.Fib.Bits.{hash_bits}
use buffalo.Fib.Diversity.{test_prefix_nexthop, test_prefix_nexthop-Returns}
use buffalo.Fib.Main.Bits.{set_up-hash_bits}
use buffalo.Fib.Main.Lookups.{set_up-lookup}
use buffalo.Fib.Main.{FibFile, no_tables, read_fib, set_up}
use buffalo.Fib.Main.Sampled.{begin, set_up-sample_loop}
use buffalo.Fib.Perform.Agreement.{drawn}
use buffalo.Fib.Perform.{sample_loop}
use buffalo.Fib.Search.{ask_filters}
use buffalo.Fib.{linear_lookup, lookup_loop, find}
use buffalo.Hashing.Draws.{NeverMax}
use buffalo.Prefix.Equal.{prefix_key}
use buffalo.Prefix.{Prefix}
use buffalo.Tests.Builds.{junk}
use buffalo.Tests.Machine.{digits, malloc, malloc-Allocates, safe, no_nine}

abbrev pub network : ℕ
network = 0x0a00_0000

abbrev wide : Prefix
wide = record { addr = network; len = 8 }

abbrev narrow : Prefix
narrow = record { addr = network; len = 31 }

abbrev pub file : FibFile
file = record { routes = (wide, 7) ∷ (narrow, 5) ∷ []; funet_rows = []; macs = [] }

abbrev pub read : Globals
read = record {
  pfxlist = wide ∷ narrow ∷ [];
  pmap = (narrow, 5) ∷ (wide, 7) ∷ [];
  nhlist = 5 ∷ 7 ∷ [];
  nhindex = [];
  nhcount = (5, 1) ∷ (7, 1) ∷ [];
  maclist = [];
  macmap = [];
  pfxlencount = (31, 1) ∷ (8, 1) ∷ [];
  nh_pfxlen_count = set (set (replicate pfxlen_count []) 8 ((7, 1) ∷ [])) 31 ((5, 1) ∷ []);
}

pub is_read : read_fib data_routeview scheme_lpm file no_tables ≡ some read
unfolding read_fib read_routeviewfib add_prefix skipped buffalo.Common.each insert count_up value
    lookup
is_read = refl

pub blocks_safe : (j : ℕ) → 0 < j → j ≤ 32 → NeverMax digits 8 (block (network + 1) j).addr
unfolding block all_below
blocks_safe j pos short =
    safe 8 (block (network + 1) j).addr
      (all_below_sound 33 (λ l. no_nine 8 (block (network + 1) l).addr) j refl (omega arith))

pub rows_positive : (row : Prefix × ℕ) → Elem row file.routes → 0 < (row.0).len
rows_positive row m = elim m [
  | inl e ↦ rw e (omega arith)
  | inr rest ↦ elim rest [ inl e ↦ rw e (omega arith) | inr none_left ↦ absurd none_left ]
]

pub routes_safe : (p : Prefix) → Elem p read.pfxlist → NeverMax digits 8 p.addr
routes_safe p m = elim m [
  | inl e ↦ rw e (safe 8 network refl)
  | inr rest ↦ elim rest [ inl e ↦ rw e (safe 8 network refl) | inr none_left ↦ absurd none_left ]
]

set_up-lookup_example :
    Returns
      (λ ready.
        Returns
          (λ found. (0 < found.error) × ((1 < found.error) ⊎ (found.nh ≡ 5)))
          (ask_filters digits ready.0 ready.1 (network + 1)))
      (set_up digits malloc (λ c t. 16) [] data_routeview scheme_lpm file (replicate 66 junk))
unfolding linear_lookup lookup_loop find lookup buffalo.Prefix.eq
set_up-lookup_example =
    set_up-lookup digits malloc (λ c t. 16) [] data_routeview scheme_lpm file (replicate 66 junk)
      read (network + 1) 5 malloc-Allocates (λ c t. omega arith) (rows_positive, omega arith)
      is_read (omega arith) routes_safe (omega arith) blocks_safe (λ e. absurd (omega (arith, e)))
      refl

is_read_internet2 : read_fib data_internet2 scheme_lpm file no_tables ≡ some read
unfolding read_fib read_routeviewfib add_prefix skipped buffalo.Common.each insert count_up value
    lookup
is_read_internet2 = refl

-- The number that is mixed into an address of the file, at a resolution of 9.
abbrev mixed : ℕ → ℕ → ℕ
mixed r addr = (r * 2 ^ 11 / 9 + addr) % 2 ^ 32

-- From the seed 1 on, every first draw is 1, which adds 227: the addresses are 10.0.0.1 and 257.
abbrev packets : List ℕ
packets = (network - 226) ∷ 30 ∷ []

far_safe : (j : ℕ) → 0 < j → j ≤ 32 → NeverMax digits 8 (block 257 j).addr
unfolding block all_below
far_safe j pos short =
    safe 8 (block 257 j).addr
      (all_below_sound 33 (λ l. no_nine 8 (block 257 l).addr) j refl (omega arith))

set_up-sample_loop_example :
    Returns
      (λ t. (t.falseneg ≤ t.falsepos) × (t.falsepos ≤ 2))
      (do
        ready ←
            set_up digits malloc (λ c t. 16) [] data_internet2 scheme_lpm file (replicate 66 junk)
        sample_loop digits mixed ready.0 ready.1 4 data_internet2 (begin packets 1 0))
unfolding drawn
set_up-sample_loop_example =
    set_up-sample_loop digits mixed malloc (λ c t. 16) [] data_internet2 scheme_lpm file
      (replicate 66 junk) read 4 1 0 packets malloc-Allocates (λ c t. omega arith)
      (rows_positive, omega arith) tt is_read_internet2 (omega arith) (omega arith) routes_safe
      ((omega arith, blocks_safe), ((omega arith, far_safe), tt)) (omega arith) (omega arith)

set_up-hash_bits_example :
    Returns
      (λ ready. hash_bits digits ready.0 ready.1 (network + 1) 3 ≡ some 3)
      (set_up digits malloc (λ c t. 16) [] data_routeview scheme_lpm file (replicate 66 junk))
set_up-hash_bits_example =
    set_up-hash_bits digits malloc (λ c t. 16) [] data_routeview scheme_lpm file (replicate 66 junk)
      read (network + 1) 3 malloc-Allocates (λ c t. omega arith) (rows_positive, omega arith)
      is_read (omega arith) (omega arith) routes_safe (omega arith) blocks_safe

routes_short : (p : Prefix) → Elem p read.pfxlist → p.len ≤ 32
routes_short p m = elim m [
  | inl e ↦ rw e (omega arith)
  | inr rest ↦ elim rest [ inl e ↦ rw e (omega arith) | inr none_left ↦ absurd none_left ]
]

test_prefix_nexthop-Returns_example :
    Returns (λ r. (k : ℕ) → Elem k r.1 → k ≤ 32) (test_prefix_nexthop read)
test_prefix_nexthop-Returns_example = test_prefix_nexthop-Returns read routes_short
