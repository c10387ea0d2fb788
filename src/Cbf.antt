-- ===== src/Cbf.antt =====
-- cbf.cc: ten ports with a counting filter each, and the plain filters that are made from them.
-- The calls of `main` that measure time and print are left out.
pub mod Fold
pub mod Update
use buffalo.Bloom.{BloomFilter, bloom_filter_init}
use buffalo.Bloom
use buffalo.Common.{ℕ, zero, suc, ◌+◌, ◌*◌, List, Option, none, some, get_elem?, set, for, ◌>>=◌}
use buffalo.Counting.{CountingBloomFilter, counting_bloom_filter_init}
use buffalo.Counting
use buffalo.EtherAddress.{EtherAddress, of_uint32}
use buffalo.FilterBank.{reduce}
use buffalo.Hashing.{Pointer, read, write}
use buffalo.Rand.{Rand}

abbrev pub nexthop_count : ℕ
nexthop_count = 10

-- `(int)TOTAL_TABLE_SIZE` in `update_bf`: the macro is `1.5*1024*1024` with no parentheses, and
-- the cast reaches 1.5 only.
abbrev pub copied_size : ℕ
copied_size = 1 * 1024 * 1024

-- `int(TOTAL_TABLE_SIZE)` in `main`, where the parentheses are those of the cast.
abbrev pub total_table_size : ℕ
total_table_size = 1572864

-- The global variables.
pub record Tables : Type 0 where
  pub mac : ℕ
  pub bf : List BloomFilter
  pub cbf : List CountingBloomFilter

-- `bf[i] = ...` and `cbf[i] = ...` by a method of the class; an index out of range is undefined.
unfoldable pub on_bf : ℕ → (BloomFilter → Option BloomFilter) → Tables → Option Tables
on_bf i method s = do f ← get_elem? s.bf i; g ← method f; some (record s { bf = set s.bf i g })

unfoldable pub on_cbf :
    ℕ → (CountingBloomFilter → Option CountingBloomFilter) → Tables → Option Tables
on_cbf i method s = do f ← get_elem? s.cbf i; g ← method f; some (record s { cbf = set s.cbf i g })

-- The inner loop of `update_bf`, `rounds` of it: `bf[i].hash_table[j%bf[i].table_size] = ...`.
unfoldable pub copy_loop : ℕ → ℕ → Pointer → Pointer → Option Pointer
copy_loop rounds table_size from =
    for rounds 0 λ j p. do c ← read from j; at ← reduce j table_size; write p at c

unfoldable pub update_port : ℕ → Tables → Option Tables
update_port i s = do
  source ← get_elem? s.cbf i
  f ← get_elem? s.bf i
  table ← copy_loop copied_size f.table_size source.hash_table f.hash_table
  some (record s { bf = set s.bf i (record f { hash_table = table }) })

unfoldable pub update_bf : Tables → Option Tables
unfolding update_port
update_bf = for nexthop_count 0 update_port

module _ (R : Rand) where
  unfoldable pub route_update : EtherAddress → ℕ → ℕ → Tables → Option Tables
  unfolding on_bf on_cbf
  route_update eaddr inport outport s = do
    s1 ← on_cbf inport (Counting.remove R eaddr) s
    s2 ← on_cbf outport (Counting.insert R eaddr) s1
    s3 ← on_bf inport (Bloom.remove R eaddr) s2
    on_bf outport (Bloom.insert R eaddr) s3

  -- One round of the first loop of `main`; `share n` is `(int)(TOTAL_TABLE_SIZE/total*n)` in double
  -- arithmetic, and `n` the number that is read.
  unfoldable pub start_port : (ℕ → Pointer) → (ℕ → ℕ) → ℕ → ℕ → Tables → Option Tables
  unfolding on_bf on_cbf
  start_port malloc share n i s = do
    s1 ← on_bf i (bloom_filter_init malloc (share n) n 8) s
    on_cbf i (counting_bloom_filter_init malloc total_table_size n 8) s1

  -- One round of the loop that fills port `i`: `mac` becomes an address when it is passed.
  unfoldable pub fill_once : ℕ → Tables → Option Tables
  unfolding on_bf on_cbf
  fill_once i s = do
    let grown = record s { mac = s.mac + 1 }
    s1 ← on_bf i (Bloom.insert R (of_uint32 grown.mac)) grown
    on_cbf i (Counting.insert R (of_uint32 grown.mac)) s1

  -- Both loops of `main`, over the numbers `a`, and its two calls of `update_bf`.
  unfoldable pub main : (ℕ → Pointer) → (ℕ → ℕ) → List ℕ → Tables → Option Tables
  unfolding start_port fill_once
  main malloc share a s = do
    s1 ← for nexthop_count 0 (λ i t. do n ← get_elem? a i; start_port malloc share n i t) s
    s2 ← for nexthop_count 0 (λ i t. do n ← get_elem? a i; for n 0 (λ j. fill_once i) t) s1
    for 2 0 (λ i. update_bf) s2
