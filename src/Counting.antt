-- ===== src/Counting.antt =====
-- CountingBloomFilter.h: `class counting_bloom_filter`, one `unsigned char` counter to a cell.
pub mod Counts
pub mod Trace
pub mod Overflow
use buffalo.Bloom.{zero_loop, mark}
use buffalo.Common.{
  ℕ, ◌+◌, ◌-◌, ◌%◌, ◌^◌, ◌==◌, ltb, if◌then◌else◌, List, Option, none, some, ◌>>=◌,
}
use buffalo.EtherAddress.{EtherAddress, seed}
use buffalo.Hashing.{Pointer, update_loop, contains_loop}
use buffalo.Prefix.{Prefix}
use buffalo.Rand.{Rand}

pub record CountingBloomFilter : Type 0 where
  pub hash_table : Pointer
  pub table_size : ℕ
  pub element_size : ℕ
  pub function_size : ℕ

-- The constructor.
unfoldable pub counting_bloom_filter : CountingBloomFilter → CountingBloomFilter
counting_bloom_filter memory = record memory { hash_table = none }

-- As `bloom_filter_init`: the loop that clears the table is the same text.
unfoldable pub counting_bloom_filter_init :
    (ℕ → Pointer) → ℕ → ℕ → ℕ → CountingBloomFilter → Option CountingBloomFilter
counting_bloom_filter_init malloc tbl_size elem_size fun_size f =
    let size = if tbl_size == 0 then 1 else tbl_size in
    let functions : ℕ = 8 in
    let rounds = if functions == 0 then 1 else functions in
    let empty : CountingBloomFilter = record {
      hash_table = none;
      table_size = size;
      element_size = elem_size;
      function_size = 0;
    } in
    if elem_size == 0 then some empty else do
      table ← (if ltb size (2 ^ 32) then zero_loop size 0 (malloc size) else none)
      some (record empty { hash_table = table; function_size = rounds })

-- `if (!c) c = 1; else c++;` on an unsigned char
unfoldable pub increment : ℕ → ℕ
increment c = if c == 0 then 1 else (c + 1) % 2 ^ 8

-- `if (c) c--;`
unfoldable pub decrement : ℕ → ℕ
decrement c = if c == 0 then c else c - 1

module _ (R : Rand) where
  open R use {srand}

  unfoldable pub insert_seed : ℕ → CountingBloomFilter → Option CountingBloomFilter
  insert_seed s f = do
    table ← update_loop R increment f.function_size (srand s) f.table_size f.hash_table
    some (record f { hash_table = table })

  -- `insert(const EtherAddress &)`
  unfoldable pub insert : EtherAddress → CountingBloomFilter → Option CountingBloomFilter
  unfolding insert_seed
  insert p f = insert_seed (seed p) f

  unfoldable pub remove_seed : ℕ → CountingBloomFilter → Option CountingBloomFilter
  remove_seed s f = do
    table ← update_loop R decrement f.function_size (srand s) f.table_size f.hash_table
    some (record f { hash_table = table })

  -- `remove(const EtherAddress &)`
  unfoldable pub remove : EtherAddress → CountingBloomFilter → Option CountingBloomFilter
  unfolding remove_seed
  remove p f = remove_seed (seed p) f

  -- `insert(const prefix &)` does not count: it sets 1, then 2, as `bloom_filter` does.
  unfoldable pub insert_prefix : Prefix → CountingBloomFilter → Option CountingBloomFilter
  insert_prefix p f = do
    table ← update_loop R mark f.function_size (srand p.addr) f.table_size f.hash_table
    some (record f { hash_table = table })

  unfoldable pub contains_seed : ℕ → CountingBloomFilter → Option ℕ
  contains_seed s f = elim f.hash_table [
    | none ↦ some 0
    | some t ↦ contains_loop R f.function_size (srand s) f.table_size (some t)
  ]

  -- `contains(const EtherAddress &)`
  unfoldable pub contains : EtherAddress → CountingBloomFilter → Option ℕ
  unfolding contains_seed
  contains p f = contains_seed (seed p) f

  -- `contains(const prefix &)`
  unfoldable pub contains_prefix : Prefix → CountingBloomFilter → Option ℕ
  unfolding contains_seed
  contains_prefix p f = contains_seed p.addr f
