-- ===== src/Bloom.antt =====
-- BloomFilter.h: `class bloom_filter`, one byte to a cell: 0 empty, 1 hit once, 2 hit more often.
pub mod Build
pub mod Membership
pub mod Remove
use buffalo.Common.{
  ℕ, zero, suc, ◌+◌, ◌^◌, ◌==◌, ltb, if◌then◌else◌, ◌≡◌, List, [], ◌∷◌, Option, none, some, ◌>>=◌,
}
use buffalo.EtherAddress.{EtherAddress, seed}
use buffalo.Hashing.{Pointer, read, write, update_loop, contains_loop}
use buffalo.Prefix.{Prefix}
use buffalo.Rand.{Rand}

pub record BloomFilter : Type 0 where
  pub hash_table : Pointer
  pub table_size : ℕ
  pub element_size : ℕ
  pub function_size : ℕ

-- The constructor sets the pointer; the other fields keep what the memory held.
unfoldable pub bloom_filter : BloomFilter → BloomFilter
bloom_filter memory = record memory { hash_table = none }

-- `for (i = 0; i < table_size; ++i) hash_table[i] = 0`, with `n` rounds left
unfoldable pub zero_loop : ℕ → ℕ → Pointer → Option Pointer
zero_loop zero i p = some p
zero_loop (suc n) i p = write p i 0 >>= zero_loop n (i + 1)

-- `malloc n` is the block that `malloc(n)` returns, with what it held before. The counter of the
-- loop has 32 bits: at a larger table the loop does not end, which `none` stands for.
-- `fun_size` is not read, and an earlier table is not freed.
unfoldable pub bloom_filter_init : (ℕ → Pointer) → ℕ → ℕ → ℕ → BloomFilter → Option BloomFilter
unfolding zero_loop
bloom_filter_init malloc tbl_size elem_size fun_size f =
    let size = if tbl_size == 0 then 1 else tbl_size in
    let functions : ℕ = 8 in
    let rounds = if functions == 0 then 1 else functions in
    let empty : BloomFilter = record {
      hash_table = none;
      table_size = size;
      element_size = elem_size;
      function_size = 0;
    } in
    if elem_size == 0 then some empty else do
      table ← (if ltb size (2 ^ 32) then zero_loop size 0 (malloc size) else none)
      some (record empty { hash_table = table; function_size = rounds })

-- `if (!c) c = 1; else c = 2;`
unfoldable pub mark : ℕ → ℕ
mark c = if c == 0 then 1 else 2

-- `if (c) c = 0;`
unfoldable pub clear : ℕ → ℕ
clear c = if c == 0 then c else 0

-- The indices above 1 that `check` prints, from index `i` on, with `n` rounds left.
unfoldable pub check_loop : ℕ → ℕ → Pointer → Option (List ℕ)
check_loop zero i p = some []
check_loop (suc n) i p = do
  c ← read p i
  printed ← check_loop n (i + 1) p
  some (if ltb 1 c then i ∷ printed else printed)

unfoldable pub check : BloomFilter → Option (List ℕ)
unfolding check_loop
check f = if ltb f.table_size (2 ^ 32) then check_loop f.table_size 0 f.hash_table else none

module _ (R : Rand) where
  open R use {srand}

  -- The two overloads of each method differ in the argument of `srand`.
  unfoldable pub insert_seed : ℕ → BloomFilter → Option BloomFilter
  insert_seed s f = do
    table ← update_loop R mark f.function_size (srand s) f.table_size f.hash_table
    some (record f { hash_table = table })

  -- `insert(const EtherAddress &)`
  unfoldable pub insert : EtherAddress → BloomFilter → Option BloomFilter
  unfolding insert_seed
  insert p f = insert_seed (seed p) f

  -- `insert(const prefix &)`
  unfoldable pub insert_prefix : Prefix → BloomFilter → Option BloomFilter
  unfolding insert_seed
  insert_prefix p f = insert_seed p.addr f

  -- `remove(const EtherAddress &)`
  unfoldable pub remove : EtherAddress → BloomFilter → Option BloomFilter
  remove p f = do
    table ← update_loop R clear f.function_size (srand (seed p)) f.table_size f.hash_table
    some (record f { hash_table = table })

  unfoldable pub contains_seed : ℕ → BloomFilter → Option ℕ
  contains_seed s f = elim f.hash_table [
    | none ↦ some 0
    | some t ↦ contains_loop R f.function_size (srand s) f.table_size (some t)
  ]

  -- `contains(const EtherAddress &)`
  unfoldable pub contains : EtherAddress → BloomFilter → Option ℕ
  unfolding contains_seed
  contains p f = contains_seed (seed p) f

  -- `contains(const prefix &)`
  unfoldable pub contains_prefix : Prefix → BloomFilter → Option ℕ
  unfolding contains_seed
  contains_prefix p f = contains_seed p.addr f
