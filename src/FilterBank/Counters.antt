-- ===== src/FilterBank/Counters.antt =====
-- bfclick/ip/bloomfilter.hh: `class counting_bloom_filter`, whose other operation returns 0.
use native.Mathlib.Decide.{ℕ_discrete}
use buffalo.Common.{
  ℕ, true, ◌*◌, ◌<◌, ltb, if◌then◌else◌, ◌≡◌, refl, ◌∙◌, List, Option, none, some, arith, get_elem?,
  get_elem?-set_self, get_elem?-set_ne, set, length, length-set, replicate, for, for-Returns,
  Returns,
}
use buffalo.FilterBank.{max_bf_count}
use buffalo.Hashing.{Pointer}

-- `MAX_CBF_TABLE_SIZE`
abbrev pub max_cbf_table_size : ℕ
max_cbf_table_size = 1024 * 68

-- The pointers of `hash_table` are what the memory holds.
pub record CounterRows : Type 0 where
  pub function_size : ℕ
  pub table_size : ℕ
  pub hash_table : List Pointer

unfoldable pub counting_bloom_filter : List Pointer → CounterRows
counting_bloom_filter memory = record {
  function_size = 23;
  table_size = max_cbf_table_size;
  hash_table = memory;
}

-- A round of `initialize`: a new block, all of which `memset` clears.
unfoldable pub initialize_row : ℕ → CounterRows → Option CounterRows
initialize_row i c =
    let block : Pointer = some (replicate (max_bf_count * c.function_size) 0) in
    if ltb i (length c.hash_table)
    then some (record c { hash_table = set c.hash_table i block })
    else none

unfoldable pub initialize : CounterRows → Option CounterRows
unfolding initialize_row
initialize c = for c.table_size 0 initialize_row c

-- For an object with room for its rows `initialize` ends, and every row is a block of 230 zeros.
pub initialize-clears :
    (memory : List Pointer)
    → length memory ≡ max_cbf_table_size
    → Returns
        (λ c.
          (i : ℕ)
          → i < max_cbf_table_size
          → get_elem? c.hash_table i ≡ some (some (replicate 230 0)))
        (initialize (counting_bloom_filter memory))
unfolding initialize counting_bloom_filter initialize_row
initialize-clears memory len =
    let (c, run, (_, _, clear)) =
      for-Returns
        (λ k c.
          (c.function_size ≡ 23)
          × (length c.hash_table ≡ max_cbf_table_size)
          × ((i : ℕ) → i < k → get_elem? c.hash_table i ≡ some (some (replicate 230 0))))
        max_cbf_table_size initialize_row max_cbf_table_size 0
        (record { function_size = 23; table_size = max_cbf_table_size; hash_table = memory })
        (omega arith)
        (λ k c low high (functions, width, clear).
          let inside : k < length c.hash_table = rw width high in
          let fits : ltb k (length c.hash_table) ≡ true = ground (arith, inside) in
          let block : Pointer = some (replicate (max_bf_count * c.function_size) 0) in
          (
            record c { hash_table = set c.hash_table k block },
            rw (initialize_row, fits) refl,
            (
              functions,
              length-set c.hash_table k block ∙ width,
              λ i below. elim (ℕ_discrete k i) [
                | yes e ↦
                    rw (← e) (get_elem?-set_self c.hash_table k block inside ∙ (rw functions refl))
                | no apart ↦ get_elem?-set_ne c.hash_table block apart ∙ clear i (omega arith)
              ],
            ),
          ))
        (refl, len, λ i below. absurd (omega (arith, below))) in
    (c, run, clear)
