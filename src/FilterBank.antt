-- ===== src/FilterBank.antt =====
-- bfclick/ip/bloomfilter.hh: `class bloom_filter` of the Click prototype, ten filters of packed
-- bits, one to an output port.
-- The four arrays `hash_table`, `table_size`, `element_size` and `function_size` are one list of
-- slots, since each index stands for one port. Signed overflow, a division by 0 and an access out
-- of bounds are undefined, and stop the model with `none`.
pub mod Bit
pub mod Slots
pub mod Insert
pub mod Lookup
pub mod Route
pub mod Counters
use Prim.Native.Nat.{bit_and, bit_or}
use buffalo.Bloom.{zero_loop}
use buffalo.Common.Int.{ℤ, pos, ltb_ℤ}
use buffalo.Common.{
  ℕ, zero, suc, ◌+◌, ◌*◌, ◌/◌, ◌%◌, ◌^◌, ◌==◌, ltb, leb, if◌then◌else◌, List, [], ◌∷◌, Option, none,
  some, get_elem?, set, length, replicate, for, max, ◌>>=◌,
}
use buffalo.Hashing.{Pointer, read, write}

pub record Slot : Type 0 where
  pub hash_table : Pointer
  pub table_size : ℕ
  pub element_size : ℕ
  pub function_size : ℕ

pub record FilterBank : Type 0 where
  pub slots : List Slot
  pub max_port : ℤ
  pub bf_count : ℕ
  pub max_function_size : ℕ

abbrev pub max_bf_count : ℕ
max_bf_count = 10

abbrev esize : List ℕ
esize = 141157 ∷ 17844 ∷ 10523 ∷ 10478 ∷ 6268 ∷ 4895 ∷ 2974 ∷ 2196 ∷ 1967 ∷ 1698 ∷ []

abbrev pub aseed : List ℕ
aseed =
    4 ∷ 55 ∷ 27 ∷ 98 ∷ 34 ∷ 12 ∷ 35 ∷ 90 ∷ 21 ∷ 44 ∷ 67 ∷ 19 ∷ 3 ∷ 93 ∷ 49 ∷ 83 ∷ 64 ∷ 137 ∷ 38 ∷ 28
    ∷ 39 ∷ 34 ∷ 48 ∷ 56 ∷ 52 ∷ 24 ∷ 58 ∷ 38 ∷ 23 ∷ 40 ∷ []

abbrev pub bseed : List ℕ
bseed =
    27 ∷ 98 ∷ 34 ∷ 12 ∷ 35 ∷ 90 ∷ 21 ∷ 44 ∷ 67 ∷ 19 ∷ 3 ∷ 93 ∷ 49 ∷ 83 ∷ 64 ∷ 137 ∷ 38 ∷ 28 ∷ 39
    ∷ 34 ∷ 48 ∷ 56 ∷ 52 ∷ 24 ∷ 58 ∷ 38 ∷ 23 ∷ 40 ∷ 43 ∷ 63 ∷ []

abbrev pub bit_mask : List ℕ
bit_mask = 0x01 ∷ 0x02 ∷ 0x04 ∷ 0x08 ∷ 0x10 ∷ 0x20 ∷ 0x40 ∷ 0x80 ∷ []

-- An `int` result that is not negative.
unfoldable pub as_int : ℕ → Option ℕ
as_int x = if ltb x (2 ^ 31) then some x else none

-- `esize[j]*TOTAL_MEMORY/200000`, where the macro stands for `1024*1024` with no parentheses
unfoldable pub size_of : ℕ → Option ℕ
unfolding as_int
size_of j = do
  e ← get_elem? esize j
  kilo ← as_int (e * 1024)
  mega ← as_int (kilo * 1024)
  some (mega / 200000)

clear_tables : List Slot → List Slot
clear_tables [] = []
clear_tables (s ∷ ss) = record s { hash_table = none } ∷ clear_tables ss

-- The constructor. `max_port` and the arrays but `hash_table` keep what the memory held.
unfoldable pub bloom_filter : FilterBank → FilterBank
unfolding clear_tables
bloom_filter memory = record memory {
  slots = clear_tables memory.slots;
  bf_count = 0;
  max_function_size = 0;
}

-- One round of `initialize`; `alloc n` is the block of `new unsigned char[n]`, with what it held.
-- Of the block only the first `BF_SIZE/8` bytes are cleared.
unfoldable pub initialize_slot : (ℕ → Pointer) → ℕ → FilterBank → Option FilterBank
unfolding size_of
initialize_slot alloc j b = do
  size ← size_of j
  table ← zero_loop (100 / 8) 0 (alloc (size / 8))
  let slot : Slot = record {
    hash_table = table;
    table_size = size;
    element_size = 0;
    function_size = 8;
  }
  some (record b {
    slots = set b.slots j slot;
    max_function_size = (if ltb b.max_function_size 8 then 8 else b.max_function_size);
  })

unfoldable pub initialize : (ℕ → Pointer) → FilterBank → Option FilterBank
unfolding initialize_slot
initialize alloc = for max_bf_count 0 (initialize_slot alloc)

-- `(data[1] << 8) + data[2]`, for the second and third 16-bit word of the address
unfoldable pub key : ℕ → ℕ → ℕ
key word1 word2 = word1 * 2 ^ 8 + word2

-- `aseed[i]*addr+bseed[i]`
unfoldable pub hash : ℕ → ℕ → Option ℕ
unfolding as_int
hash addr i = do a ← get_elem? aseed i; b ← get_elem? bseed i; as_int (a * addr + b)

-- `hash % table_size`
unfoldable pub reduce : ℕ → ℕ → Option ℕ
reduce h zero = none
reduce h (suc n) = some (h % suc n)

-- `hash_table[bfpos/char_size] |= bit_mask[bfpos%char_size]`
unfoldable pub set_bit : Pointer → ℕ → Option Pointer
unfolding read write
set_bit p bitpos = do
  c ← read p (bitpos / 8)
  m ← get_elem? bit_mask (bitpos % 8)
  write p (bitpos / 8) (bit_or c m)

-- `hash_table[bfpos/char_size] & bit_mask[bfpos%char_size]`
unfoldable pub get_bit : Pointer → ℕ → Option ℕ
unfolding read
get_bit p bitpos = do
  c ← read p (bitpos / 8)
  m ← get_elem? bit_mask (bitpos % 8)
  some (bit_and c m)

-- The bit of the `i`-th hash function.
unfoldable pub position : Slot → ℕ → ℕ → Option ℕ
unfolding hash reduce
position s addr i = do h ← hash addr i; reduce h s.table_size

-- The loop of `etherinsert`.
unfoldable pub set_bits : Slot → ℕ → Option Pointer
set_bits s addr =
    for s.function_size 0 (λ i p. do bitpos ← position s addr i; set_bit p bitpos) s.hash_table

unfoldable pub etherinsert : ℕ → ℕ → ℕ → FilterBank → Option FilterBank
unfolding set_bits key
etherinsert word1 word2 port b = do
  let grown =
      if ltb_ℤ (pos port) b.max_port
      then b
      else record b { bf_count = b.bf_count + 1; max_port = pos (port + 1) }
  s ← get_elem? b.slots port
  table ← set_bits s (key word1 word2)
  some (record grown {
    slots = set b.slots port (record s { hash_table = table; element_size = s.element_size + 1 });
  })

-- The body of the inner loop of `etherlookup`.
unfoldable pub probe : List Slot → ℕ → ℕ → ℕ → List ℕ → Option (List ℕ)
probe slots addr i port count = do
  s ← get_elem? slots port
  let tested = do
    bitpos ← position s addr i
    bit ← get_bit s.hash_table bitpos
    c ← get_elem? count port
    some (if bit == 0 then count else set count port (c + 1))
  if leb s.function_size i then some count else tested

unfoldable pub count_hits : FilterBank → ℕ → Option (List ℕ)
unfolding probe
count_hits b addr =
    for b.max_function_size 0 (λ i. for b.bf_count 0 (probe b.slots addr i))
      (replicate max_bf_count 0)

-- The loop that ends at the first full count: `hit` and `hitport`, where `none` is -1.
unfoldable pub first_full : List Slot → List ℕ → ℕ → ℕ → Option (ℕ × Option ℕ)
first_full slots count zero port = some (0, none)
first_full slots count (suc rounds) port = do
  c ← get_elem? count port
  s ← get_elem? slots port
  let rest = first_full slots count rounds (suc port)
  if c == s.function_size then some (1, some port) else rest

unfoldable pub etherlookup : ℕ → ℕ → FilterBank → Option (Option ℕ)
unfolding count_hits first_full key
etherlookup word1 word2 b = do
  count ← count_hits b (key word1 word2)
  (hit, hitport) ← first_full b.slots count b.bf_count 0
  some (if ltb 1 hit then none else hitport)
