-- ===== src/Tests/Filters.antt =====
-- The filters on small tables.
use buffalo.Bloom.Build.{Holds}
use buffalo.Bloom.Membership.{contains-insert_all, contains-member, all_indices, insert_all}
use buffalo.Bloom.Remove.{SomeMax, contains-remove, insert-remove-none}
use buffalo.Bloom.{BloomFilter, bloom_filter_init, contains_seed, insert, remove, contains}
use buffalo.Common.{
  Elem, ℕ, zero, suc, ◌≡◌, sym, refl, inl, inr, List, [], ◌∷◌, none, some, ◌>>=◌, arith, replicate,
  ◌≤◌, ◌++◌, set, length, if◌then◌else◌, ◌==◌, ◌∙◌,
}
use buffalo.Counting
use buffalo.Counting.{increment, CountingBloomFilter}
use buffalo.Counting.Overflow.{contains-insert_wrapped}
use buffalo.Counting.Trace.{
  Trace, start, inserted, seed_draws, contains-Trace, contains-remove_seed,
}
use buffalo.EtherAddress.{EtherAddress, seed}
use buffalo.Hashing.Draws.{draws, NeverMax}
use buffalo.Hashing.Iterate.{cell, count, cell-set, cell-replicate}
use buffalo.Hashing.{update_loop, read, write}
use buffalo.Hashing.Marks.{covered}
use buffalo.Tests.Machine.{digits, malloc, malloc-Allocates, safe}

-- What the memory of a filter held before.
abbrev junk : BloomFilter
junk = record { hash_table = none; table_size = 3; element_size = 4; function_size = 5 }

contains-insert_all_example :
    (f : BloomFilter) × ((bloom_filter_init malloc 90 2 0 junk
        >>= insert_all digits (12345678 ∷ 11122233 ∷ []))
      ≡ some f)
    × (contains_seed digits 33221100 f
        ≡ some (
            covered
              (draws digits 8 33221100 90)
              (all_indices digits 8 90 (12345678 ∷ 11122233 ∷ []) [])))
contains-insert_all_example =
    contains-insert_all digits malloc 90 2 0 junk malloc-Allocates (omega arith) (omega arith)
      (12345678 ∷ 11122233 ∷ []) 33221100 (safe 8 12345678 refl, (safe 8 11122233 refl, tt))
      (safe 8 33221100 refl)

contains-member_example :
    (f : BloomFilter) × ((bloom_filter_init malloc 90 2 0 junk
        >>= insert_all digits (12345678 ∷ 11122233 ∷ []))
      ≡ some f)
    × (contains_seed digits 11122233 f ≡ some 1)
contains-member_example =
    contains-member digits malloc 90 2 0 junk malloc-Allocates (omega arith) (omega arith)
      (12345678 ∷ 11122233 ∷ []) 11122233 (safe 8 12345678 refl, (safe 8 11122233 refl, tt))
      (safe 8 11122233 refl) (inr (inl refl))

-- A counting filter of 90 cells after one insert.
abbrev fresh : CountingBloomFilter
fresh = record {
  hash_table = some (replicate 90 0);
  table_size = 90;
  element_size = 1;
  function_size = 8;
}

fresh-Holds : Counting.Counts.Holds 8 90 [] fresh
unfolding count
fresh-Holds = record {
  table = replicate 90 0;
  points = refl;
  length_table = refl;
  size = refl;
  functions = refl;
  counts = cell-replicate 90;
}

-- The same with one counter at 1 in every block of ten but the first.
abbrev ones_table : ℕ → List ℕ
ones_table zero = replicate 10 0
ones_table (suc n) = ones_table n ++ 1 ∷ replicate 9 0

abbrev one_insert : CountingBloomFilter
one_insert = record fresh { hash_table = some (ones_table 8) }

count-le : (i : ℕ) (hs : List ℕ) → count i hs ≤ length hs
unfolding count
count-le i [] = omega arith
count-le i (h ∷ hs) = ground (arith, count-le i hs)

fits_one : (i : ℕ) → count i (seed_draws digits 8 90 (12345678 ∷ [])) ≤ 255
unfolding seed_draws draws
fits_one i = omega (arith, count-le i (seed_draws digits 8 90 (12345678 ∷ [])))

one_insert-Trace : Trace digits 8 90 (12345678 ∷ []) one_insert
unfolding Counting.insert_seed update_loop read write increment
one_insert-Trace = inserted 12345678 (start fresh-Holds) (safe 8 12345678 refl) fits_one refl

contains-Trace_example : Counting.contains_seed digits 12345678 one_insert ≡ some 1
contains-Trace_example =
    contains-Trace digits 8 90 (omega arith) (omega arith) 12345678 one_insert-Trace
      (safe 8 12345678 refl) (inl refl)

-- A second element, which shares seven cells with the first and draws one of them twice.
abbrev twos_table : ℕ → List ℕ
twos_table zero = replicate 10 0
twos_table (suc n) = twos_table n ++ 2 ∷ replicate 9 0

abbrev two_inserts : CountingBloomFilter
two_inserts = record fresh {
  hash_table = some (twos_table 6 ++ 3 ∷ replicate 9 0 ++ 1 ∷ replicate 9 0);
}

fits_two : (i : ℕ) → count i (seed_draws digits 8 90 (12345677 ∷ 12345678 ∷ [])) ≤ 255
unfolding seed_draws draws
fits_two i = omega (arith, count-le i (seed_draws digits 8 90 (12345677 ∷ 12345678 ∷ [])))

two_inserts-Trace : Trace digits 8 90 (12345677 ∷ 12345678 ∷ []) two_inserts
unfolding Counting.insert_seed update_loop read write increment
two_inserts-Trace = inserted 12345677 one_insert-Trace (safe 8 12345677 refl) fits_two refl

contains-remove_seed_example :
    (g : CountingBloomFilter) × (Counting.remove_seed digits 12345677 two_inserts ≡ some g)
    × ((q : ℕ)
        → NeverMax digits 8 q
        → Elem q (12345678 ∷ [])
        → Counting.contains_seed digits q g ≡ some 1)
contains-remove_seed_example =
    contains-remove_seed digits 8 90 (omega arith) (omega arith) 12345677 [] (12345678 ∷ [])
      two_inserts-Trace (safe 8 12345677 refl)

-- An element whose eight draws are all of the cell 10, and 31 inserts of it.
abbrev heavy : CountingBloomFilter
heavy = record fresh { hash_table = some (set (replicate 90 0) 10 248) }

abbrev heavy_draws : List ℕ
heavy_draws = replicate 248 10

count-replicate : (n h i : ℕ) → (if h == i then n else 0) ≡ count i (replicate n h)
unfolding count
count-replicate zero h i = ground arith
count-replicate (suc n) h i = ground (arith, count-replicate n h i)

heavy_cell : (i : ℕ) → (if 10 == i then 248 else cell (replicate 90 0) i) ≡ count i heavy_draws
heavy_cell i = rw (cell-replicate 90 i) (count-replicate 248 10 i)

heavy-Holds : Counting.Counts.Holds 8 90 heavy_draws heavy
heavy-Holds = record {
  table = set (replicate 90 0) 10 248;
  points = refl;
  length_table = refl;
  size = refl;
  functions = refl;
  counts = λ i. cell-set (replicate 90 0) 10 i 248 (omega arith) ∙ heavy_cell i;
}

heavy_count : count 10 heavy_draws ≡ 248
heavy_count = sym (count-replicate 248 10 10)

all_ones_count : count 10 (draws digits 8 11111111 90) ≡ 8
unfolding count draws
all_ones_count = refl

contains-insert_wrapped_example :
    (g : CountingBloomFilter) × (Counting.insert_seed digits 11111111 heavy ≡ some g)
    × (Counting.contains_seed digits 11111111 g ≡ some 0)
contains-insert_wrapped_example =
    contains-insert_wrapped digits 8 90 11111111 11111111 10 heavy_draws heavy (omega arith)
      (omega arith) (safe 8 11111111 refl) (safe 8 11111111 refl) heavy-Holds
      (omega (arith, heavy_count)) (omega (arith, heavy_count, all_ones_count))
      (omega (arith, all_ones_count))

-- An empty filter, and addresses whose seeds are 11111111, 33333331 and 9.
abbrev empty : BloomFilter
empty = record {
  hash_table = some (replicate 90 0);
  table_size = 90;
  element_size = 1;
  function_size = 8;
}

empty-Holds : Holds 8 90 [] empty
unfolding count
empty-Holds = record {
  table = replicate 90 0;
  points = refl;
  length_table = refl;
  size = refl;
  functions = refl;
  marks = λ i. rw (cell-replicate 90 i) refl;
}

abbrev ones_address : EtherAddress
ones_address = record { addr0 = 0; addr1 = 169; addr2 = 35527 }

abbrev threes_address : EtherAddress
threes_address = record { addr0 = 7; addr1 = 508; addr2 = 41043 }

abbrev nine_address : EtherAddress
nine_address = record { addr0 = 0; addr1 = 0; addr2 = 9 }

threes_count : count 10 (draws digits 8 (seed threes_address) 90) ≡ 1
unfolding count draws seed
threes_count = refl

ones_count : count 10 (draws digits 8 (seed ones_address) 90) ≡ 8
unfolding count draws seed
ones_count = refl

ones_safe : NeverMax digits 8 (seed ones_address)
unfolding seed
ones_safe = safe 8 11111111 refl

threes_safe : NeverMax digits 8 (seed threes_address)
unfolding seed
threes_safe = safe 8 33333331 refl

nine_max : SomeMax digits 8 (seed nine_address)
unfolding seed
nine_max = inl refl

contains-remove_example :
    (g : BloomFilter) × (remove digits ones_address empty ≡ some g)
    × (contains digits threes_address g ≡ some 0)
contains-remove_example =
    contains-remove digits 8 90 ones_address threes_address [] empty 10 (omega arith) (omega arith)
      ones_safe threes_safe empty-Holds (omega (arith, ones_count)) (omega (arith, threes_count))

insert-remove-none_example :
    (insert digits nine_address empty ≡ none) × (remove digits nine_address empty ≡ none)
insert-remove-none_example =
    insert-remove-none digits 8 90 nine_address [] empty (omega arith) (omega arith) nine_max
      empty-Holds
