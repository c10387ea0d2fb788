-- ===== src/Counting/Counts.antt =====
-- While no counter passes 255 the table counts, for each cell, the draws that hit it.
use buffalo.Common.{
  ℕ, zero, suc, ◌+◌, ◌-◌, ◌%◌, ◌^◌, ◌≤◌, ◌<◌, ◌==◌, if◌then◌else◌, ◌≡◌, refl, ◌∙◌, ap, List, ◌++◌,
  some, arith, length,
}
use buffalo.Counting.{
  CountingBloomFilter, increment, decrement, insert_seed, remove_seed, contains_seed,
}
use buffalo.Hashing.Draws.{draws, draws-lt, NeverMax, update_loop-draws, contains_loop-draws}
use buffalo.Hashing.Iterate.{
  cell, count, iterate, update_all, length-update_all, All, cell-update_all,
}
use buffalo.Hashing.Marks.{covered, hits-covered, count-append}
use buffalo.Rand.{Rand}

iterate-increment : (n x : ℕ) → x + n ≤ 255 → iterate increment n x ≡ x + n
unfolding iterate increment
iterate-increment zero x h = omega arith
iterate-increment (suc n) x h =
    let step : (if x == 0 then 1 else (x + 1) % 256) ≡ suc x = ground arith in
    rw step (omega (arith, iterate-increment n (suc x)))

iterate-decrement : (n x : ℕ) → iterate decrement n x ≡ x - n
unfolding iterate decrement
iterate-decrement zero x = omega arith
iterate-decrement (suc n) x = ground (arith, iterate-decrement n (if x == 0 then x else x - 1))

-- A filter of `n` cells and `k` hash functions that counts the draws in `used`.
pub record Holds (k n : ℕ) (used : List ℕ) (f : CountingBloomFilter) : Type 0 where
  pub table : List ℕ
  pub points : f.hash_table ≡ some table
  pub length_table : length table ≡ n
  pub size : f.table_size ≡ n
  pub functions : f.function_size ≡ k
  pub counts : (i : ℕ) → cell table i ≡ count i used

module _ (R : Rand) (k n : ℕ) (pos : 0 < n) (small : n < 2 ^ 53) where
  open R use {srand}

  abbrev pub indices : ℕ → List ℕ
  indices s = draws R k (srand s) n

  pub in_range :
      (s : ℕ) (t : List ℕ)
      → length t ≡ n
      → NeverMax R k (srand s)
      → All (λ h. h < length t) (indices s)
  in_range s t e safe = rw e (draws-lt R k (srand s) n pos small safe)

  pub insert_seed-Holds :
      (s : ℕ) (used : List ℕ) (f : CountingBloomFilter)
      → NeverMax R k (srand s)
      → ((i : ℕ) → count i used + count i (indices s) ≤ 255)
      → Holds k n used f
      → (g : CountingBloomFilter) × (insert_seed R s f ≡ some g) × Holds k n (indices s ++ used) g
  unfolding insert_seed
  insert_seed-Holds s used f safe fits h =
      let bound = in_range s h.table h.length_table safe in
      let run = update_loop-draws R increment k (srand s) n h.table bound in
      let u = update_all increment (indices s) h.table in
      (
        record f { hash_table = some u },
        ground (arith, run),
        record {
          table = u;
          points = refl;
          length_table = length-update_all increment (indices s) h.table ∙ h.length_table;
          size = h.size;
          functions = h.functions;
          counts = λ i.
              cell-update_all increment (indices s) h.table i bound
              ∙ iterate-increment (count i (indices s)) (cell h.table i)
                  (omega (arith, fits i, h.counts i))
              ∙ omega (arith, h.counts i, count-append i (indices s) used);
        },
      )

  -- Removing an element whose draws are among those counted leaves the others.
  pub remove_seed-Holds :
      (s : ℕ) (used rest : List ℕ) (f : CountingBloomFilter)
      → NeverMax R k (srand s)
      → ((i : ℕ) → count i used ≡ count i (indices s) + count i rest)
      → Holds k n used f
      → (g : CountingBloomFilter) × (remove_seed R s f ≡ some g) × Holds k n rest g
  unfolding remove_seed
  remove_seed-Holds s used rest f safe present h =
      let bound = in_range s h.table h.length_table safe in
      let run = update_loop-draws R decrement k (srand s) n h.table bound in
      let u = update_all decrement (indices s) h.table in
      (
        record f { hash_table = some u },
        ground (arith, run),
        record {
          table = u;
          points = refl;
          length_table = length-update_all decrement (indices s) h.table ∙ h.length_table;
          size = h.size;
          functions = h.functions;
          counts = λ i.
              cell-update_all decrement (indices s) h.table i bound
              ∙ iterate-decrement (count i (indices s)) (cell h.table i)
              ∙ omega (arith, h.counts i, present i);
        },
      )

  pub contains_seed-covered :
      (s : ℕ) (used : List ℕ) (f : CountingBloomFilter)
      → NeverMax R k (srand s)
      → Holds k n used f
      → contains_seed R s f ≡ some (covered (indices s) used)
  unfolding contains_seed
  contains_seed-covered s used f safe h =
      let run =
        contains_loop-draws R k (srand s) n h.table (in_range s h.table h.length_table safe) in
      let answer = hits-covered (indices s) h.table used (λ i. ap (λ c. c == 0) (h.counts i)) in
      ground (arith, run, answer)
