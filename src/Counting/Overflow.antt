-- ===== src/Counting/Overflow.antt =====
-- A counter that reaches 256 is an `unsigned char` that wraps to 0.
use buffalo.Bloom.Remove.{hits-zero}
use buffalo.Common.{
  ℕ, zero, suc, ◌+◌, ◌%◌, ◌^◌, ◌≤◌, ◌<◌, ◌==◌, if◌then◌else◌, ◌≡◌, ◌∙◌, List, some, arith, length,
}
use buffalo.Counting.Counts.{Holds, in_range}
use buffalo.Counting.{CountingBloomFilter, increment, insert_seed, contains_seed}
use buffalo.Hashing.Draws.{draws, NeverMax, update_loop-draws, contains_loop-draws}
use buffalo.Hashing.Iterate.{cell, count, iterate, update_all, length-update_all, cell-update_all}
use buffalo.Rand.{Rand}

iterate-wrap : (n x : ℕ) → x ≤ 255 → x + n ≡ 256 → iterate increment n x ≡ 0
unfolding iterate increment
iterate-wrap zero x h e = absurd (omega arith)
iterate-wrap (suc zero) x h e = ground arith
iterate-wrap (suc (suc n)) x h e =
    let step : (if x == 0 then 1 else (x + 1) % 256) ≡ suc x = ground arith in
    rw step (iterate-wrap (suc n) (suc x) (omega arith) (omega arith))

module _ (R : Rand) where
  open R use {srand}

  -- Let no draw of `s` and `q` be `RAND_MAX`, in a filter of from 1 to 2^53-1 cells that counts
  -- exactly. The insert of `s` that takes the count of a cell from 255 or less to 256 empties the
  -- cell: `contains` then answers 0 for every `q` that has a draw there.
  pub contains-insert_wrapped :
      (k n s q i : ℕ) (used : List ℕ) (f : CountingBloomFilter)
      → 0 < n
      → n < 2 ^ 53
      → NeverMax R k (srand s)
      → NeverMax R k (srand q)
      → Holds k n used f
      → count i used ≤ 255
      → count i used + count i (draws R k (srand s) n) ≡ 256
      → 0 < count i (draws R k (srand q) n)
      → (g : CountingBloomFilter) × (insert_seed R s f ≡ some g) × (contains_seed R q g ≡ some 0)
  unfolding insert_seed contains_seed
  contains-insert_wrapped k n s q i used f pos small safe_s safe_q h before full hit =
      let hs = draws R k (srand s) n in
      let bound = in_range R k n pos small s h.table h.length_table safe_s in
      let u = update_all increment hs h.table in
      let width : length u ≡ n = length-update_all increment hs h.table ∙ h.length_table in
      let run = update_loop-draws R increment k (srand s) n h.table bound in
      let look =
        contains_loop-draws R k (srand q) n u (in_range R k n pos small q u width safe_q) in
      let emptied : cell u i ≡ 0 =
        cell-update_all increment hs h.table i bound
        ∙ iterate-wrap (count i hs) (cell h.table i) (omega (arith, h.counts i))
            (omega (arith, h.counts i)) in
      let miss = hits-zero (draws R k (srand q) n) u i hit emptied in
      (record f { hash_table = some u }, ground (arith, run), ground (arith, look, miss))
