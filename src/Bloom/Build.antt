-- ===== src/Bloom/Build.antt =====
-- `bloom_filter_init` and the inserts after it: which cells are nonzero.
use buffalo.Bloom.{BloomFilter, zero_loop, bloom_filter_init, mark, insert_seed, contains_seed}
use buffalo.Common.{
  ℕ, zero, suc, ◌+◌, ◌^◌, ◌<◌, ◌==◌, ltb, lt→ltb, if◌then◌else◌, ◌≡◌, refl, ◌∙◌, true, false, List,
  [], ◌∷◌, ◌++◌, some, arith, length, set, length-set, ◌>>=◌, max,
}
use buffalo.Hashing.Draws.{draws, draws-lt, NeverMax, update_loop-draws, contains_loop-draws}
use buffalo.Hashing.Iterate.{cell, cell-set, count, update_all, length-update_all, All}
use buffalo.Hashing.Marks.{Marks, update_all-Marks, covered, hits-covered}
use buffalo.Hashing.{Pointer, write}
use buffalo.Rand.{Rand}

-- `malloc` succeeds, with a block of the size that was asked for and arbitrary contents.
abbrev pub Allocates : (ℕ → Pointer) → Type 0
Allocates malloc = (n : ℕ) → (t : List ℕ) × (malloc n ≡ some t) × (length t ≡ n)

cell_outside : (t : List ℕ) (j : ℕ) → length t < suc j → cell t j ≡ 0
cell_outside [] j h = refl
cell_outside (x ∷ t) zero h = absurd (omega arith)
cell_outside (x ∷ t) (suc j) h = cell_outside t j (omega arith)

-- The loop clears every cell from `i` on.
pub zero_loop-clears :
    (n i : ℕ) (t : List ℕ)
    → i + n ≡ length t
    → ((j : ℕ) → j < i → cell t j ≡ 0)
    → (u : List ℕ) × (zero_loop n i (some t) ≡ some (some u))
      × (length u ≡ length t)
      × ((j : ℕ) → cell u j ≡ 0)
unfolding zero_loop write
zero_loop-clears zero i t e clear = (t, refl, refl, λ j. ground (arith, clear j, cell_outside t j))
zero_loop-clears (suc n) i t e clear =
    let v = set t i 0 in
    let (u, runs, size, zeros) =
      zero_loop-clears n (i + 1) v (omega (arith, length-set t i 0))
        (λ j h. ground (arith, cell-set t i j 0, clear j)) in
    (u, rw (lt→ltb i (length t) (omega arith), ◌>>=◌) runs, size ∙ length-set t i 0, zeros)

-- The statements of `bloom_filter_init` on a block that the loop turns into `u`.
init_runs :
    (malloc : ℕ → Pointer) (m n j : ℕ) (f : BloomFilter) (t u : List ℕ)
    → m < 2 ^ 32
    → 0 < n
    → malloc (max 1 m) ≡ some t
    → zero_loop (max 1 m) 0 (some t) ≡ some (some u)
    → bloom_filter_init malloc m n j f
      ≡ some (record {
        hash_table = some u;
        table_size = max 1 m;
        element_size = n;
        function_size = 8;
      })
unfolding bloom_filter_init
init_runs malloc m n j f t u small pos block runs =
    let size : (if m == 0 then 1 else m) ≡ max 1 m = ground arith in
    let nonempty : (n == 0) ≡ false = ground arith in
    let fits : ltb (max 1 m) (2 ^ 32) ≡ true = ground arith in
    rw (size, nonempty, fits, block, runs)

-- A filter of `n` cells and `k` hash functions, whose nonzero cells are those of `used`.
pub record Holds (k n : ℕ) (used : List ℕ) (f : BloomFilter) : Type 0 where
  pub table : List ℕ
  pub points : f.hash_table ≡ some table
  pub length_table : length table ≡ n
  pub size : f.table_size ≡ n
  pub functions : f.function_size ≡ k
  pub marks : Marks table used

pub init-Holds :
    (malloc : ℕ → Pointer) (m n j : ℕ) (f : BloomFilter)
    → Allocates malloc
    → m < 2 ^ 32
    → 0 < n
    → (g : BloomFilter) × (bloom_filter_init malloc m n j f ≡ some g) × Holds 8 (max 1 m) [] g
unfolding count
init-Holds malloc m n j f alloc small pos =
    let (t, block, width) = alloc (max 1 m) in
    let (u, runs, same, zeros) =
      zero_loop-clears (max 1 m) 0 t (omega arith) (λ j h. absurd (omega arith)) in
    (
      record { hash_table = some u; table_size = max 1 m; element_size = n; function_size = 8 },
      init_runs malloc m n j f t u small pos block runs,
      record {
        table = u;
        points = refl;
        length_table = same ∙ width;
        size = refl;
        functions = refl;
        marks = λ i. rw (zeros i);
      },
    )

mark-nonzero : (c : ℕ) → (mark c == 0) ≡ false
unfolding mark
mark-nonzero c = ground arith

module _ (R : Rand) where
  open R use {srand}

  module _ (k n : ℕ) (pos : 0 < n) (small : n < 2 ^ 53) where
    abbrev pub indices : ℕ → List ℕ
    indices s = draws R k (srand s) n

    pub in_range :
        (s : ℕ) (t : List ℕ)
        → length t ≡ n
        → NeverMax R k (srand s)
        → All (λ h. h < length t) (indices s)
    in_range s t e safe = rw e (draws-lt R k (srand s) n pos small safe)

    pub insert_seed-Holds :
        (s : ℕ) (used : List ℕ) (f : BloomFilter)
        → NeverMax R k (srand s)
        → Holds k n used f
        → (g : BloomFilter) × (insert_seed R s f ≡ some g) × Holds k n (indices s ++ used) g
    unfolding insert_seed
    insert_seed-Holds s used f safe h =
        let u = update_all mark (indices s) h.table in
        let run =
          update_loop-draws R mark k (srand s) n h.table (in_range s h.table h.length_table safe) in
        (
          record f { hash_table = some u },
          ground (arith, run),
          record {
            table = u;
            points = refl;
            length_table = length-update_all mark (indices s) h.table ∙ h.length_table;
            size = h.size;
            functions = h.functions;
            marks =
                update_all-Marks mark (indices s) h.table used mark-nonzero
                  (in_range s h.table h.length_table safe) h.marks;
          },
        )

    pub contains_seed-covered :
        (s : ℕ) (used : List ℕ) (f : BloomFilter)
        → NeverMax R k (srand s)
        → Holds k n used f
        → contains_seed R s f ≡ some (covered (indices s) used)
    unfolding contains_seed
    contains_seed-covered s used f safe h =
        let run =
          contains_loop-draws R k (srand s) n h.table (in_range s h.table h.length_table safe) in
        let answer = hits-covered (indices s) h.table used h.marks in ground (arith, run, answer)
