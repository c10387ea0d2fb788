-- ===== src/FilterBank/Slots.antt =====
-- One slot: the positions of an address, setting its bits, and counting how many are set.
use native.Mathlib.Nat.{mul-le-mul, mod-lt}
use buffalo.Common.{
  ℕ, zero, suc, ◌+◌, ◌*◌, ◌/◌, ◌%◌, ◌^◌, ◌≤◌, ◌<◌, ◌==◌, leb, lt→ltb, if◌then◌else◌, ◌≡◌, refl, ◌∙◌,
  ◌&&◌, ◌||◌, Bool, true, false, List, some, arith, length, Returns, for-Returns, all_below,
  all_below_sound, ◌>>=◌,
}
use buffalo.FilterBank.Bit.{IsBytes, bit, set_bit-bit}
use buffalo.FilterBank.{Slot, aseed, bseed, key, hash, reduce, position, set_bit, set_bits}
use buffalo.Hashing.Draws.{get_elem?-cell}
use buffalo.Hashing.Iterate.{cell}
use buffalo.Hashing.{Pointer}

-- A slot as `etherinsert` and `etherlookup` expect it: whole bytes, 8 bits to each, 8 hash
-- functions.
pub record Laid (t : List ℕ) (s : Slot) : Type 0 where
  pub points : s.hash_table ≡ some t
  pub width : s.table_size ≡ length t * 8
  pub nonempty : 0 < length t
  pub bytes : IsBytes t
  pub functions : s.function_size ≡ 8

abbrev pub max_key : ℕ
max_key = 65535 * 256 + 65535

pub key-le : (w1 w2 : ℕ) → w1 < 2 ^ 16 → w2 < 2 ^ 16 → key w1 w2 ≤ max_key
unfolding key
key-le w1 w2 h h' = omega arith

-- `aseed[i]*addr+bseed[i]`, without the limit of an `int`.
pub hash_value : ℕ → ℕ → ℕ
hash_value addr i = cell aseed i * addr + cell bseed i

seed_table : all_below 8 (λ i. leb (cell aseed i) 98 && leb (cell bseed i) 98) ≡ true
unfolding all_below
seed_table = refl

-- For a key of at most 65535 * 256 + 65535 and a function below 8, `aseed[i]*addr+bseed[i]` does
-- not overflow an `int`.
pub hash-value : (addr i : ℕ) → addr ≤ max_key → i < 8 → hash addr i ≡ some (hash_value addr i)
unfolding hash hash_value
hash-value addr i small h =
    let seeds = all_below_sound 8 _ i seed_table h in
    let a : cell aseed i ≤ 98 = ground arith in
    let b : cell bseed i ≤ 98 = ground arith in
    let product = mul-le-mul a small in
    rw (
      get_elem?-cell aseed i (omega arith),
      get_elem?-cell bseed i (omega arith),
      ◌>>=◌,
      lt→ltb (cell aseed i * addr + cell bseed i) (2 ^ 31) (omega arith),
    )

-- The bit position of the `i`-th function in a table of `n` bits.
pub spot : ℕ → ℕ → ℕ → ℕ
spot n addr i = hash_value addr i % n

reduce_pos : (h n : ℕ) → 0 < n → reduce h n ≡ some (h % n)
unfolding reduce
reduce_pos h zero p = elim p [ ]
reduce_pos h (suc n) p = refl

module _ (t : List ℕ) (s : Slot) (laid : Laid t s) (addr : ℕ) (small : addr ≤ max_key) where
  pub position-spot : (i : ℕ) → i < 8 → position s addr i ≡ some (spot (length t * 8) addr i)
  unfolding position spot
  position-spot i h =
      rw (hash-value addr i small h, ◌>>=◌, laid.width)
        (reduce_pos _ _ (omega (arith, laid.nonempty)))

  pub spot-inside : (i : ℕ) → spot (length t * 8) addr i / 8 < length t
  unfolding spot
  spot-inside i =
      let below : hash_value addr i % (length t * 8) < length t * 8 =
        mod-lt _ (omega (arith, laid.nonempty)) in
      omega arith

-- Whether `q` is a position of one of the first `k` functions.
unfoldable pub drawn : ℕ → ℕ → ℕ → ℕ → Bool
drawn n addr zero q = false
drawn n addr (suc k) q = spot n addr k == q || drawn n addr k q

-- Whether the bits of the first `k` functions are all set, and how many are.
unfoldable pub all_set : List ℕ → ℕ → ℕ → Bool
all_set t addr zero = true
all_set t addr (suc k) = all_set t addr k && bit t (spot (length t * 8) addr k)

unfoldable pub set_count : List ℕ → ℕ → ℕ → ℕ
set_count t addr zero = 0
set_count t addr (suc k) =
    set_count t addr k + (if bit t (spot (length t * 8) addr k) then 1 else 0)

set_count-le : (t : List ℕ) (addr k : ℕ) → set_count t addr k ≤ k
unfolding set_count
set_count-le t addr zero = omega arith
set_count-le t addr (suc k) = ground (arith, set_count-le t addr k)

-- A full count means that every bit is set.
pub set_count-all_set : (t : List ℕ) (addr k : ℕ) → (set_count t addr k == k) ≡ all_set t addr k
unfolding set_count all_set
set_count-all_set t addr zero = refl
set_count-all_set t addr (suc k) = ground (arith, set_count-all_set t addr k, set_count-le t addr k)

-- The table after the first `k` functions of `addr` have set their bits in `t`.
abbrev pub Inserted : List ℕ → ℕ → ℕ → Pointer → Type 0
Inserted t addr k v =
    (u : List ℕ) × (v ≡ some u)
    × (length u ≡ length t)
    × IsBytes u
    × ((q : ℕ) → bit u q ≡ (drawn (length t * 8) addr k q || bit t q))

module _ (t : List ℕ) (s : Slot) (laid : Laid t s) (addr : ℕ) (small : addr ≤ max_key) where
  set_bit-Inserted :
      (k : ℕ) (v : Pointer)
      → k < 8
      → Inserted t addr k v
      → Returns (Inserted t addr (suc k)) (position s addr k >>= set_bit v)
  unfolding drawn
  set_bit-Inserted k v h (u, e, width, bytes, bits) =
      let p = spot (length t * 8) addr k in
      let (w, run, (x, e', width', bytes', bits')) =
        set_bit-bit u p bytes (rw width (spot-inside t s laid addr small k)) in
      (
        w,
        rw (position-spot t s laid addr small k h, ◌>>=◌, e) run,
        (x, e', width' ∙ width, bytes', λ q. ground (arith, bits' q, bits q)),
      )

  -- The loop of `etherinsert` sets the positions of the address, and no other bit.
  pub set_bits-Inserted : Returns (Inserted t addr 8) (set_bits s addr)
  unfolding set_bits
  set_bits-Inserted =
      simp (laid.functions, laid.points)
        (for-Returns (Inserted t addr) 8 _ 8 0 (some t) (omega arith)
          (λ k v lo hi p. set_bit-Inserted k v hi p) (t, refl, refl, laid.bytes, start))
    where
      start : (q : ℕ) → bit t q ≡ (drawn (length t * 8) addr 0 q || bit t q)
      start q = unfold drawn in refl
