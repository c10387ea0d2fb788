-- ===== src/FilterBank/Bit.antt =====
-- Single bits of a table of bytes.
use Prim.Native.Nat.{bit_and, bit_or}
use buffalo.Common.{
  ℕ, ◌+◌, ◌*◌, ◌/◌, ◌%◌, ◌<◌, ◌==◌, ==_iff, ltb, lt→ltb, if◌then◌else◌, ◌≡◌, refl, ◌&&◌, ◌||◌, Bool,
  true, not, List, some, arith, get_elem?, get_or, set, length, length-set, all_below,
  all_below_sound, Returns, Bool-cases, inl, inr, ◌>>=◌,
}
use buffalo.FilterBank.{bit_mask, set_bit, get_bit}
use buffalo.Hashing.Draws.{get_elem?-cell}
use buffalo.Hashing.Iterate.{cell, cell-set}

-- Every byte is below 256.
pub record IsBytes (t : List ℕ) : Type 0 where
  pub byte : (i : ℕ) → cell t i < 256

abbrev mask : ℕ → ℕ
mask b = get_or bit_mask b 0

-- The test of bit `p` of the table.
pub bit : List ℕ → ℕ → Bool
bit t p = not (bit_and (cell t (p / 8)) (mask (p % 8)) == 0)

get_mask : (b : ℕ) → b < 8 → get_elem? bit_mask b ≡ some (mask b)
get_mask b h = get_elem?-cell bit_mask b h

-- All bytes, all pairs of bits.
or_entry : ℕ → Bool
or_entry x =
    let c = x / 64 in
    let i = x / 8 % 8 in
    let j = x % 8 in
    let after = not (bit_and (bit_or c (mask i)) (mask j) == 0) in
    let before = not (bit_and c (mask j) == 0) in
    ltb (bit_or c (mask i)) 256 && (if (i == j) || before then after else not after)

or_table : all_below 16384 or_entry ≡ true
unfolding all_below or_entry
or_table = refl

or_facts :
    (c i j : ℕ)
    → c < 256
    → i < 8
    → j < 8
    → (bit_or c (mask i) < 256)
      × (not (bit_and (bit_or c (mask i)) (mask j) == 0)
          ≡ (i == j || not (bit_and c (mask j) == 0)))
unfolding or_entry
or_facts c i j hc hi hj =
    let x = c * 64 + i * 8 + j in
    let c_of : x / 64 ≡ c = omega arith in
    let i_of : x / 8 % 8 ≡ i = omega arith in
    let j_of : x % 8 ≡ j = omega arith in
    let entry = all_below_sound 16384 or_entry x or_table (omega arith) in
    let plain = rw (c_of, i_of, j_of) at entry in (ground arith, ground arith)

same_cell :
    (p q : ℕ) (t : List ℕ)
    → not (bit_and (bit_or (cell t (p / 8)) (mask (p % 8))) (mask (q % 8)) == 0)
      ≡ (p % 8 == q % 8 || not (bit_and (cell t (p / 8)) (mask (q % 8)) == 0))
    → not (
        bit_and
          (if p / 8 == q / 8 then bit_or (cell t (p / 8)) (mask (p % 8)) else cell t (q / 8))
          (mask (q % 8))
        == 0)
      ≡ (p == q || not (bit_and (cell t (q / 8)) (mask (q % 8)) == 0))
same_cell p q t e = elim (Bool-cases (p / 8 == q / 8)) [
  | inl same ↦
      let block : p / 8 ≡ q / 8 = (==_iff _ _).0 same in
      let bits : (p % 8 == q % 8) ≡ (p == q) = ground arith in rw (same, ← block, ← bits) e
  | inr apart ↦ rw apart (ground arith)
]

-- Setting a bit inside the table succeeds, and sets that bit only.
pub set_bit-bit :
    (t : List ℕ) (p : ℕ)
    → IsBytes t
    → p / 8 < length t
    → Returns
        (λ v.
          (u : List ℕ) × (v ≡ some u)
          × (length u ≡ length t)
          × IsBytes u
          × ((q : ℕ) → bit u q ≡ (p == q || bit t q)))
        (set_bit (some t) p)
unfolding set_bit bit
set_bit-bit t p bytes inside =
    let c = cell t (p / 8) in
    let m = mask (p % 8) in
    let u = set t (p / 8) (bit_or c m) in
    (
      some u,
      rw (
        get_elem?-cell t (p / 8) inside,
        ◌>>=◌,
        get_mask (p % 8) (omega arith),
        lt→ltb _ _ inside,
      ),
      (
        u,
        refl,
        length-set t _ _,
        record {
          byte = λ i.
              rw (cell-set t (p / 8) i (bit_or c m) inside)
                (ground (arith, bytes.byte i, or_facts c (p % 8) 0 (bytes.byte (p / 8))));
        },
        λ q. rw (cell-set t (p / 8) (q / 8) (bit_or c m) inside) (
            same_cell p q t
              (or_facts c (p % 8) (q % 8) (bytes.byte (p / 8)) (omega arith) (omega arith)).1),
      ),
    )

-- Reading a bit inside the table.
pub get_bit-bit :
    (t : List ℕ) (p : ℕ)
    → p / 8 < length t
    → Returns (λ c. (c == 0) ≡ not (bit t p)) (get_bit (some t) p)
unfolding get_bit bit
get_bit-bit t p inside = (
  bit_and (cell t (p / 8)) (mask (p % 8)),
  rw (get_elem?-cell t (p / 8) inside, ◌>>=◌, get_mask (p % 8) (omega arith)),
  ground arith,
)
