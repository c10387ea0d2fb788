-- ===== src/Fib/Blocks.antt =====
-- The prefixes that an address is in, one of each length, and the masks that give them.
use Prim.Native.Nat.{bit_and}
use native.Mathlib.Nat.{mul-div_cancel, div-mul-le_self, mul-mod_left}
use buffalo.Common.Bits.{ones, pow-pos}
use buffalo.Common.{
  ℕ, suc, ◌-◌, ◌*◌, ◌/◌, ◌%◌, ◌^◌, ◌≤◌, ◌<◌, ◌==◌, ==_iff, ◌≡◌, true, refl, sym, ◌∙◌, ap, arith,
  all_below, all_below_sound,
}
use buffalo.Prefix.Contains.{IsValid, lead-mul, lead_bits}
use buffalo.Prefix.Subset.{Covers}
use buffalo.Prefix.{Prefix}

-- The prefix of length `l` that an address is in.
unfoldable pub block : ℕ → ℕ → Prefix
block addr l = record { addr = addr / 2 ^ (32 - l) * 2 ^ (32 - l); len = l }

-- A valid prefix that covers the address is its block.
pub Covers-block : (p : Prefix) (addr : ℕ) → IsValid p → Covers p addr → p ≡ block addr p.len
unfolding block
Covers-block p addr v c =
    ap (λ a. record { addr = a; len = p.len })
      (sym (lead-mul p v) ∙ ap (λ x. x * 2 ^ (32 - p.len)) (sym c))

pub block-IsValid : (addr l : ℕ) → addr < 2 ^ 32 → 0 < l → l ≤ 32 → IsValid (block addr l)
unfolding block
block-IsValid addr l small pos short = record {
  positive = pos;
  short = short;
  bits = omega (arith, div-mul-le_self addr (2 ^ (32 - l)));
  clear = mul-mod_left (addr / 2 ^ (32 - l)) (2 ^ (32 - l));
}

pub block-Covers : (addr l : ℕ) → Covers (block addr l) addr
unfolding block
block-Covers addr l = sym (mul-div_cancel (addr / 2 ^ (32 - l)) (pow-pos (32 - l)))

-- The mask of the round for the length `l`.
unfoldable pub run : ℕ → ℕ
run l = ones l * 2 ^ (32 - l)

run_table : all_below 32 (λ i. run (suc i) * 2 % 2 ^ 32 == run i) ≡ true
unfolding all_below run
run_table = refl

pub run_next : (i : ℕ) → i < 32 → run (suc i) * 2 % 2 ^ 32 ≡ run i
run_next i h = (==_iff _ _).0 (all_below_sound 32 _ i run_table h)

pub bit_and-run : (addr l : ℕ) → addr < 2 ^ 32 → l ≤ 32 → bit_and addr (run l) ≡ (block addr l).addr
unfolding run block
bit_and-run addr l small short = lead_bits l addr short small

-- The mask of a round gives the block of its length.
pub masked :
    (addr i : ℕ)
    → addr < 2 ^ 32
    → i < 32
    → record { addr = bit_and addr (run (suc i)); len = suc i % 2 ^ 8 } ≡ block addr (suc i)
unfolding block
masked addr i small h =
    let narrow : suc i % 2 ^ 8 ≡ suc i = omega arith in
    rw (bit_and-run addr (suc i) small (omega arith), narrow)
