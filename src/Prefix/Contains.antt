-- ===== src/Prefix/Contains.antt =====
-- `contains` as inclusion of prefixes.
use Prim.Native.Nat.{bit_and}
use native.Mathlib.Nat.{mod-eq_of_lt, div-add-mod', mul-div_cancel}
use buffalo.Common.{
  ℕ, ◌-◌, ◌*◌, ◌/◌, ◌%◌, ◌^◌, ◌≤◌, ◌<◌, ◌≡◌, refl, ◌&&◌, not, true, false, ◌==◌, ==_iff, ltb, leb,
  if◌then◌else◌, some, arith, all_below, all_below_sound, ◌>>=◌,
}
use buffalo.Common.Bits.{ones, bit_and-shifted, pow-pos}
use buffalo.Prefix.{Prefix, mask, contains}

-- A length from 1 to 32, and no bit set below it.
pub record IsValid (p : Prefix) : Type 0 where
  pub positive : 0 < p.len
  pub short : p.len ≤ 32
  pub bits : p.addr < 2 ^ 32
  pub clear : p.addr % 2 ^ (32 - p.len) ≡ 0

-- The leading bits of an address, as many as the prefix has.
abbrev pub lead : Prefix → ℕ → ℕ
lead p a = a / 2 ^ (32 - p.len)

mask_table : all_below 33 (λ l. 0xffff_ffff * 2 ^ (32 - l) % 2 ^ 32 == ones l * 2 ^ (32 - l)) ≡ true
unfolding all_below
mask_table = refl

pub mask-ones : (l : ℕ) → 0 < l → l ≤ 32 → mask l ≡ some (ones l * 2 ^ (32 - l))
unfolding mask
mask-ones l pos short =
    let e = (==_iff _ _).0 (all_below_sound 33 _ l mask_table (omega arith)) in rw e (ground arith)

width_table : all_below 33 (λ l. 2 ^ l * 2 ^ (32 - l) == 2 ^ 32) ≡ true
unfolding all_below
width_table = refl

lead-lt : (a m n : ℕ) → a < m * n → a / n < m
lead-lt a m n h = grind arith

-- Masking an address keeps its leading bits.
pub lead_bits :
    (l a : ℕ)
    → l ≤ 32
    → a < 2 ^ 32
    → bit_and a (ones l * 2 ^ (32 - l)) ≡ a / 2 ^ (32 - l) * 2 ^ (32 - l)
lead_bits l a short h =
    let k = 32 - l in
    let width = (==_iff _ _).0 (all_below_sound 33 _ l width_table (omega arith)) in
    rw (bit_and-shifted k l a, mod-eq_of_lt (lead-lt a (2 ^ l) (2 ^ k) (rw width h)))

cancel : (x y k : ℕ) → 0 < k → (x * k == y * k) ≡ (x == y)
cancel x y k pos = grind (arith, mul-div_cancel x {n = k} pos, mul-div_cancel y {n = k} pos)

-- A valid address is its leading bits, shifted back.
pub lead-mul : (p : Prefix) → IsValid p → lead p p.addr * 2 ^ (32 - p.len) ≡ p.addr
lead-mul p v = omega (arith, div-add-mod' p.addr (2 ^ (32 - p.len)), v.clear)

-- The tests of `contains`, once each is about leading bits.
tests_agree :
    (pl ql pa qa m x y : ℕ)
    → (pa == m) ≡ (x == y)
    → (pl ≡ ql → (pa == qa) ≡ (x == y))
    → (if ltb ql pl
        then some false
        else if pl == ql && not (pa == qa)
        then some false
        else some (if pa == m then true else false))
      ≡ some (leb pl ql && x == y)
tests_agree pl ql pa qa m x y e f = ground arith

-- With equal lengths the addresses agree exactly when their leading bits do.
same_length :
    (p q : Prefix)
    → IsValid p
    → IsValid q
    → p.len ≡ q.len
    → (p.addr == q.addr) ≡ (lead p p.addr == lead p q.addr)
same_length p q vp vq e =
    let k = 2 ^ (32 - p.len) in
    let q_back : lead p q.addr * k ≡ q.addr = rw e (lead-mul q vq) in
    rw (← cancel (lead p p.addr) (lead p q.addr) k (pow-pos (32 - p.len)), lead-mul p vp, q_back)

-- On valid prefixes `contains` is defined, and answers whether the other prefix is at least as
-- long and agrees with this one on its leading bits.
pub contains-lead :
    (p q : Prefix)
    → IsValid p
    → IsValid q
    → contains p q ≡ some (leb p.len q.len && lead p p.addr == lead p q.addr)
unfolding contains
contains-lead p q vp vq =
    let k = 2 ^ (32 - p.len) in
    let masked : (p.addr == lead p q.addr * k) ≡ (lead p p.addr == lead p q.addr) =
      rw (lead-mul p vp) at (cancel (lead p p.addr) (lead p q.addr) k (pow-pos (32 - p.len))) in
    rw (mask-ones p.len vp.positive vp.short, ◌>>=◌, lead_bits p.len q.addr vp.short vq.bits)
      (tests_agree p.len q.len p.addr q.addr (lead p q.addr * k) _ _ masked (same_length p q vp vq))
