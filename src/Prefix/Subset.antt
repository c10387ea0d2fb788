-- ===== src/Prefix/Subset.antt =====
-- `contains` as inclusion of the sets of addresses.
use native.Mathlib.Nat.{
  mul-le-mul_right, one-mul, pow-suc, mul-le-mul_left, div-div-eq-div-mul, add-mul-div_right,
}
use buffalo.Common.{
  ℕ, suc, ◌+◌, ◌-◌, ◌*◌, ◌/◌, ◌^◌, ◌≤◌, ◌<◌, ◌≡◌, refl, sym, ap, ◌∙◌, ◌↔◌, true, ◌&&◌, ◌==◌, leb,
  some, arith,
}
use native.Mathlib.Decide.{dec_lt}
use buffalo.Common.Bits.{div_unique, pow-add, pow-pos}
use buffalo.Prefix.Contains.{IsValid, lead, lead-mul, contains-lead}
use buffalo.Prefix.{Prefix, contains}

-- The prefix matches the address.
abbrev pub Covers : Prefix → ℕ → Type 0
Covers p a = lead p a ≡ lead p p.addr

-- The leading bits of a shorter prefix are those of a longer one, shifted.
pub lead_shorter :
    (p q : Prefix) (a : ℕ) → p.len ≤ q.len → q.len ≤ 32 → lead p a ≡ lead q a / 2 ^ (q.len - p.len)
lead_shorter p q a le short =
    let split : 32 - p.len ≡ 32 - q.len + (q.len - p.len) = omega arith in
    rw (split, pow-add) (sym (div-div-eq-div-mul a _ _))

inside :
    (p q : Prefix)
    → q.len ≤ 32
    → p.len ≤ q.len
    → Covers p q.addr
    → (a : ℕ) → Covers q a
    → Covers p a
inside p q short le h a c =
    lead_shorter p q a le short ∙ rw c (sym (lead_shorter p q q.addr le short)) ∙ h

-- A block of `size` below the end of `n` of them ends by then.
block_end : (y size n : ℕ) → y * size < n * size → y * size + size ≤ n * size
block_end y size n below = elim (dec_lt y n) [
  | yes h ↦ omega (arith, mul-le-mul_right {m = suc y} {n = n} size h)
  | no h ↦ absurd (omega (arith, mul-le-mul_right {m = n} {n = y} size (omega arith)))
]

-- The addresses of a valid prefix have 32 bits.
pub addr-room : (p : Prefix) → IsValid p → p.addr + 2 ^ (32 - p.len) ≤ 2 ^ 32
addr-room p v =
    let size = 2 ^ (32 - p.len) in
    let short = v.short in
    let all : 2 ^ p.len * size ≡ 2 ^ 32 =
      sym (pow-add p.len (32 - p.len)) ∙ ap (λ e. 2 ^ e) {y = 32} (omega arith) in
    let back = lead-mul p v in
    let room = block_end (lead p p.addr) size (2 ^ p.len) (omega (arith, back, all, v.bits)) in
    omega (arith, room, back, all)

twice-lt : (x y : ℕ) → 0 < x → 0 < y → x < x * (y * 2)
twice-lt x y p q = omega (arith, mul-le-mul_left {m = 2} {n = y * 2} x (omega arith))

-- A block of `2 ^ (m - n)` halves for `n < m` is larger than one of them.
block-lt : (m n w : ℕ) → n < m → m ≤ w → 2 ^ (w - m) < 2 ^ (w - n)
block-lt m n w h le =
    let d = m - n - 1 in
    let split : w - n ≡ w - m + suc d = omega arith in
    rw (split, pow-add, pow-suc) (twice-lt (2 ^ (w - m)) (2 ^ d) (pow-pos (w - m)) (pow-pos d))

-- A longer prefix does not cover a shorter one: it tells the first address of the shorter from
-- the first of the next block.
outside :
    (p q : Prefix)
    → IsValid q
    → p.len ≤ 32
    → q.len < p.len
    → ((a : ℕ) → Covers q a → Covers p a)
    → ⊥
outside p q v short longer all =
    let k = 2 ^ (32 - p.len) in
    let a = q.addr + k in
    let same : Covers q a =
      div_unique a _ (lead q q.addr) k (block-lt p.len q.len 32 longer short) (rw (lead-mul q v)) in
    let next : lead p a ≡ lead p q.addr + 1 =
      rw (one-mul k) at (add-mul-div_right q.addr 1 (pow-pos (32 - p.len))) in
    absurd (omega (arith, all a same, all q.addr refl, next))

-- On valid prefixes (length 1 to 32, no bit below the length) `contains` is inclusion: it answers
-- true exactly when every address that the other prefix matches is matched too.
pub contains_iff-subset :
    (p q : Prefix)
    → IsValid p
    → IsValid q
    → (contains p q ≡ some true) ↔ ((a : ℕ) → Covers q a → Covers p a)
contains_iff-subset p q vp vq = rw (contains-lead p q vp vq) (forward, backward)
  where
    forward :
        some (leb p.len q.len && lead p p.addr == lead p q.addr) ≡ some true
        → (a : ℕ) → Covers q a
        → Covers p a
    forward h = inside p q vq.short (ground arith) (ground arith)

    backward :
        ((a : ℕ) → Covers q a → Covers p a)
        → some (leb p.len q.len && lead p p.addr == lead p q.addr) ≡ some true
    backward all = elim (dec_lt q.len p.len) [
      | yes longer ↦ absurd (outside p q vq vp.short longer all)
      | no short ↦ ground (arith, all q.addr refl)
    ]
