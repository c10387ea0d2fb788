-- ===== src/Flat/Reach.antt =====
-- The blocks of length 24 that a route reaches, as a test on the leading bits.
use Prim.Native.Nat.{bit_and}
use native.Mathlib.Nat.{div-add-mod', mod-lt}
use buffalo.Common.Bits.{div_unique, pow-add, pow-pos}
use buffalo.Common.{
  ℕ, zero, suc, ◌+◌, ◌-◌, ◌*◌, ◌/◌, ◌%◌, ◌^◌, ◌≤◌, ◌<◌, ◌==◌, ltb, leb, Bool, true, false,
  Bool-cases, ◌&&◌, ◌||◌, ◌≡◌, ◌≢◌, sym, ◌∙◌, arith, if◌then◌else◌, inl, inr,
}
use buffalo.Fib.Blocks.{block, run, bit_and-run}
use buffalo.Prefix.Contains.{IsValid, lead, lead-mul}
use buffalo.Prefix.Subset.{addr-room}
use buffalo.Prefix.{Prefix, eq}

-- `q` is one of the blocks that the loop visits.
abbrev pub visited : ℕ → ℕ → Prefix → Bool
visited zero addr q = false
visited (suc rounds) addr q =
    eq (record { addr = addr; len = 24 }) q || visited rounds ((addr + 0x0000_0100) % 2 ^ 32) q

visited-range :
    (rounds addr : ℕ) (q : Prefix)
    → addr % 256 ≡ 0
    → addr + 256 * rounds ≤ 2 ^ 32
    → visited rounds addr q ≡ (
        q.len == 24 && (q.addr % 256 == 0 && (leb addr q.addr && ltb q.addr (addr + 256 * rounds))))
unfolding eq
visited-range zero addr q aligned room = ground arith
visited-range (suc zero) addr q aligned room = ground arith
visited-range (suc (suc rounds)) addr q aligned room =
    let next : (addr + 256) % 2 ^ 32 ≡ addr + 256 = omega arith in
    let rest = visited-range (suc rounds) (addr + 256) q (omega arith) (omega arith) in
    rw (next, rest) (ground arith)

-- The block that a route reaches is one that `flatten` gives its next hop to.
unfoldable pub reaches : Prefix → Prefix → Bool
reaches other q =
    if ltb other.len 24
    then visited (2 ^ (24 - other.len)) other.addr q
    else if ltb 24 other.len
    then eq (record { addr = bit_and other.addr 0xffff_ff00; len = 24 }) q
    else false

-- The range of a block is what has its leading bits.
block_range :
    (q a size : ℕ)
    → 0 < size
    → a / size * size ≡ a
    → (leb a q && ltb q (a + size)) ≡ (q / size == a / size)
block_range q a size positive aligned = elim (Bool-cases (q / size == a / size)) [
  | inl same ↦
      let whole = div-add-mod' q size in
      let low = mod-lt q positive in
      let e : q / size ≡ a / size = ground (arith, same) in
      let start : q / size * size ≡ a = rw e aligned in ground (arith, same, whole, low, start)
  | inr apart ↦ elim (Bool-cases (leb a q && ltb q (a + size))) [
    | inl within ↦
        let below : q - a < size = ground (arith, within) in
        let from : q ≡ a / size * size + (q - a) = ground (arith, within, aligned) in
        let e = div_unique q size (a / size) (q - a) below from in absurd (ground (arith, apart, e))
    | inr without ↦ without ∙ sym apart
  ]
]

shorter :
    (other q : Prefix)
    → IsValid other
    → other.len < 24
    → q.len ≡ 24
    → q.addr % 256 ≡ 0
    → visited (2 ^ (24 - other.len)) other.addr q ≡ (lead other q.addr == lead other other.addr)
shorter other q valid short full clear =
    let blocks = 2 ^ (24 - other.len) in
    let size = 2 ^ (32 - other.len) in
    let exponent : 32 - other.len ≡ 24 - other.len + 8 = omega arith in
    let sized : size ≡ blocks * 256 = rw (exponent, pow-add) (omega arith) in
    let back = lead-mul other valid in
    let room = addr-room other valid in
    let aligned : other.addr % 256 ≡ 0 = rw (← back, sized) (omega arith) in
    visited-range blocks other.addr q aligned (omega (arith, room, sized))
    ∙ ground (arith, full, clear, sized)
    ∙ block_range q.addr other.addr size (pow-pos (32 - other.len)) back

-- For a valid route of another length than 24 and a valid prefix `q` of length 24: `flatten`
-- reaches `q` exactly if the shorter of the two covers the address of the longer.
reaches-lead :
    (other q : Prefix)
    → IsValid other
    → IsValid q
    → other.len ≢ 24
    → q.len ≡ 24
    → reaches other q ≡ (
        if ltb other.len 24
        then lead other q.addr == lead other other.addr
        else lead q other.addr == lead q q.addr)
unfolding reaches run block eq
reaches-lead other q valid valid' apart full =
    let clear : q.addr % 256 ≡ 0 = rw full at valid'.clear in
    elim (Bool-cases (ltb other.len 24)) [
      | inl short ↦ rw short (shorter other q valid (ground (arith, short)) full clear)
      | inr long ↦
          let high : ltb 24 other.len ≡ true = ground (arith, long, apart) in
          let masked : bit_and other.addr 0xffff_ff00 ≡ other.addr / 256 * 256 =
            bit_and-run other.addr 24 valid.bits (omega arith) in
          rw (long, high, masked, full) (ground (arith, clear))
    ]
