-- ===== src/Packet/Found.antt =====
-- The search for an address: what it finds is covered, and it finds one if there is one.
use mathlib.Core.Option.{some-injective, none-ne-some}
use mathlib.Core.Bool.{false≢true}
use native.Mathlib.Decide.{ℕ_discrete}
use buffalo.Common.OrdSet.{member, or_true, nat_order}
use buffalo.Common.{
  ℕ, zero, suc, ◌+◌, ◌-◌, ◌*◌, ◌/◌, ◌%◌, ◌^◌, ◌≤◌, ◌<◌, true, Bool-cases, ◌≡◌, refl, sym, ◌∙◌, [],
  some, arith, get_or, inl, inr,
}
use buffalo.Fib.Blocks.{block}
use buffalo.Packet.{Sets, contains, probe}

-- A prefix of the sets is a block of the address.
abbrev pub Covered : Sets → ℕ → Type 0
Covered pfx test =
    (l : ℕ) × (0 < l) × (l ≤ 32) × (member (block test l).addr (get_or pfx l []) ≡ true)

shift-block : (test j : ℕ) → j ≤ 32 → test / 2 ^ j * 2 ^ j ≡ (block test (32 - j)).addr
unfolding block
shift-block test j h = let back : 32 - (32 - j) ≡ j = omega arith in rw back refl

pub contains_sound :
    (pfx : Sets) (test rounds j : ℕ)
    → j + rounds ≤ 32
    → contains pfx test rounds j ≡ true
    → Covered pfx test
unfolding contains
contains_sound pfx test zero j room h = cc
contains_sound pfx test (suc rounds) j room h =
    elim (Bool-cases (member (test / 2 ^ j * 2 ^ j) (get_or pfx (32 - j) []))) [
      | inl here ↦ (32 - j, omega arith, omega arith, rw (← shift-block test j (omega arith)) here)
      | inr later ↦ contains_sound pfx test rounds (j + 1) (omega arith) (rw later at h)
    ]

pub contains_complete :
    (pfx : Sets) (test rounds j l : ℕ)
    → j + rounds ≡ 32
    → j + l ≤ 32
    → 0 < l
    → member (block test l).addr (get_or pfx l []) ≡ true
    → contains pfx test rounds j ≡ true
unfolding contains
contains_complete pfx test zero j l total room positive here = absurd (omega arith)
contains_complete pfx test (suc rounds) j l total room positive here =
    elim (ℕ_discrete l (32 - j)) [
      | yes e ↦
          let at_j : member (block test (32 - j)).addr (get_or pfx (32 - j) []) ≡ true =
            rw (← e) here in
          rw (shift-block test j (omega arith), at_j) refl
      | no apart ↦
          let rest =
            contains_complete pfx test rounds (j + 1) l (omega arith) (omega arith) positive here in
          rw rest (or_true (member (test / 2 ^ j * 2 ^ j) (get_or pfx (32 - j) [])))
    ]

-- What is found is one of the addresses tried, and covered.
pub probe_sound :
    (pfx : Sets) (addr offset rounds i test : ℕ)
    → probe pfx addr offset rounds i ≡ some test
    → Covered pfx test × (k : ℕ) × (k < 2 ^ 11) × (test ≡ (addr + k) % 2 ^ 32)
unfolding probe
probe_sound pfx addr offset zero i test e = absurd (none-ne-some _ e)
probe_sound pfx addr offset (suc rounds) i test e =
    let tried = ((offset + i) % 2 ^ 11 + addr) % 2 ^ 32 in
    elim (Bool-cases (contains pfx tried 32 0)) [
      | inl hit ↦
          let same = some-injective _ _ (rw hit at e) in
          (
            rw (← same) (contains_sound pfx tried 32 0 (omega arith) hit),
            (offset + i) % 2 ^ 11,
            omega arith,
            sym same ∙ omega arith,
          )
      | inr miss ↦ probe_sound pfx addr offset rounds (i + 1) test (rw miss at e)
    ]

-- With a covered address among those tried, the search finds one.
pub probe_complete :
    (pfx : Sets) (addr offset rounds i n : ℕ)
    → i ≤ n
    → n < i + rounds
    → contains pfx (((offset + n) % 2 ^ 11 + addr) % 2 ^ 32) 32 0 ≡ true
    → (test : ℕ) × (probe pfx addr offset rounds i ≡ some test)
unfolding probe
probe_complete pfx addr offset zero i n low high covered = absurd (omega arith)
probe_complete pfx addr offset (suc rounds) i n low high covered =
    let tried = ((offset + i) % 2 ^ 11 + addr) % 2 ^ 32 in
    elim (Bool-cases (contains pfx tried 32 0)) [
      | inl hit ↦ (tried, rw hit refl)
      | inr miss ↦
          let later : i + 1 ≤ n = elim (ℕ_discrete i n) [
            | yes e ↦
                let here : contains pfx tried 32 0 ≡ true = rw e covered in
                absurd (false≢true (sym miss ∙ here))
            | no apart ↦ omega arith
          ] in
          let (test, run) =
            probe_complete pfx addr offset rounds (i + 1) n later (omega arith) covered in
          (test, rw miss run)
    ]
