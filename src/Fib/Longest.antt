-- ===== src/Fib/Longest.antt =====
-- `linear_lookup` answers with the longest matching prefix.
use buffalo.Common.{
  ℕ, zero, suc, ◌^◌, ◌≤◌, ◌<◌, ◌≡◌, ◌≢◌, refl, sym, ◌∙◌, ap, none, some, arith, Option-cases, inl,
  inr,
}
use native.Mathlib.Decide.{ℕ_discrete}
use buffalo.Fib.Blocks.{block, run, run_next, masked, Covers-block, block-IsValid, block-Covers}
use buffalo.Fib.{PrefixMap, find, lookup_loop, linear_lookup}
use buffalo.Prefix.Contains.{IsValid}
use buffalo.Prefix.Subset.{Covers}
use buffalo.Prefix.{Prefix}

module _ (pmap : PrefixMap) (addr : ℕ) (small : addr < 2 ^ 32) where
  -- A round that finds something, and one that does not.
  lookup-found :
      (i v : ℕ)
      → i < 32
      → find pmap (block addr (suc i)) ≡ some v
      → lookup_loop pmap addr (suc i) (run (suc i)) ≡ v
  unfolding lookup_loop
  lookup-found i v h found = rw (lookup_loop, masked addr i small h, found) refl

  lookup-missed :
      (i : ℕ)
      → i < 32
      → find pmap (block addr (suc i)) ≡ none
      → lookup_loop pmap addr (suc i) (run (suc i)) ≡ lookup_loop pmap addr i (run i)
  unfolding lookup_loop
  lookup-missed i h missed = rw (lookup_loop, masked addr i small h, missed, run_next i h) refl

  full_mask : linear_lookup pmap addr 32 ≡ lookup_loop pmap addr 32 (run 32)
  unfolding linear_lookup run
  full_mask = refl

  -- No entry that covers the address is longer than `l`.
  abbrev pub NoneLonger : ℕ → Type 0
  NoneLonger l = (q : Prefix) → IsValid q → Covers q addr → l < q.len → find pmap q ≡ none

  missed_block : (l i : ℕ) → NoneLonger l → l ≤ i → i < 32 → find pmap (block addr (suc i)) ≡ none
  unfolding block
  missed_block l i none_longer le h =
      none_longer (block addr (suc i))
        (block-IsValid addr (suc i) small (omega arith) (omega arith)) (block-Covers addr (suc i))
        (omega arith)

  module _ (p : Prefix) (v : ℕ) (valid : IsValid p) (covers : Covers p addr)
      (found : find pmap p ≡ some v) (longest : NoneLonger p.len) where
    lookup_loop-longest : (i : ℕ) → p.len ≤ i → i ≤ 32 → lookup_loop pmap addr i (run i) ≡ v
    lookup_loop-longest zero le short = absurd (omega (arith, valid.positive))
    lookup_loop-longest (suc i) le short = elim (ℕ_discrete p.len (suc i)) [
      | yes here ↦
          lookup-found i v (omega arith)
            (ap (find pmap) (sym (Covers-block p addr valid covers ∙ ap (block addr) here)) ∙ found)
      | no shorter ↦
          lookup-missed i (omega arith) (missed_block p.len i longest (omega arith) (omega arith))
          ∙ lookup_loop-longest i (omega arith) (omega arith)
    ]

    -- Let a 32-bit address be covered by an entry of the table (of length 1 to 32, with no bit
    -- below its length), and by no longer one. `linear_lookup` from the length 32 then returns
    -- the next hop of that entry.
    pub linear_lookup-longest : linear_lookup pmap addr 32 ≡ v
    linear_lookup-longest = full_mask ∙ lookup_loop-longest 32 valid.short (omega arith)

  lookup_loop-zero : (i : ℕ) → NoneLonger 0 → i ≤ 32 → lookup_loop pmap addr i (run i) ≡ 0
  unfolding lookup_loop
  lookup_loop-zero zero none_longer short = refl
  lookup_loop-zero (suc i) none_longer short =
      lookup-missed i (omega arith) (missed_block 0 i none_longer (omega arith) (omega arith))
      ∙ lookup_loop-zero i none_longer (omega arith)

  -- If no entry of length 1 to 32 covers the 32-bit address, `linear_lookup` from the length 32
  -- returns 0.
  pub linear_lookup-zero : NoneLonger 0 → linear_lookup pmap addr 32 ≡ 0
  linear_lookup-zero none_longer = full_mask ∙ lookup_loop-zero 32 none_longer (omega arith)

  -- A nonzero answer is the next hop of the longest block that the table has.
  abbrev pub LongestBlock : ℕ → ℕ → Type 0
  LongestBlock i v =
      (j : ℕ) × (0 < j)
      × (j ≤ i)
      × (find pmap (block addr j) ≡ some v)
      × ((l : ℕ) → j < l → l ≤ i → find pmap (block addr l) ≡ none)

  LongestBlock-suc :
      (i v : ℕ) → find pmap (block addr (suc i)) ≡ none → LongestBlock i v → LongestBlock (suc i) v
  LongestBlock-suc i v missed (j, pos, le, found, longest) = (
    j,
    pos,
    omega arith,
    found,
    λ l lt le'. elim (ℕ_discrete l (suc i)) [
      | yes last ↦ rw last missed
      | no below ↦ longest l lt (omega arith)
    ],
  )

  lookup_loop-LongestBlock :
      (i v : ℕ) → i ≤ 32 → v ≢ 0 → lookup_loop pmap addr i (run i) ≡ v → LongestBlock i v
  unfolding lookup_loop
  lookup_loop-LongestBlock zero v short nonzero e = absurd (nonzero (sym e))
  lookup_loop-LongestBlock (suc i) v short nonzero e =
      elim (Option-cases (find pmap (block addr (suc i)))) [
        | inl missed ↦ LongestBlock-suc i v missed (
            lookup_loop-LongestBlock i v (omega arith) nonzero
              (sym (lookup-missed i (omega arith) missed) ∙ e))
        | inr (w, found) ↦ (
          suc i,
          omega arith,
          omega arith,
          found ∙ ap some (sym (lookup-found i w (omega arith) found) ∙ e),
          λ l lt le. absurd (omega arith),
        )
      ]

  pub linear_lookup-LongestBlock :
      (v : ℕ) → v ≢ 0 → linear_lookup pmap addr 32 ≡ v → LongestBlock 32 v
  linear_lookup-LongestBlock v nonzero e =
      lookup_loop-LongestBlock 32 v (omega arith) nonzero (sym full_mask ∙ e)
