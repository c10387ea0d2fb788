-- ===== src/Fib/Bits.antt =====
-- BloomFilterTest.cc: the branch of `perform_pfxlen_each_out` for HASH_BIT 0, which goes through the
-- lengths first and takes an answer of 2 for a doubtful hit.
pub mod Answered
use Prim.Native.Nat.{bit_and}
use mathlib.Core.Option.{some-injective}
use buffalo.Bloom
use buffalo.Bloom.{BloomFilter, contains_prefix, contains_seed}
use buffalo.Common.Dict.{value, nat_key}
use buffalo.Common.{
  ℕ, zero, suc, ◌+◌, ◌*◌, ◌%◌, ◌^◌, ◌≤◌, ◌<◌, ◌==◌, ltb, ◌||◌, Bool-cases, if◌then◌else◌, true,
  false, ◌≡◌, sym, List, [], ◌∷◌, Option, Option-cases, some, arith, inl, inr, get_elem?, set,
  length, replicate, bind-some, ◌>>=◌,
}
use buffalo.Fib.Build.{pfx_index}
use buffalo.Fib.Globals.{Globals}
use buffalo.FilterBank.{as_int}
use buffalo.Hashing.{contains_loop, read}
use buffalo.Prefix.{Prefix}
use buffalo.Rand.{Rand}

-- The variables of the branch.
pub record Asking : Type 0 where
  pub nhmaxlen : List ℕ
  pub found : ℕ
  pub error : ℕ
  pub nh : ℕ
  pub hitj : ℕ

-- An answer of 1 at the length `j`, for the next hop with the number `index`.
unfoldable pub sure_hit : ℕ → ℕ → ℕ → Asking → Asking
sure_hit nexthop index j s = record {
  nhmaxlen = set s.nhmaxlen index j;
  found = (if s.found == 0 then 1 else s.found);
  error = s.error + 1;
  nh = nexthop;
  hitj = j;
}

-- An answer of 2.
unfoldable pub doubtful_hit : ℕ → ℕ → Asking → Asking
doubtful_hit index j s = record s {
  nhmaxlen = set s.nhmaxlen index j;
  found = (if s.found == 0 then 2 else s.found);
  error = s.error + 1;
}

module _ (R : Rand) (g : Globals) (filters : List BloomFilter) where
  -- The loop over the next hops, which a sure hit ends.
  unfoldable pub ask_length : ℕ → Prefix → List ℕ → Asking → Option Asking
  unfolding pfx_index sure_hit doubtful_hit
  ask_length j p [] s = some s
  ask_length j p (nexthop ∷ nhs) s = do
    let index = value g.nhindex nexthop
    longest ← get_elem? s.nhmaxlen index
    let checked : Option Asking = do
      f ← get_elem? filters (pfx_index g j nexthop)
      check ← Bloom.contains_prefix R p f
      elim (check == 1) [
        | true ↦ some (sure_hit nexthop index j s)
        | false ↦ elim (check == 2) [
          | true ↦ ask_length j p nhs (doubtful_hit index j s)
          | false ↦ ask_length j p nhs s
        ]
      ]
    elim (longest == 0) [ true ↦ checked | false ↦ ask_length j p nhs s ]

  -- The loop over the lengths from `j` down.
  unfoldable pub ask_lengths : ℕ → ℕ → ℕ → Asking → Option Asking
  unfolding ask_length
  ask_lengths addr zero mask s = some s
  ask_lengths addr (suc j) mask s = do
    t ← ask_length (suc j) (record { addr = bit_and addr mask; len = suc j % 2 ^ 8 }) g.nhlist s
    ask_lengths addr j (mask * 2 % 2 ^ 32) t

  -- The branch, of `falsepos`; what it prints is left out.
  unfoldable pub hash_bits : ℕ → ℕ → Option ℕ
  unfolding ask_lengths as_int
  hash_bits addr falsepos = do
    s ← ask_lengths addr 32 0xffff_ffff (record {
      nhmaxlen = replicate (length g.nhlist) 0;
      found = 0;
      error = 0;
      nh = 0;
      hitj = 0;
    })
    let doubtful = as_int (falsepos + 1)
    if ltb 1 s.error
        then (if s.found == 0 || s.found == 2 then doubtful else some falsepos)
        else some falsepos

  contains_loop-le :
      (k : ℕ) (t : R.State) (n : ℕ) (table : List ℕ) (c : ℕ)
      → contains_loop R k t n (some table) ≡ some c
      → c ≤ 1
  unfolding contains_loop
  contains_loop-le zero t n table c e = omega (arith, some-injective _ _ e)
  contains_loop-le (suc k) t n table c e =
      let (cell, here, run) = bind-some (read (some table) (R.scale (R.rand t).0 n)) _ c e in
      elim (Bool-cases (cell == 0)) [
        | inl empty ↦ omega (arith, some-injective _ _ (rw empty at run))
        | inr full ↦ contains_loop-le k (R.rand t).1 n table c (rw full at run)
      ]

  -- A filter answers 0 or 1.
  contains_prefix-le :
      (p : Prefix) (f : BloomFilter) (c : ℕ) → contains_prefix R p f ≡ some c → c ≤ 1
  unfolding contains_prefix contains_seed
  contains_prefix-le p f c e = elim (Option-cases f.hash_table) [
    | inl missing ↦ omega (arith, some-injective _ _ (rw missing at e))
    | inr (table, here) ↦
        contains_loop-le f.function_size (R.srand p.addr) f.table_size table c (rw here at e)
  ]

  -- Once there is a hit, `found` is 1.
  abbrev Sure : Asking → Type 0
  Sure s = (s.found ≤ 1) × (0 < s.error → s.found ≡ 1)

  ask_length-Sure :
      (j : ℕ) (p : Prefix) (nhs : List ℕ) (s t : Asking)
      → ask_length j p nhs s ≡ some t
      → Sure s
      → Sure t
  unfolding ask_length sure_hit
  ask_length-Sure j p [] s t e sure = rw (← some-injective _ _ e) sure
  ask_length-Sure j p (nexthop ∷ nhs) s t e sure =
      let index = value g.nhindex nexthop in
      let (longest, at_index, run) = bind-some (get_elem? s.nhmaxlen index) _ t e in
      elim (Bool-cases (longest == 0)) [
        | inr known ↦ ask_length-Sure j p nhs s t (rw known at run) sure
        | inl new ↦
            let (f, here, run') =
              bind-some (get_elem? filters (pfx_index g j nexthop)) _ t (rw new at run) in
            let (check, answer, run'') = bind-some (contains_prefix R p f) _ t run' in
            let low = contains_prefix-le p f check answer in
            elim (Bool-cases (check == 1)) [
              | inl hit ↦
                  let same : sure_hit nexthop index j s ≡ t =
                    some-injective _ _ (rw hit at run'') in
                  rw (← same) (ground (arith, sure), λ some_hit. ground (arith, sure))
              | inr other ↦
                  let not_two : (check == 2) ≡ false = ground (arith, low) in
                  ask_length-Sure j p nhs s t (rw (other, not_two) at run'') sure
            ]
      ]

  pub ask_lengths-Sure :
      (addr j mask : ℕ) (s t : Asking) → ask_lengths addr j mask s ≡ some t → Sure s → Sure t
  unfolding ask_lengths
  ask_lengths-Sure addr zero mask s t e sure = rw (← some-injective _ _ e) sure
  ask_lengths-Sure addr (suc j) mask s t e sure =
      let (u, step, run) =
        bind-some
          (ask_length (suc j) (record { addr = bit_and addr mask; len = suc j % 2 ^ 8 }) g.nhlist s)
          _ t e in
      ask_lengths-Sure addr j (mask * 2 % 2 ^ 32) u t run
        (ask_length-Sure (suc j) _ g.nhlist s u step sure)
