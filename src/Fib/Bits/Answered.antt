-- ===== src/Fib/Bits/Answered.antt =====
-- The branch for HASH_BIT 0, where the filters answer.
use Prim.Native.Nat.{bit_and}
use buffalo.Common.Dict.{value, nat_key}
use buffalo.Common.{
  ℕ, zero, suc, ◌*◌, ◌^◌, ◌≤◌, ◌<◌, ◌==◌, ltb, Bool-cases, ◌≡◌, refl, ap, ◌%◌, ◌∙◌, List, [], ◌∷◌,
  some, arith, inl, inr, Elem, length, length-set, length-replicate, replicate, Returns, ◌>>=◌,
}
use buffalo.Bloom.{BloomFilter}
use buffalo.Fib.Bits.{Asking, sure_hit, ask_length, ask_lengths, ask_lengths-Sure, hash_bits}
use buffalo.Fib.Blocks.{block, run, run_next, masked}
use buffalo.Fib.Build.Filled.{get_elem?-some}
use buffalo.Fib.Globals.{Globals}
use buffalo.Fib.Search.Asked.{Answers, Answering}
use buffalo.Prefix.{Prefix}
use buffalo.Rand.{Rand}

module _ (R : Rand) (g : Globals) (filters : List BloomFilter) (hit : Answers) (addr : ℕ)
    (small : addr < 2 ^ 32) (answering : Answering R g filters hit addr)
    (numbered : (nh : ℕ) → Elem nh g.nhlist → value g.nhindex nh < length g.nhlist) where
  abbrev Wide : Asking → Type 0
  Wide s = length s.nhmaxlen ≡ length g.nhlist

  ask_length-Wide :
      (j : ℕ) (nhs : List ℕ) (s : Asking)
      → 0 < j
      → j ≤ 32
      → ((nh : ℕ) → Elem nh nhs → Elem nh g.nhlist)
      → Wide s
      → Returns Wide (ask_length R g filters j (block addr j) nhs s)
  unfolding ask_length sure_hit
  ask_length-Wide j [] s pos short listed wide = (s, refl, wide)
  ask_length-Wide j (nh ∷ nhs) s pos short listed wide =
      let m = listed nh (inl refl) in
      let (longest, at_index) =
        get_elem?-some s.nhmaxlen (value g.nhindex nh) (omega (arith, numbered nh m, wide)) in
      let (f, here, answer) = answering nh j m pos short in
      let (t, rest, wide') = ask_length-Wide j nhs s pos short (λ x m'. listed x (inr m')) wide in
      elim (Bool-cases (longest == 0)) [
        | inr known ↦ (t, rw (at_index, ◌>>=◌, known) rest, wide')
        | inl new ↦ elim (Bool-cases (hit nh (block addr j))) [
          | inl hits ↦ (
            sure_hit nh (value g.nhindex nh) j s,
            rw (at_index, ◌>>=◌, new, here, answer, hits) refl,
            length-set s.nhmaxlen (value g.nhindex nh) j ∙ wide,
          )
          | inr misses ↦ (t, rw (at_index, ◌>>=◌, new, here, rw misses at answer) rest, wide')
        ]
      ]

  -- One length after another.
  lengths_step :
      (j mask : ℕ) (s : Asking) (p : Prefix)
      → record { addr = bit_and addr mask; len = suc j % 2 ^ 8 } ≡ p
      → ask_lengths R g filters addr (suc j) mask s ≡ (
          ask_length R g filters (suc j) p g.nhlist s
          >>= ask_lengths R g filters addr j (mask * 2 % 2 ^ 32))
  unfolding ask_lengths
  lengths_step j mask s p e =
      ap
        (λ q.
          ask_length R g filters (suc j) q g.nhlist s
          >>= ask_lengths R g filters addr j (mask * 2 % 2 ^ 32))
        e

  no_length : (mask : ℕ) (s : Asking) → ask_lengths R g filters addr 0 mask s ≡ some s
  unfolding ask_lengths
  no_length mask s = refl

  ask_lengths-Wide :
      (j : ℕ) (s : Asking)
      → j ≤ 32
      → Wide s
      → Returns Wide (ask_lengths R g filters addr j (run j) s)
  ask_lengths-Wide zero s short wide = (s, no_length (run 0) s, wide)
  ask_lengths-Wide (suc j) s short wide =
      let (t, step, wide') =
        ask_length-Wide (suc j) g.nhlist s (omega arith) short (λ nh m. m) wide in
      let (u, rest, wide'') = ask_lengths-Wide j t (omega arith) wide' in
      (
        u,
        lengths_step j (run (suc j)) s (block addr (suc j)) (masked addr j small (omega arith))
            ∙ rw (step, ◌>>=◌, run_next j (omega arith)) rest,
        wide'',
      )

  -- The branch ends and leaves `falsepos`.
  pub hash_bits-falsepos : (falsepos : ℕ) → hash_bits R g filters addr falsepos ≡ some falsepos
  unfolding hash_bits run
  hash_bits-falsepos falsepos =
      let start : Asking = record {
        nhmaxlen = replicate (length g.nhlist) 0;
        found = 0;
        error = 0;
        nh = 0;
        hitj = 0;
      } in
      let (s, asked, _) =
        ask_lengths-Wide 32 start (omega arith) (length-replicate (length g.nhlist) 0) in
      let sure =
        ask_lengths-Sure R g filters addr 32 0xffff_ffff start s asked
          (omega arith, λ h. absurd (omega (arith, h))) in
      elim (Bool-cases (ltb 1 s.error)) [
        | inr few ↦ rw (asked, ◌>>=◌, few) refl
        | inl several ↦
            let one : s.found ≡ 1 = sure.1 (ground (arith, several)) in
            rw (asked, ◌>>=◌, several, one) refl
      ]
