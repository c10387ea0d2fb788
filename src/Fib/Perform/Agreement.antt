-- ===== src/Fib/Perform/Agreement.antt =====
-- The sampling of a file ends, and counts a disagreement only where several next hops hit.
use mathlib.Core.Option.{some-injective}
use native.Mathlib.Decide.{ℕ_discrete}
use native.Mathlib.Nat.{suc-mul}
use buffalo.Bloom.{BloomFilter}
use buffalo.Common.{
  ℕ, zero, suc, ◌+◌, ◌*◌, ◌%◌, ◌^◌, ◌≤◌, ◌<◌, ◌==◌, lt→ltb, if◌then◌else◌, ◌≡◌, refl, sym, subst,
  ◌∙◌, List, [], ◌∷◌, some, arith, Bool-cases, inl, inr, ◌⊎◌, length, Returns, ◌>>=◌,
}
use buffalo.Fib.Globals.{Globals, DataScheme, data_routeview, data_funet, data_internet2, data_mac}
use buffalo.Fib.Perform.{Sampling, uncount, rewind, fetchip, sample, sample_loop, samples_wanted}
use buffalo.Fib.Search.Agree.{NoMiss, ask_filters-bound, ask_filters-single}
use buffalo.Fib.Search.Asked.{Answers, Answering}
use buffalo.Fib.Search.{ask_filters}
use buffalo.Fib.{linear_lookup}
use buffalo.Hashing.Iterate.{All}
use buffalo.Rand.{Rand}
use buffalo.Fib.Perform.Judged.{Sampled, judge-Sampled, IsFile}

module _ (R : Rand) (mixed : ℕ → ℕ → ℕ) where
  open R use {srand, rand}

  -- The addresses that the fetches from a file give, from the seed `xseed` on.
  unfoldable pub drawn : DataScheme → ℕ → List ℕ → List ℕ
  drawn scheme xseed [] = []
  drawn data_funet xseed (addr ∷ packets) = addr ∷ drawn data_funet xseed packets
  drawn data_internet2 xseed (addr ∷ packets) =
      let r = (rand (srand xseed)).0 in mixed r addr ∷ drawn data_internet2 r packets
  drawn data_routeview xseed (addr ∷ packets) = []
  drawn data_mac xseed (addr ∷ packets) = []

module _ (R : Rand) (mixed : ℕ → ℕ → ℕ) (g : Globals) (filters : List BloomFilter) (hit : Answers)
    (Good : ℕ → Type 0) (good-lt : (addr : ℕ) → Good addr → addr < 2 ^ 32)
    (answering : (addr : ℕ) → Good addr → Answering R g filters hit addr)
    (no_miss : (addr : ℕ) → Good addr → NoMiss g hit addr) where
  -- The lookup of one address, next to `linear_lookup`.
  looked_up :
      (addr : ℕ)
      → Good addr
      → Returns
          (λ found.
            (found.error ≤ length g.nhlist)
            × ((linear_lookup g.pmap addr 32 ≡ 0)
                ⊎ ((1 < found.error) ⊎ (found.nh ≡ linear_lookup g.pmap addr 32))))
          (ask_filters R g filters addr)
  looked_up addr good =
      let small = good-lt addr good in
      let v = linear_lookup g.pmap addr 32 in
      let (found, run, bound) =
        ask_filters-bound R g filters hit addr small (answering addr good) in
      elim (ℕ_discrete v 0) [
        | yes none_there ↦ (found, run, (bound, inl none_there))
        | no there ↦
            let (found', run', (_, agrees)) =
              ask_filters-single R g filters hit addr small (answering addr good)
                (no_miss addr good) v there refl in
            let same = some-injective _ _ (sym run ∙ run') in
            (found, run, (bound, inr (rw same agrees)))
      ]

  sample-Sampled :
      (addr : ℕ) (s : Sampling)
      → Good addr
      → s.avgerror + length g.nhlist < 2 ^ 31
      → s.falseneg ≤ s.falsepos
      → Returns (Sampled (length g.nhlist) s) (sample R mixed g filters addr s)
  unfolding sample uncount
  sample-Sampled addr s good room within =
      let (found, run, (bound, agrees)) = looked_up addr good in
      elim (Bool-cases (found.error == 0)) [
        | inl no_hit ↦ (uncount s, rw (run, ◌>>=◌, no_hit) refl, uncounted)
        | inr hits ↦ elim (Bool-cases (linear_lookup g.pmap addr 32 == 0)) [
          | inl no_entry ↦ (uncount s, rw (run, ◌>>=◌, hits, no_entry) refl, uncounted)
          | inr entry ↦
              let right : (1 < found.error) ⊎ (found.nh ≡ linear_lookup g.pmap addr 32) =
                elim agrees [ inl zero_there ↦ absurd (ground arith) | inr either ↦ either ] in
              let (t, judged, (p, same)) =
                judge-Sampled (length g.nhlist) addr (linear_lookup g.pmap addr 32) found s bound
                  room within right in
              (
                record t { i = (t.i + 1) % 2 ^ 32 },
                rw (run, ◌>>=◌, hits, entry, judged) refl,
                record {
                  packets = p.packets;
                  xseed_kept = p.xseed_kept;
                  hits = p.hits;
                  index = omega (arith, same);
                  several = p.several;
                  within = p.within;
                },
              )
        ]
      ]
    where
      uncounted : Sampled (length g.nhlist) s (uncount s)
      uncounted = record {
        packets = refl;
        xseed_kept = refl;
        hits = omega arith;
        index = omega arith;
        several = omega arith;
        within = within;
      }

  -- A fetch takes one packet, and leaves the counts and the index.
  record Fetched (scheme : DataScheme) (s : Sampling) (left : List ℕ) (result : ℕ × Sampling)
      : Type 0 where
    address : Good result.0
    packets : (result.1).packets ≡ left
    rest : All Good (drawn R mixed scheme (result.1).xseed left)
    hits : (result.1).avgerror ≡ s.avgerror
    missed : (result.1).falseneg ≡ s.falseneg
    several : (result.1).falsepos ≡ s.falsepos

  fetchip-Fetched :
      (scheme : DataScheme) (s : Sampling) (addr : ℕ) (left : List ℕ)
      → IsFile scheme
      → s.packets ≡ addr ∷ left
      → All Good (drawn R mixed scheme s.xseed (addr ∷ left))
      → Fetched scheme s left (fetchip R mixed scheme s)
  unfolding fetchip drawn
  fetchip-Fetched data_routeview s addr left file e good = absurd file
  fetchip-Fetched data_funet s addr left file e good = rw e (record {
    address = good.0;
    packets = refl;
    rest = good.1;
    hits = refl;
    missed = refl;
    several = refl;
  })
  fetchip-Fetched data_internet2 s addr left file e good = rw e (record {
    address = good.0;
    packets = refl;
    rest = good.1;
    hits = refl;
    missed = refl;
    several = refl;
  })
  fetchip-Fetched data_mac s addr left file e good = absurd file

  fetchip-end :
      (scheme : DataScheme) (s : Sampling) → s.packets ≡ [] → fetchip R mixed scheme s ≡ (0, s)
  unfolding fetchip
  fetchip-end scheme s e = rw e refl

  -- A round that reads a file, with `i` in range.
  file_round :
      (fuel : ℕ) (scheme : DataScheme) (s : Sampling)
      → IsFile scheme
      → s.i ≤ 11
      → sample_loop R mixed g filters (suc fuel) scheme s ≡ (
          let fetched = fetchip R mixed scheme s in
          if fetched.0 == 0
          then some fetched.1
          else sample R mixed g filters fetched.0 (rewind fetched.1)
            >>= sample_loop R mixed g filters fuel scheme)
  unfolding sample_loop samples_wanted
  file_round fuel data_routeview s file le = absurd file
  file_round fuel data_funet s file le = rw (sample_loop, lt→ltb s.i 999_999 (omega arith)) refl
  file_round fuel data_internet2 s file le = rw (sample_loop, lt→ltb s.i 999_999 (omega arith)) refl
  file_round fuel data_mac s file le = absurd file

  rewind-Fetched :
      (scheme : DataScheme) (s : Sampling) (left : List ℕ) (result : ℕ × Sampling)
      → Fetched scheme s left result
      → Fetched scheme s left (result.0, rewind result.1)
  unfolding rewind
  rewind-Fetched scheme s left result f = record {
    address = f.address;
    packets = f.packets;
    rest = f.rest;
    hits = f.hits;
    missed = f.missed;
    several = f.several;
  }

  rewind-le : (s : Sampling) → (rewind s).i ≤ 10
  unfolding rewind
  rewind-le s = ground arith

  -- Let the filters answer for the addresses that the fetches give, which are below 2^32, and every
  -- entry of the table that covers one hit its own next hop's filter. The loop over a file ends after at most one round more than
  -- the file has packets, if `i` starts at 11 or less and the hits stay below 2^31; it counts no
  -- more disagreements with `linear_lookup` than false positives, if it starts so, and no more new
  -- false positives than packets.
  pub sample_loop-file :
      (fuel : ℕ) (scheme : DataScheme) (packets : List ℕ) (s : Sampling)
      → s.packets ≡ packets
      → length packets < fuel
      → IsFile scheme
      → All Good (drawn R mixed scheme s.xseed packets)
      → s.i ≤ 11
      → s.avgerror + length packets * length g.nhlist < 2 ^ 31
      → s.falseneg ≤ s.falsepos
      → Returns
          (λ t. (t.falseneg ≤ t.falsepos) × (t.falsepos ≤ s.falsepos + length packets))
          (sample_loop R mixed g filters fuel scheme s)
  sample_loop-file zero scheme packets s e enough file good le room within = absurd (omega arith)
  sample_loop-file (suc fuel) scheme [] s e enough file good le room within = (
    s,
    file_round fuel scheme s file le ∙ rw (fetchip-end scheme s e) refl,
    (within, omega arith),
  )
  sample_loop-file (suc fuel) scheme (addr ∷ left) s e enough file good le room within =
      let fetched = fetchip R mixed scheme s in
      let f = fetchip-Fetched scheme s addr left file e good in
      elim (Bool-cases (fetched.0 == 0)) [
        | inl stops ↦ (
          fetched.1,
          file_round fuel scheme s file le ∙ rw stops refl,
          (omega (arith, f.missed, f.several), omega (arith, f.several)),
        )
        | inr goes ↦
            let n = length g.nhlist in
            let space = suc-mul (length left) n in
            let r = rewind-Fetched scheme s left fetched f in
            let (t, run, p) =
              sample-Sampled fetched.0 (rewind fetched.1) f.address (omega (arith, r.hits))
                (omega (arith, r.missed, r.several)) in
            let (u, run', q) =
              sample_loop-file fuel scheme left t (p.packets ∙ r.packets) (omega arith) file
                (subst (λ x. All Good (drawn R mixed scheme x left)) (sym p.xseed_kept) r.rest)
                (omega (arith, p.index, rewind-le fetched.1)) (omega (arith, p.hits, r.hits))
                p.within in
            (
              u,
              file_round fuel scheme s file le ∙ rw (goes, run, ◌>>=◌) run',
              (q.0, omega (arith, q.1, p.several, r.several)),
            )
      ]
