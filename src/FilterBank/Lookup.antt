-- ===== src/FilterBank/Lookup.antt =====
-- `etherlookup`: the first port whose filter has every bit of the address.
use buffalo.Common.{
  ℕ, zero, suc, ◌+◌, ◌*◌, ◌^◌, ◌≤◌, ◌<◌, ◌==◌, ==_iff, ltb, leb, if◌then◌else◌, ◌≡◌, refl, ◌∙◌,
  Bool, true, false, List, Option, none, some, arith, get_elem?, set, length, length-set, replicate,
  length-replicate, Returns, for-Returns, Bool-cases, inl, inr, ◌>>=◌,
}
use buffalo.FilterBank.Bit.{bit, get_bit-bit}
use buffalo.FilterBank.Slots.{
  Laid, max_key, key-le, position-spot, spot, spot-inside, all_set, set_count, set_count-all_set,
}
use buffalo.FilterBank.{
  Slot, FilterBank, key, probe, count_hits, first_full, etherlookup, max_bf_count,
}
use buffalo.Hashing.Draws.{get_elem?-cell}
use buffalo.Hashing.Iterate.{cell, cell-set, cell-replicate}

-- A bank whose ten slots are laid out over the tables `ts`.
pub record IsLaid (ts : ℕ → List ℕ) (b : FilterBank) : Type 0 where
  pub slot :
      (p : ℕ) → p < max_bf_count → (s : Slot) × (get_elem? b.slots p ≡ some s) × Laid (ts p) s
  pub functions : b.max_function_size ≡ 8
  pub ports : b.bf_count ≤ max_bf_count

-- The filter of port `p` has every bit of the address.
abbrev pub matches : (ℕ → List ℕ) → ℕ → ℕ → Bool
matches ts addr p = all_set (ts p) addr 8

-- The first matching port among the `rounds` ports from `p` on.
unfoldable pub first_match : (ℕ → List ℕ) → ℕ → ℕ → ℕ → Option ℕ
first_match ts addr zero p = none
first_match ts addr (suc rounds) p =
    if matches ts addr p then some p else first_match ts addr rounds (suc p)

module _ (ts : ℕ → List ℕ) (b : FilterBank) (laid : IsLaid ts b) (addr : ℕ)
    (small : addr ≤ max_key) where
  -- Ports below `p` have been probed with function `i`, the others up to function `i - 1`.
  record Probed (i p : ℕ) (count : List ℕ) : Type 0 where
    width : length count ≡ max_bf_count
    counts :
        (q : ℕ)
        → q < b.bf_count
        → cell count q
          ≡ (if ltb q p then set_count (ts q) addr (suc i) else set_count (ts q) addr i)

  probe-Probed :
      (i p : ℕ) (count : List ℕ)
      → i < 8
      → p < b.bf_count
      → Probed i p count
      → Returns (Probed i (suc p)) (probe b.slots addr i p count)
  unfolding probe set_count
  probe-Probed i p count hi hp h =
      let (s, here, l) = laid.slot p (omega (arith, laid.ports)) in
      let t = ts p in
      let x = spot (length t * 8) addr i in
      let (c, got, zero_test) = get_bit-bit t x (spot-inside t s l addr small i) in
      let running : leb s.function_size i ≡ false = ground (arith, l.functions) in
      let old = get_elem?-cell count p (omega (arith, laid.ports, h.width)) in
      rw (here, ◌>>=◌, running, position-spot t s l addr small i hi, l.points, got, old, zero_test)
        (elim (Bool-cases (bit t x)) [
          | inl hit ↦
              let inside : p < length count = omega (arith, laid.ports, h.width) in
              (
                set count p (cell count p + 1),
                rw hit,
                record {
                  width = length-set count p _ ∙ h.width;
                  counts =
                      λ q hq. rw (cell-set count p q (cell count p + 1) inside) (raised q hq hit);
                },
              )
          | inr miss ↦ (count, rw miss, record { width = h.width; counts = λ q hq. kept q hq miss })
        ])
    where
      raised :
          (q : ℕ)
          → q < b.bf_count
          → bit (ts p) (spot (length (ts p) * 8) addr i) ≡ true
          → (if p == q then cell count p + 1 else cell count q)
            ≡ (if ltb q (suc p) then set_count (ts q) addr (suc i) else set_count (ts q) addr i)
      raised q hq hit = elim (Bool-cases (p == q)) [
        | inl same ↦ rw (← (==_iff p q).0 same) (ground (arith, h.counts p))
        | inr apart ↦ ground (arith, h.counts q)
      ]

      kept :
          (q : ℕ)
          → q < b.bf_count
          → bit (ts p) (spot (length (ts p) * 8) addr i) ≡ false
          → cell count q
            ≡ (if ltb q (suc p) then set_count (ts q) addr (suc i) else set_count (ts q) addr i)
      kept q hq miss = elim (Bool-cases (p == q)) [
        | inl same ↦ rw (← (==_iff p q).0 same) (ground (arith, h.counts p))
        | inr apart ↦ ground (arith, h.counts q)
      ]

  next_function : (i : ℕ) (count : List ℕ) → Probed i b.bf_count count → Probed (suc i) 0 count
  next_function i count h = record { width = h.width; counts = λ q hq. ground (arith, h.counts q) }

  count_hits-Probed : Returns (Probed 8 0) (count_hits b addr)
  unfolding count_hits set_count
  count_hits-Probed = simp laid.functions (
      for-Returns (λ i. Probed i 0) 8 _ 8 0 (replicate max_bf_count 0) (omega arith)
        (λ i count lo hi h.
          let (after, run, h') =
            for-Returns (Probed i) b.bf_count _ b.bf_count 0 count (omega arith)
              (λ p c lo' hp. probe-Probed i p c hi hp) h in
          (after, run, next_function i after h'))
        (record {
          width = length-replicate {A = ℕ} max_bf_count 0;
          counts = λ q hq. ground (arith, cell-replicate max_bf_count q);
        }))

  first_full-first_match :
      (count : List ℕ) (rounds p : ℕ)
      → Probed 8 0 count
      → p + rounds ≤ b.bf_count
      → (hit : ℕ) × (first_full b.slots count rounds p ≡ some (hit, first_match ts addr rounds p))
        × (hit ≤ 1)
  unfolding first_full first_match
  first_full-first_match count zero p h le = (0, refl, omega arith)
  first_full-first_match count (suc rounds) p h le =
      let (s, here, l) = laid.slot p (omega (arith, laid.ports)) in
      let got = get_elem?-cell count p (omega (arith, laid.ports, h.width)) in
      let counted : cell count p ≡ set_count (ts p) addr 8 = ground (arith, h.counts p) in
      let full : (cell count p == s.function_size) ≡ matches ts addr p =
        rw (counted, l.functions) (set_count-all_set (ts p) addr 8) in
      let (hit, run, small_hit) = first_full-first_match count rounds (suc p) h (omega arith) in
      rw (got, here, ◌>>=◌, full)
        (elim (Bool-cases (matches ts addr p)) [
          | inl found ↦ (1, rw found, omega arith)
          | inr other ↦ (hit, rw other run, small_hit)
        ])

-- On a bank whose ten filters are laid out over whole bytes with 8 hash functions each, for an
-- address of 16-bit words, `etherlookup` ends without a fault and returns the first port below the
-- count whose filter has all 8 bits of the address, or -1.
pub etherlookup-first_match :
    (ts : ℕ → List ℕ) (b : FilterBank) (w1 w2 : ℕ)
    → IsLaid ts b
    → w1 < 2 ^ 16
    → w2 < 2 ^ 16
    → etherlookup w1 w2 b ≡ some (first_match ts (key w1 w2) b.bf_count 0)
unfolding etherlookup
etherlookup-first_match ts b w1 w2 laid h1 h2 =
    let small = key-le w1 w2 h1 h2 in
    let (count, run, probed) = count_hits-Probed ts b laid (key w1 w2) small in
    let (hit, run', single) =
      first_full-first_match ts b laid (key w1 w2) small count b.bf_count 0 probed (omega arith) in
    let one : ltb 1 hit ≡ false = ground arith in rw (run, ◌>>=◌, run', one)
