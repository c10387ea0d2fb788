-- ===== src/FilterBank/Route.antt =====
-- Inserts followed by lookups.
use native.Mathlib.Decide.{ℕ_discrete}
use buffalo.Common.{
  ℕ, zero, suc, ◌+◌, ◌*◌, ◌^◌, ◌≤◌, ◌<◌, ◌≡◌, refl, ap, true, List, some, arith, length, Bool-cases,
  inl, inr, ◌>>=◌,
}
use buffalo.FilterBank.Bit.{bit}
use buffalo.FilterBank.Insert.{IsReady, Adds, grown_count, etherinsert-Adds}
use buffalo.FilterBank.Lookup.{matches, first_match, etherlookup-first_match}
use buffalo.FilterBank.Slots.{spot, drawn, all_set}
use buffalo.FilterBank.{FilterBank, key, etherinsert, etherlookup, max_bf_count}

drawn-spot : (n addr k i : ℕ) → i < k → drawn n addr k (spot n addr i) ≡ true
unfolding drawn
drawn-spot n addr zero i h = absurd (omega arith)
drawn-spot n addr (suc k) i h = elim (ℕ_discrete i k) [
  | yes last ↦ rw last (ground arith)
  | no before ↦ ground (arith, drawn-spot n addr k i)
]

all_set_of_bits :
    (t : List ℕ) (addr k : ℕ)
    → ((i : ℕ) → i < k → bit t (spot (length t * 8) addr i) ≡ true)
    → all_set t addr k ≡ true
unfolding all_set
all_set_of_bits t addr zero h = refl
all_set_of_bits t addr (suc k) h =
    ground (arith, all_set_of_bits t addr k (λ i hi. h i (omega arith)), h k)

all_set_mono :
    (t u : List ℕ) (addr k : ℕ)
    → length u ≡ length t
    → ((q : ℕ) → bit t q ≡ true → bit u q ≡ true)
    → all_set t addr k ≡ true
    → all_set u addr k ≡ true
unfolding all_set
all_set_mono t u addr zero e h s = refl
all_set_mono t u addr (suc k) e h s =
    rw e (ground (arith, all_set_mono t u addr k e h, h (spot (length t * 8) addr k)))

module _ (ts us : ℕ → List ℕ) (addr port : ℕ) (adds : Adds ts us addr port) where
  -- The inserted address matches at its port.
  pub Adds-matches : matches us addr port ≡ true
  Adds-matches = all_set_of_bits (us port) addr 8 λ i h. rw (adds.widths port) (
      ground (
        arith,
        adds.here (spot (length (ts port) * 8) addr i),
        drawn-spot (length (ts port) * 8) addr 8 i,
      ))

  -- What matched before still matches.
  pub Adds-keeps : (other p : ℕ) → matches ts other p ≡ true → matches us other p ≡ true
  Adds-keeps other p m = elim (ℕ_discrete p port) [
    | yes same ↦ rw same (
        all_set_mono (ts port) (us port) other 8 (adds.widths port)
          (λ q set. ground (arith, adds.here q)) (rw same at m))
    | no apart ↦ rw (adds.others p apart) m
  ]

first_match-le :
    (ts : ℕ → List ℕ) (addr p rounds i : ℕ)
    → matches ts addr p ≡ true
    → i ≤ p
    → p < i + rounds
    → (q : ℕ) × (first_match ts addr rounds i ≡ some q) × (q ≤ p)
unfolding first_match
first_match-le ts addr p zero i m lo hi = absurd (omega arith)
first_match-le ts addr p (suc rounds) i m lo hi = elim (Bool-cases (matches ts addr i)) [
  | inl found ↦ (i, rw found, lo)
  | inr miss ↦
      let later : i < p = elim (ℕ_discrete i p) [
        | yes same ↦ cc (ap (matches ts addr) same)
        | no apart ↦ omega arith
      ] in
      rw miss (first_match-le ts addr p rounds (suc i) m later (omega arith))
]

-- A bank with an address at one of the ports that are searched finds it at that port or an
-- earlier one.
etherlookup-matches :
    (ts : ℕ → List ℕ) (b : FilterBank) (w1 w2 p : ℕ)
    → IsReady ts b
    → w1 < 2 ^ 16
    → w2 < 2 ^ 16
    → p < b.bf_count
    → matches ts (key w1 w2) p ≡ true
    → (q : ℕ) × (etherlookup w1 w2 b ≡ some (some q)) × (q ≤ p)
etherlookup-matches ts b w1 w2 p ready h1 h2 hp m =
    let (q, first, le) =
      first_match-le ts (key w1 w2) p b.bf_count 0 m (omega arith) (omega arith) in
    (q, rw (etherlookup-first_match ts b w1 w2 ready.laid h1 h2, first), le)

-- No false negative on a ready bank: after an insert at a port below 10 that is then below the
-- count, `etherlookup` of the same address of 16-bit words returns that port or an earlier one.
etherlookup-etherinsert :
    (ts : ℕ → List ℕ) (b : FilterBank) (w1 w2 port : ℕ)
    → IsReady ts b
    → w1 < 2 ^ 16
    → w2 < 2 ^ 16
    → port < max_bf_count
    → port < grown_count b port
    → (q : ℕ) × ((etherinsert w1 w2 port b >>= etherlookup w1 w2) ≡ some (some q)) × (q ≤ port)
etherlookup-etherinsert ts b w1 w2 port ready h1 h2 hp searched =
    let (g, run, (us, ready', adds, count)) = etherinsert-Adds ts b w1 w2 port ready h1 h2 hp in
    let (q, found, le) =
      etherlookup-matches us g w1 w2 port ready' h1 h2 (omega arith)
        (Adds-matches ts us (key w1 w2) port adds) in
    (q, rw run found, le)

first_match-lt :
    (ts : ℕ → List ℕ) (addr rounds i q : ℕ) → first_match ts addr rounds i ≡ some q → q < i + rounds
unfolding first_match
first_match-lt ts addr zero i q e = cc
first_match-lt ts addr (suc rounds) i q e = ground (arith, first_match-lt ts addr rounds (suc i) q)

-- A port at or above the count is never returned: its filter is not searched, whatever was
-- inserted there.
etherlookup-lt :
    (ts : ℕ → List ℕ) (b : FilterBank) (w1 w2 q : ℕ)
    → IsReady ts b
    → w1 < 2 ^ 16
    → w2 < 2 ^ 16
    → etherlookup w1 w2 b ≡ some (some q)
    → q < b.bf_count
etherlookup-lt ts b w1 w2 q ready h1 h2 e =
    let lookup = etherlookup-first_match ts b w1 w2 ready.laid h1 h2 in
    omega (arith, first_match-lt ts (key w1 w2) b.bf_count 0 q (cc lookup))

-- If the count of a ready bank is 0 and the first insert is at a port from 1 to 9, then no lookup
-- of an address of 16-bit words returns that port, also not of the inserted address: only port 0
-- is searched.
etherinsert-first_port :
    (ts : ℕ → List ℕ) (b : FilterBank) (w1 w2 v1 v2 port : ℕ)
    → IsReady ts b
    → w1 < 2 ^ 16
    → w2 < 2 ^ 16
    → v1 < 2 ^ 16
    → v2 < 2 ^ 16
    → 0 < port
    → port < max_bf_count
    → b.bf_count ≡ 0
    → ¬ ((etherinsert w1 w2 port b >>= etherlookup v1 v2) ≡ some (some port))
unfolding grown_count
etherinsert-first_port ts b w1 w2 v1 v2 port ready h1 h2 k1 k2 positive hp fresh e =
    let (g, run, (us, ready', adds, count)) = etherinsert-Adds ts b w1 w2 port ready h1 h2 hp in
    let below = etherlookup-lt us g v1 v2 port ready' k1 k2 (rw (run, ◌>>=◌) at e) in
    ground (arith, below)
