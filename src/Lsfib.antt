-- ===== src/Lsfib.antt =====
-- lsfib.cc: the expected latency between two nodes when the switches of a network forward a packet
-- on false positives as well. `none` stands for undefined behaviour and for spent fuel.
pub mod Latency
pub mod Run
pub mod Read
pub mod Main
pub mod Stretch
pub mod Successor
use buffalo.Common.Dict.{Dict, lookup, nat_key}
use buffalo.Common.OrdSet.{insert, nat_order}
use buffalo.Common.{
  ◌++◌, ℕ, zero, suc, ◌+◌, ◌-◌, ◌*◌, ◌/◌, ◌^◌, ◌==◌, ltb, leb, ◌&&◌, Bool, true, false,
  if◌then◌else◌, List, [], ◌∷◌, Option, none, some, get_elem?, set, length, for, each, ◌>>=◌,
}
use buffalo.ShortestPath.{Entry}

-- What the code does with a `double`: 0, 1, 1e-10, 0.001 and 9999, `(double) k`, `exp10(-k)`, the four
-- operations and `<`.
pub record Double (W : Type 0) : Type 0 where
  pub nought : W
  pub one : W
  pub threshold : W
  pub thousandth : W
  pub large : W
  pub of_int : ℕ → W
  pub exp10_minus : ℕ → W
  pub plus : W → W → W
  pub minus : W → W → W
  pub times : W → W → W
  pub over : W → W → W
  pub less : W → W → Bool

-- `net`
abbrev pub Net : Type 0
Net = Dict ℕ (List ℕ)

-- The set that an entry holds, and the empty one for a new entry.
abbrev or_empty : Option (List ℕ) → List ℕ
or_empty none = []
or_empty (some s) = s

-- `net[src]`
unfoldable pub hops : Net → ℕ → List ℕ
unfolding lookup
hops net src = or_empty (lookup net src)

-- `sp`, `n`, `neighbors` and `falsepos`, which `calc_latency` only reads.
pub record Graph (W : Type 0) : Type 0 where
  pub sp : List Entry
  pub n : ℕ
  pub neighbors : List (List ℕ)
  pub falsepos : W

-- `total` and `sum`, and the sets of next hops.
pub record Tally (W : Type 0) : Type 0 where
  pub total : W
  pub sum : W
  pub net : Net

-- `calc_latency` itself, with `none` for a `prev` of -1.
abbrev pub Latency : Type 0 → Type 0
Latency W = ℕ → ℕ → Option ℕ → W → Net → Option (W × Net)

-- `*si == prev`
abbrev pub is_prev : Option ℕ → ℕ → Bool
is_prev none si = false
is_prev (some prev) si = si == prev

-- `net[src].find(prev) != net[src].end()`
unfoldable has_prev : Option ℕ → List ℕ → Bool
has_prev prev [] = false
has_prev prev (x ∷ xs) = if is_prev prev x then true else has_prev prev xs

-- `size`, without the node that the packet comes from.
unfoldable pub size_without : Option ℕ → List ℕ → ℕ
unfolding has_prev
size_without prev s = if has_prev prev s then length s - 1 else length s

-- `choose[i] = i` for all `i` below `fpcount`, in an array of 20.
unfoldable pub first_choice : ℕ → Option (List ℕ)
first_choice fpcount =
    if leb fpcount 20 then for fpcount 0 (λ i choose. some (choose ++ i ∷ [])) [] else none

-- The loop that carries: `choose[i]` is out of its range. From `i` = 0 it goes on to count up
-- `choose[-1]`.
unfoldable pub carry : ℕ → ℕ → ℕ → List ℕ → Option (ℕ × List ℕ)
carry width fpcount zero choose = do
  c ← get_elem? choose zero
  elim (ltb width (c + fpcount)) [ true ↦ none | false ↦ some (zero, choose) ]
carry width fpcount (suc i) choose = do
  c ← get_elem? choose (suc i)
  d ← get_elem? choose i
  elim (ltb (width + suc i) (c + fpcount)) [
    | true ↦ carry width fpcount i (set (set choose (suc i) 0) i (d + 1))
    | false ↦ some (suc i, choose)
  ]

-- The loop that numbers the later elements of `choose` on from `i`; `false` is `cont` = 0.
unfoldable pub refill : ℕ → ℕ → ℕ → List ℕ → Option (Bool × List ℕ)
refill width zero i choose = some (true, choose)
refill width (suc left) i choose = do
  c ← get_elem? choose i
  let after = set choose (suc i) (c + 1)
  elim (leb width (c + 1)) [ true ↦ some (false, after) | false ↦ refill width left (suc i) after ]

-- From one choice of `fpcount` neighbours to the next.
unfoldable pub next_choice : ℕ → ℕ → List ℕ → Option (Bool × List ℕ)
unfolding carry refill
next_choice width fpcount choose = do
  let last = fpcount - 1
  counted ← get_elem? choose last
  r ← carry width fpcount last (set choose last (counted + 1))
  refill width (last - r.0) r.0 r.1

-- `newset`
unfoldable pub chosen : List ℕ → ℕ → ℕ → List ℕ → Option (List ℕ)
chosen neighbors next fpcount choose =
    for fpcount 0 (λ i s. do c ← get_elem? choose i; x ← get_elem? neighbors c; some (insert x s))
      (next ∷ [])

-- `enumer`, the number of choices; an `int` that overflows is undefined.
unfoldable pub enumerate : ℕ → ℕ → Option ℕ
enumerate width fpcount = do
  product ←
      for fpcount 0 (λ k e. let v = e * (width - k) in if ltb v (2 ^ 31) then some v else none) 1
  for fpcount 0 (λ i e. some (e / (i + 1))) product
