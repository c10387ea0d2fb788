-- ===== src/Lsfib/Successor.antt =====
-- lsfib.cc: from one choice of false positives to the next in order, and the end of the choices.
use mathlib.Core.Option.{some-injective}
use native.Mathlib.Decide.{ℕ_discrete, dec_lt}
use buffalo.Fib.Build.Filled.{get_elem?-some}
use buffalo.Common.{
  ap, ℕ, zero, suc, ◌+◌, ◌-◌, ◌≤◌, ◌<◌, ltb, leb, true, false, Bool-cases, ◌≡◌, refl, sym, ◌∙◌,
  List, none, some, arith, inl, inr, ◌⊎◌, get_elem?, set, get_elem?-set_self, get_elem?-set_ne,
  length, length-set, ◌>>=◌,
}
use buffalo.Lsfib.{carry, refill, next_choice}

-- The elements below `k` are in their ranges: `choose[j]` is at most `width - fpcount + j`.
abbrev pub Within : ℕ → ℕ → ℕ → List ℕ → Type 0
Within width fpcount k choose =
    (j c : ℕ) → j < k → get_elem? choose j ≡ some c → c + fpcount ≤ width + j

-- The elements from `low` on and below `k` are the last of their ranges.
abbrev pub Exhausted : ℕ → ℕ → ℕ → ℕ → List ℕ → Type 0
Exhausted width fpcount low k choose =
    (j c : ℕ) → low ≤ j → j < k → get_elem? choose j ≡ some c → c + fpcount ≡ width + j

-- Element `p` is counted up within its range, those before it are kept, and those after it and up
-- to `i` were the last of their ranges.
record Carried (width fpcount i : ℕ) (choose : List ℕ) (r : ℕ × List ℕ) : Type 0 where
  low : r.0 ≤ i
  long : length r.1 ≡ length choose
  last : Exhausted width fpcount (suc r.0) (suc i) choose
  old : ℕ
  was : get_elem? choose r.0 ≡ some old
  fits : old + fpcount < width + r.0
  now : get_elem? r.1 r.0 ≡ some (old + 1)
  kept : (j : ℕ) → j < r.0 → get_elem? r.1 j ≡ get_elem? choose j

-- The list in which the carrying loop has set element `suc i` back to 0.
abbrev reset : ℕ → ℕ → List ℕ → List ℕ
reset i v choose = set (set choose (suc i) (v + 1)) (suc i) 0

reset-below :
    (i v j : ℕ) (choose : List ℕ) → j < suc i → get_elem? (reset i v choose) j ≡ get_elem? choose j
reset-below i v j choose h =
    get_elem?-set_ne (set choose (suc i) (v + 1)) 0 (λ e. absurd (omega (arith, e)))
    ∙ get_elem?-set_ne choose (v + 1) (λ e. absurd (omega (arith, e)))

-- The loop stops at once.
stopped :
    (width fpcount i v : ℕ) (choose : List ℕ)
    → i < length choose
    → get_elem? choose i ≡ some v
    → v + 1 + fpcount ≤ width + i
    → Carried width fpcount i choose (i, set choose i (v + 1))
stopped width fpcount i v choose room get fits = record {
  low = omega arith;
  long = length-set choose i (v + 1);
  last = λ j c low high e. absurd (omega (arith, low, high));
  old = v;
  was = get;
  fits = omega (arith, fits);
  now = get_elem?-set_self choose i (v + 1) room;
  kept = λ j h. get_elem?-set_ne choose (v + 1) (λ e. absurd (omega (arith, h, e)));
}

-- What the loop does from element `i` on holds for element `suc i` that it carries from.
reset_before :
    (width fpcount i v : ℕ) (choose : List ℕ) (r : ℕ × List ℕ)
    → get_elem? choose (suc i) ≡ some v
    → v + fpcount ≡ width + suc i
    → Carried width fpcount i (reset i v choose) r
    → Carried width fpcount (suc i) choose r
reset_before width fpcount i v choose r get full c = record {
  low = omega (arith, c.low);
  long =
      c.long
      ∙ length-set (set choose (suc i) (v + 1)) (suc i) 0
      ∙ length-set choose (suc i) (v + 1);
  last = λ j x low high e. elim (ℕ_discrete j (suc i)) [
    | yes at_top ↦
        let same = some-injective _ _ (sym get ∙ ap (get_elem? choose) (sym at_top) ∙ e) in
        rw (← same, at_top) full
    | no below ↦
        c.last j x low (omega (arith, high, below))
          (reset-below i v j choose (omega (arith, high, below)) ∙ e)
  ];
  old = c.old;
  was = sym (reset-below i v r.0 choose (omega (arith, c.low))) ∙ c.was;
  fits = c.fits;
  now = c.now;
  kept = λ j h. c.kept j h ∙ reset-below i v j choose (omega (arith, h, c.low));
}

all_last :
    (width fpcount i v : ℕ) (choose : List ℕ)
    → get_elem? choose (suc i) ≡ some v
    → v + fpcount ≡ width + suc i
    → Exhausted width fpcount 0 (suc i) (reset i v choose)
    → Exhausted width fpcount 0 (suc (suc i)) choose
all_last width fpcount i v choose get full last j x low high e = elim (ℕ_discrete j (suc i)) [
  | yes at_top ↦
      let same = some-injective _ _ (sym get ∙ ap (get_elem? choose) (sym at_top) ∙ e) in
      rw (← same, at_top) full
  | no below ↦
      last j x low (omega (arith, high, below))
        (reset-below i v j choose (omega (arith, high, below)) ∙ e)
]

carry-Carried :
    (width fpcount i v : ℕ) (choose : List ℕ)
    → i < length choose
    → get_elem? choose i ≡ some v
    → Within width fpcount (suc i) choose
    → ((carry width fpcount i (set choose i (v + 1)) ≡ none)
        × Exhausted width fpcount 0 (suc i) choose)
      ⊎ ((r : ℕ × List ℕ) × (carry width fpcount i (set choose i (v + 1)) ≡ some r)
          × Carried width fpcount i choose r)
unfolding carry
carry-Carried width fpcount zero v choose room get within =
    let here = get_elem?-set_self choose 0 (v + 1) room in
    let fits = within 0 v (omega arith) get in
    elim (Bool-cases (ltb width (v + 1 + fpcount))) [
      | inl out ↦ inl (
        rw (here, ◌>>=◌, out) refl,
        λ j c low high e.
            let first : j ≡ 0 = omega (arith, high) in
            let same = some-injective _ _ (sym get ∙ ap (get_elem? choose) (sym first) ∙ e) in
            rw (← same, first) (ground (arith, out, fits)),
      )
      | inr stops ↦ inr (
        (0, set choose 0 (v + 1)),
        rw (here, ◌>>=◌, stops) refl,
        stopped width fpcount 0 v choose room get (ground (arith, stops)),
      )
    ]
carry-Carried width fpcount (suc i) v choose room get within =
    let here = get_elem?-set_self choose (suc i) (v + 1) room in
    let fits = within (suc i) v (omega arith) get in
    let (d, before) = get_elem?-some choose i (omega (arith, room)) in
    let there : get_elem? (set choose (suc i) (v + 1)) i ≡ some d =
      get_elem?-set_ne choose (v + 1) (λ e. absurd (omega (arith, e))) ∙ before in
    elim (Bool-cases (ltb (width + suc i) (v + 1 + fpcount))) [
      | inl out ↦
          let full : v + fpcount ≡ width + suc i = ground (arith, out, fits) in
          elim (carry-Carried width fpcount i d (reset i v choose)
            (rw
              (length-set (set choose (suc i) (v + 1)) (suc i) 0, length-set choose (suc i) (v + 1))
              (omega (arith, room)))
            (reset-below i v i choose (omega arith) ∙ before)
            (λ j c h e. within j c (omega (arith, h)) (sym (reset-below i v j choose h) ∙ e))) [
              | inl (ends, last) ↦ inl (
                rw (here, ◌>>=◌, there, out) ends,
                all_last width fpcount i v choose get full last,
              )
              | inr (r, run, c) ↦ inr (
                r,
                rw (here, ◌>>=◌, there, out) run,
                reset_before width fpcount i v choose r get full c,
              )
            ]
      | inr stops ↦ inr (
        (suc i, set choose (suc i) (v + 1)),
        rw (here, ◌>>=◌, there, stops) refl,
        stopped width fpcount (suc i) v choose room get (ground (arith, stops)),
      )
    ]

-- Element `i` and those before it are kept, and those after it are numbered on from it.
record Refilled (left i c : ℕ) (choose zs : List ℕ) : Type 0 where
  long : length zs ≡ length choose
  kept : (j : ℕ) → j ≤ i → get_elem? zs j ≡ get_elem? choose j
  numbered : (k : ℕ) → k ≤ left → get_elem? zs (i + k) ≡ some (c + k)

refill-Refilled :
    (width fpcount left i c : ℕ) (choose : List ℕ)
    → get_elem? choose i ≡ some c
    → i + left + 1 ≤ fpcount
    → i + left < length choose
    → c + fpcount ≤ width + i
    → (zs : List ℕ) × (refill width left i choose ≡ some (true, zs)) × Refilled left i c choose zs
unfolding refill
refill-Refilled width fpcount zero i c choose get le room fits = (
  choose,
  refl,
  record {
    long = refl;
    kept = λ j h. refl;
    numbered = λ k h.
        let none_left : k ≡ 0 = omega (arith, h) in
        let start : i + k ≡ i = omega (arith, none_left) in
        let first : c + k ≡ c = omega (arith, none_left) in rw (start, first) get;
  },
)
refill-Refilled width fpcount (suc left) i c choose get le room fits =
    let after = set choose (suc i) (c + 1) in
    let below : leb width (c + 1) ≡ false = ground (arith, le, fits) in
    let len = length-set choose (suc i) (c + 1) in
    let (zs, run, f) =
      refill-Refilled width fpcount left (suc i) (c + 1) after
        (get_elem?-set_self choose (suc i) (c + 1) (omega (arith, room))) (omega (arith, le))
        (rw len (omega (arith, room))) (omega (arith, fits)) in
    let same : (j : ℕ) → j ≤ i → get_elem? zs j ≡ get_elem? choose j = λ j h.
      f.kept j (omega (arith, h))
      ∙ get_elem?-set_ne choose (c + 1) (λ e. absurd (omega (arith, h, e))) in
    (
      zs,
      rw (get, ◌>>=◌, below) run,
      record { long = f.long ∙ len; kept = same; numbered = λ k h. later zs f same k h },
    )
  where
    later :
        (zs : List ℕ)
        → Refilled left (suc i) (c + 1) (set choose (suc i) (c + 1)) zs
        → ((j : ℕ) → j ≤ i → get_elem? zs j ≡ get_elem? choose j)
        → (k : ℕ) → k ≤ suc left
        → get_elem? zs (i + k) ≡ some (c + k)
    later zs f same zero h =
        let start : i + 0 ≡ i = omega arith in
        let first : c + 0 ≡ c = omega arith in rw (start, first) (same i (omega arith) ∙ get)
    later zs f same (suc k) h =
        let place : i + suc k ≡ suc i + k = omega arith in
        let number : c + suc k ≡ c + 1 + k = omega arith in
        rw (place, number) (f.numbered k (omega (arith, h)))

-- The choice `zs` follows `choose`: some element is counted up within its range, those before it
-- are the same, those after it were the last of their ranges and now number on from it.
pub record Follows (width fpcount : ℕ) (choose zs : List ℕ) : Type 0 where
  pub place : ℕ
  pub old : ℕ
  pub inside : place < fpcount
  pub was : get_elem? choose place ≡ some old
  pub fits : old + fpcount < width + place
  pub last : Exhausted width fpcount (suc place) fpcount choose
  pub kept : (j : ℕ) → j < place → get_elem? zs j ≡ get_elem? choose j
  pub numbered : (k : ℕ) → place + k < fpcount → get_elem? zs (place + k) ≡ some (old + 1 + k)

Follows-Within :
    (width fpcount : ℕ) (choose zs : List ℕ)
    → Within width fpcount fpcount choose
    → Follows width fpcount choose zs
    → Within width fpcount fpcount zs
Follows-Within width fpcount choose zs within f j c h e = elim (dec_lt j f.place) [
  | yes before ↦ within j c h (sym (f.kept j before) ∙ e)
  | no after ↦
      let offset : f.place + (j - f.place) ≡ j = omega (arith, after) in
      let there = f.numbered (j - f.place) (omega (arith, offset, h)) in
      let same = some-injective _ _ (sym there ∙ ap (get_elem? zs) offset ∙ e) in
      omega (arith, same, f.fits, offset)
]

-- For a choice of one or more neighbours whose elements are in their ranges (element j is at most
-- the number of neighbours less that of the chosen, plus j): either all the elements are the last
-- of their ranges, and the step to the next choice leaves the array at `choose[-1]`; or it sets
-- `cont` to 1 and makes the choice that follows in order, of the same number of neighbours and with
-- its elements in their ranges again.
pub next_choice-Follows :
    (width fpcount : ℕ) (choose : List ℕ)
    → length choose ≡ fpcount
    → 0 < fpcount
    → Within width fpcount fpcount choose
    → ((next_choice width fpcount choose ≡ none) × Exhausted width fpcount 0 fpcount choose)
      ⊎ ((zs : List ℕ) × (next_choice width fpcount choose ≡ some (true, zs))
          × (length zs ≡ fpcount)
          × Within width fpcount fpcount zs
          × Follows width fpcount choose zs)
unfolding next_choice
next_choice-Follows width fpcount choose len pos within =
    let last = fpcount - 1 in
    let whole : suc last ≡ fpcount = omega (arith, pos) in
    let (v, get) = get_elem?-some choose last (omega (arith, pos, len)) in
    elim (carry-Carried width fpcount last v choose (omega (arith, pos, len)) get
      (λ j c h. within j c (omega (arith, h, whole)))) [
        | inl (ends, all) ↦
            inl
              (rw (get, ◌>>=◌, ends) refl, λ j c low high. all j c low (omega (arith, high, whole)))
        | inr (r, run, c) ↦
            let (zs, run', f) =
              refill-Refilled width fpcount (last - r.0) r.0 (c.old + 1) r.1 c.now
                (omega (arith, c.low, pos)) (omega (arith, c.low, pos, c.long, len))
                (omega (arith, c.fits)) in
            let next : Follows width fpcount choose zs = record {
              place = r.0;
              old = c.old;
              inside = omega (arith, c.low, pos);
              was = c.was;
              fits = c.fits;
              last = λ j x low high. c.last j x low (omega (arith, high, whole));
              kept = λ j h. f.kept j (omega (arith, h)) ∙ c.kept j h;
              numbered = λ k h. f.numbered k (omega (arith, h));
            } in
            inr (
              zs,
              rw (get, ◌>>=◌, run) run',
              f.long ∙ c.long ∙ len,
              Follows-Within width fpcount choose zs within next,
              next,
            )
      ]
