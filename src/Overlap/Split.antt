-- ===== src/Overlap/Split.antt =====
-- What the round of a length does to the prefixes: where they come from, and which are settled.
use mathlib.Core.Option.{some-injective}
use buffalo.Common.OrdSet.{erase, Elem-erase_inv, Elem-erase_self}
use buffalo.Common.{
  ℕ, suc, ◌<◌, ◌==◌, ==_iff, false, Bool-cases, if◌then◌else◌, ◌≡◌, refl, sym, ap, subst, ◌∙◌, List,
  [], ◌∷◌, some, arith, Elem, inl, inr, ◌⊎◌, each, Returns, Returns-bind, ◌>>=◌,
}
use buffalo.Overlap.Apart.{Inside, Lonely, AllValid, Inside-same, contains_other-Lonely}
use buffalo.Overlap.Cover.{
  Halves, valid-Halves, contains_other-some, add_half-Elem_inv, split-Covering,
}
use buffalo.Overlap.{Splitting, contains_other, lower_half, upper_half, add_half, split}
use buffalo.Prefix.Contains.{IsValid}
use buffalo.Prefix.Equal.{prefix_order}
use buffalo.Prefix.{Prefix}

-- What `split` does for `p`: new prefixes are halves of it, and if it stays, nothing is inside it.
record Step (p : Prefix) (s u : Splitting) : Type 0 where
  from : (q : Prefix) → Elem q u.newlist → Elem q s.newlist ⊎ ((q.len ≡ suc p.len) × Inside p q)
  lonely : Elem p u.newlist → Lonely p u.newlist

divided-Step :
    (p : Prefix) (s : Splitting)
    → Halves p
    → Step p s (
        add_half p
          (upper_half p)
          (add_half p (lower_half p) (record s { newlist = erase p s.newlist })))
divided-Step p s halves =
    let without : Splitting = record s { newlist = erase p s.newlist } in
    let one = add_half p (lower_half p) without in
    let low : Inside p (lower_half p) = record {
      shorter = omega (arith, halves.lower_len);
      covers = halves.lower_inside;
    } in
    let high : Inside p (upper_half p) = record {
      shorter = omega (arith, halves.upper_len);
      covers = halves.upper_inside;
    } in
    record {
      from = λ q m. elim (add_half-Elem_inv p (upper_half p) q one m) [
        | inl e ↦ inr (rw e (halves.upper_len, high))
        | inr m' ↦ elim (add_half-Elem_inv p (lower_half p) q without m') [
          | inl e ↦ inr (rw e (halves.lower_len, low))
          | inr old ↦ inl (Elem-erase_inv q p s.newlist old)
        ]
      ];
      lonely = λ m. elim (add_half-Elem_inv p (upper_half p) p one m) [
        | inl e ↦ absurd (omega (arith, ap (λ q. q.len) e, halves.upper_len))
        | inr m' ↦ elim (add_half-Elem_inv p (lower_half p) p without m') [
          | inl e ↦ absurd (omega (arith, ap (λ q. q.len) e, halves.lower_len))
          | inr old ↦ absurd (Elem-erase_self p s.newlist old)
        ]
      ];
    }

split-runs :
    (p : Prefix) (s : Splitting)
    → IsValid p
    → p.len < 32
    → AllValid s.newlist
    → Returns (Step p s) (split p s)
unfolding split
split-runs p s v h valid =
    let (b, run) = contains_other-some p s.newlist v valid in
    elim (Bool-cases b) [
      | inl divided ↦ (_, rw (run, ◌>>=◌, divided) refl, divided-Step p s (valid-Halves p v h))
      | inr whole ↦
          let alone : contains_other p s.newlist ≡ some false = run ∙ ap some whole in
          (
            s,
            rw (run, ◌>>=◌, whole) refl,
            record {
              from = λ q m. inl m;
              lonely = λ m. contains_other-Lonely p s.newlist v valid alone;
            },
          )
    ]

split-Step :
    (p : Prefix) (s : Splitting)
    → IsValid p
    → p.len < 32
    → AllValid s.newlist
    → Returns (λ u. AllValid u.newlist × Step p s u) (split p s)
split-Step p s v h valid =
    let (u, run, covering) = split-Covering p s v h valid in
    let (w, run', step) = split-runs p s v h valid in
    let same : w ≡ u = some-injective _ _ (sym run' ∙ run) in
    (u, run, (covering.valid, subst (Step p s) same step))

-- In the round of `j`: each prefix is an old one or a half of an old one of length `j`, and those of
-- length `j` that are not to come are gone, or have nothing inside.
pub record Going (j : ℕ) (start todo : List Prefix) (t : Splitting) : Type 0 where
  pub valid : AllValid t.newlist
  pub from :
      (q : Prefix)
      → Elem q t.newlist
      → Elem q start ⊎ ((r : Prefix) × Elem r start × (r.len ≡ j) × (q.len ≡ suc j) × Inside r q)
  pub settled :
      (p : Prefix)
      → Elem p start
      → p.len ≡ j
      → Elem p todo ⊎ (Elem p t.newlist → Lonely p t.newlist)

-- A settled prefix stays so when another is split.
still-Lonely :
    (p r : Prefix) (s u : Splitting)
    → IsValid p
    → IsValid r
    → r.len ≡ p.len
    → Step p s u
    → (Elem r s.newlist → Lonely r s.newlist)
    → Elem r u.newlist
    → Lonely r u.newlist
still-Lonely p r s u vp vr e step alone m q n inside = elim (step.from r m) [
  | inr (longer, within) ↦ absurd (omega (arith, e, longer))
  | inl old ↦ elim (step.from q n) [
    | inl before ↦ alone old q before inside
    | inr (longer, within) ↦
        let same : p ≡ r = Inside-same p q r vp vr (sym e) within inside in
        let here : Elem p u.newlist = rw same m in
        let one = step.lonely here q n (rw same inside) in one ∙ same
  ]
]

Going-split :
    (j : ℕ) (start rest : List Prefix) (p : Prefix) (t u : Splitting)
    → AllValid start
    → Elem p start
    → p.len ≡ j
    → AllValid u.newlist
    → Step p t u
    → Going j start (p ∷ rest) t
    → Going j start rest u
Going-split j start rest p t u sound m e valid step going = record {
  valid = valid;
  from = λ q n. elim (step.from q n) [
    | inl old ↦ going.from q old
    | inr (longer, within) ↦ inr (p, m, e, longer ∙ ap suc e, within)
  ];
  settled = λ r n e'. elim (going.settled r n e') [
    | inl todo ↦ elim todo [ inl same ↦ inr (rw same step.lonely) | inr later ↦ inl later ]
    | inr alone ↦ inr (still-Lonely p r t u (sound p m) (sound r n) (e' ∙ sym e) step alone)
  ];
}

Going-skip :
    (j : ℕ) (start rest : List Prefix) (p : Prefix) (t : Splitting)
    → (p.len == j) ≡ false
    → Going j start (p ∷ rest) t
    → Going j start rest t
Going-skip j start rest p t other going = record {
  valid = going.valid;
  from = going.from;
  settled = λ r n e. elim (going.settled r n e) [
    | inl todo ↦ elim todo [
      | inl same ↦
          let len : p.len ≡ j = ap (λ q. q.len) (sym same) ∙ e in
          absurd (ground (arith, other, len))
      | inr later ↦ inl later
    ]
    | inr alone ↦ inr alone
  ];
}

pub round-Going :
    (j : ℕ) (start todo : List Prefix) (t : Splitting)
    → j < 32
    → AllValid start
    → ((p : Prefix) → Elem p todo → Elem p start)
    → Going j start todo t
    → Returns
        (Going j start [])
        (each todo (λ p t. let parted = split p t in if p.len == j then parted else some t) t)
unfolding each
round-Going j start [] t h sound part going = (t, refl, going)
round-Going j start (p ∷ todo) t h sound part going =
    let m = part p (inl refl) in
    let step : Returns (Going j start todo) (if p.len == j then split p t else some t) =
      elim (Bool-cases (p.len == j)) [
        | inl e ↦
            let len : p.len ≡ j = (==_iff _ _).0 e in
            let (u, run, (valid, one)) =
              split-Step p t (sound p m) (omega (arith, len, h)) going.valid in
            (u, rw e run, Going-split j start todo p t u sound m len valid one going)
        | inr n ↦ (t, rw n refl, Going-skip j start todo p t n going)
      ] in
    Returns-bind step (λ u. round-Going j start todo u h sound (λ q n. part q (inr n)))
