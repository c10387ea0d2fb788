-- ===== src/Overlap/Apart.antt =====
-- The splitting ends with no prefix inside another.
use mathlib.Core.Option.{some-injective}
use mathlib.Core.Bool.{false≢true}
use buffalo.Common.{
  ◌-◌, ◌/◌, ◌^◌, ◌≤◌, ◌==◌, leb, ◌&&◌, true, false, Bool-cases, ◌≡◌, refl, sym, ap, ◌∙◌, List, [],
  ◌∷◌, some, arith, Elem, inl, inr, ◌>>=◌,
}
use buffalo.Fib.Blocks.{block, Covers-block}
use buffalo.Overlap.{contains_other}
use buffalo.Prefix.Contains.{IsValid, lead, contains-lead}
use buffalo.Prefix.Equal.{prefix_order, eq_iff}
use buffalo.Prefix.Subset.{Covers, lead_shorter}
use buffalo.Prefix.{Prefix, ne, eq}

-- `q` is inside `p`.
pub record Inside (p q : Prefix) : Type 0 where
  pub shorter : p.len ≤ q.len
  pub covers : Covers p q.addr

-- `p` has no other prefix of the list inside.
abbrev pub Lonely : Prefix → List Prefix → Type 0
Lonely p qs = (q : Prefix) → Elem q qs → Inside p q → q ≡ p

abbrev pub AllValid : List Prefix → Type 0
AllValid ps = (p : Prefix) → Elem p ps → IsValid p

-- Two prefixes of one length that cover an address are one.
pub Inside-same :
    (p q r : Prefix) → IsValid p → IsValid r → p.len ≡ r.len → Inside p q → Inside r q → p ≡ r
Inside-same p q r vp vr e a b =
    Covers-block p q.addr vp a.covers
    ∙ ap (block q.addr) e
    ∙ sym (Covers-block r q.addr vr b.covers)

-- Of two prefixes with one inside both, the shorter has the longer inside.
pub Inside-up : (p q r : Prefix) → r.len ≤ 32 → p.len ≤ r.len → Inside p q → Inside r q → Inside p r
Inside-up p q r short le a b = record {
  shorter = le;
  covers =
      lead_shorter p r r.addr le short
      ∙ ap (λ x. x / 2 ^ (r.len - p.len)) (sym b.covers)
      ∙ sym (lead_shorter p r q.addr le short)
      ∙ a.covers;
}

ne-equal : (p q : Prefix) → ne p q ≡ false → eq p q ≡ true
unfolding ne eq
ne-equal p q h = ground arith

ne-apart : (p q : Prefix) → ne p q ≡ false → q ≡ p
ne-apart p q h = sym ((eq_iff p q).0 (ne-equal p q h))

pub contains_other-Lonely :
    (p : Prefix) (qs : List Prefix)
    → IsValid p
    → AllValid qs
    → contains_other p qs ≡ some false
    → Lonely p qs
unfolding contains_other
contains_other-Lonely p [] v valid e q m inside = absurd m
contains_other-Lonely p (r ∷ qs) v valid e q m inside =
    let answer = contains-lead p r v (valid r (inl refl)) in
    elim (Bool-cases (ne p r)) [
      | inl apart ↦ elim (Bool-cases (leb p.len r.len && lead p p.addr == lead p r.addr)) [
        | inl within ↦
            absurd (false≢true (sym (some-injective _ _ (rw (apart, answer, ◌>>=◌, within) at e))))
        | inr without ↦
            let rest = rw (apart, answer, ◌>>=◌, without) at e in
            elim m [
              | inl same ↦
                  let shorter : p.len ≤ r.len = rw (← same) inside.shorter in
                  let covers : lead p r.addr ≡ lead p p.addr = rw (← same) inside.covers in
                  absurd (ground (arith, without, shorter, covers))
              | inr m' ↦ contains_other-Lonely p qs v (λ s n. valid s (inr n)) rest q m' inside
            ]
      ]
      | inr same ↦
          let rest = rw same at e in
          elim m [
            | inl here ↦ here ∙ ne-apart p r same
            | inr m' ↦ contains_other-Lonely p qs v (λ s n. valid s (inr n)) rest q m' inside
          ]
    ]
