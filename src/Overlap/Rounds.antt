-- ===== src/Overlap/Rounds.antt =====
-- All rounds of the splitting: it ends, and loses no address.
use buffalo.Common.{
  ℕ, ◌<◌, ◌==◌, Bool-cases, if◌then◌else◌, refl, List, [], ◌∷◌, some, arith, Elem, inl, inr, each,
  for-Returns, Returns, Returns-bind, ◌>>=◌,
}
use buffalo.Overlap.Cover.{Covering, split-Covering}
use buffalo.Overlap.{Splitting, split, split_length, split_all}
use buffalo.Prefix.Contains.{IsValid}
use buffalo.Prefix.{Prefix}

Covering-trans : (a b c : List Prefix) → Covering a b → Covering b c → Covering a c
Covering-trans a b c f g = record { valid = g.valid; kept = λ x h. g.kept x (f.kept x h) }

-- The prefixes that are left in a round.
round-Covering :
    (j : ℕ) (start ps : List Prefix) (t : Splitting)
    → j < 32
    → ((p : Prefix) → Elem p ps → IsValid p)
    → Covering start t.newlist
    → Returns
        (λ u. Covering start u.newlist)
        (each ps (λ p t. let parted = split p t in if p.len == j then parted else some t) t)
unfolding each
round-Covering j start [] t h valid covering = (t, refl, covering)
round-Covering j start (p ∷ ps) t h valid covering =
    let step : Returns (λ u. Covering start u.newlist) (if p.len == j then split p t else some t) =
      elim (Bool-cases (p.len == j)) [
        | inl e ↦
            let short : p.len < 32 = ground (arith, e, h) in
            let (u, run, more) = split-Covering p t (valid p (inl refl)) short covering.valid in
            (u, rw e run, Covering-trans start t.newlist u.newlist covering more)
        | inr n ↦ (t, rw n refl, covering)
      ] in
    Returns-bind step (λ u. round-Covering j start ps u h (λ q m. valid q (inr m)))

split_length-Covering :
    (j : ℕ) (start : List Prefix) (s : Splitting)
    → j < 32
    → Covering start s.alllist
    → Returns (λ u. Covering start u.alllist) (split_length j s)
unfolding split_length
split_length-Covering j start s h covering =
    let (u, run, more) =
      round-Covering j start s.alllist (record s { newlist = s.alllist }) h covering.valid
        covering in
    (record u { alllist = u.newlist }, rw (run, ◌>>=◌) refl, more)

-- From valid prefixes, of lengths 1 to 32, the splitting ends. The prefixes are valid then, and an
-- address that one of them covered before is covered still.
pub split_all-Covering :
    (s : Splitting)
    → ((p : Prefix) → Elem p s.alllist → IsValid p)
    → Returns (λ u. Covering s.alllist u.alllist) (split_all s)
unfolding split_all
split_all-Covering s valid =
    for-Returns (λ k t. Covering s.alllist t.alllist) 32 split_length 31 1 s (omega arith)
      (λ k t low high. split_length-Covering k s.alllist t high)
      (record { valid = valid; kept = λ x covered. covered })
