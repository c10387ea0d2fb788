-- ===== src/Overlap/Done.antt =====
-- After all rounds no prefix is inside another, and the check at the end prints nothing.
use mathlib.Core.Option.{some-injective}
use buffalo.Common.{
  ℕ, suc, ◌<◌, ◌==◌, ltb, leb, ◌&&◌, false, Bool-cases, ◌≡◌, refl, sym, ap, ◌∙◌, List, [], ◌∷◌,
  some, arith, Elem, inl, inr, for-Returns, Returns, ◌>>=◌,
}
use native.Mathlib.Decide.{ℕ_discrete}
use buffalo.Fib.Globals.{FunetRow}
use buffalo.Overlap.Apart.{Inside, Lonely, AllValid, Inside-up, Inside-same}
use buffalo.Overlap.Cover.{Covering}
use buffalo.Overlap.Rounds.{split_all-Covering}
use buffalo.Overlap.Split.{Going, round-Going}
use buffalo.Overlap.{
  Splitting, read_rows, split_length, split_all, errors_of, check_overlap, written, overlap_funet,
}
use buffalo.Prefix.Contains.{lead, contains-lead}
use buffalo.Prefix.Subset.{Covers}
use buffalo.Prefix.{Prefix, ne, contains}

-- The prefixes shorter than `j` have no other inside.
abbrev Below : ℕ → List Prefix → Type 0
Below j ps = (p : Prefix) → Elem p ps → p.len < j → Lonely p ps

Going-Below :
    (j : ℕ) (start : List Prefix) (u : Splitting)
    → AllValid start
    → Below j start
    → Going j start [] u
    → Below (suc j) u.newlist
Going-Below j start u sound below going p m short q n inside = elim (going.from p m) [
  | inr (r, r_in, r_len, longer, within) ↦ absurd (omega (arith, longer, short))
  | inl old ↦ elim (ℕ_discrete p.len j) [
    | yes e ↦ elim (going.settled p old e) [
      | inl todo ↦ absurd todo
      | inr alone ↦ alone m q n inside
    ]
    | no apart ↦ elim (going.from q n) [
      | inl before ↦ below p old (omega arith) q before inside
      | inr (r, r_in, r_len, longer, within) ↦
          let inner =
            Inside-up p q r (sound r r_in).short (omega (arith, r_len, short)) inside within in
          let same = below p old (omega arith) r r_in inner in
          absurd (omega (arith, apart (ap (λ s. s.len) (sym same) ∙ r_len)))
    ]
  ]
]

split_length-Below :
    (j : ℕ) (s : Splitting)
    → j < 32
    → AllValid s.alllist × Below j s.alllist
    → Returns (λ u. AllValid u.alllist × Below (suc j) u.alllist) (split_length j s)
unfolding split_length
split_length-Below j s h (sound, below) =
    let start : Splitting = record s { newlist = s.alllist } in
    let fresh : Going j s.alllist s.alllist start = record {
      valid = sound;
      from = λ q m. inl m;
      settled = λ p m e. inl m;
    } in
    let (u, run, going) = round-Going j s.alllist s.alllist start h sound (λ p m. m) fresh in
    (
      record u { alllist = u.newlist },
      rw (run, ◌>>=◌) refl,
      (going.valid, Going-Below j s.alllist u sound below going),
    )

pub split_all-Below :
    (s : Splitting)
    → AllValid s.alllist
    → Returns (λ u. AllValid u.alllist × Below 32 u.alllist) (split_all s)
unfolding split_all
split_all-Below s sound =
    for-Returns (λ k t. AllValid t.alllist × Below k t.alllist) 32 split_length 31 1 s (omega arith)
      (λ k t low high. split_length-Below k t high)
      (sound, λ p m short. absurd (omega (arith, (sound p m).positive)))

-- A shorter prefix of the list is not around `p`.
not_around :
    (p q : Prefix) (ps : List Prefix)
    → AllValid ps
    → Below 32 ps
    → Elem p ps
    → Elem q ps
    → q.len < p.len
    → contains q p ≡ some false
not_around p q ps sound below m n shorter =
    let answer = contains-lead q p (sound q n) (sound p m) in
    elim (Bool-cases (leb q.len p.len && lead q q.addr == lead q p.addr)) [
      | inr outside ↦ answer ∙ ap some outside
      | inl within ↦
          let covers : Covers q p.addr = ground (arith, within) in
          let short = (sound p m).short in
          let same =
            below q n (omega arith) p m (record { shorter = omega arith; covers = covers }) in
          absurd (omega (arith, shorter, ap (λ s. s.len) same))
    ]

errors_of-none :
    (p : Prefix) (qs ps : List Prefix)
    → AllValid ps
    → Below 32 ps
    → Elem p ps
    → ((q : Prefix) → Elem q qs → Elem q ps)
    → errors_of p qs ≡ some []
unfolding errors_of
errors_of-none p [] ps sound below m part = refl
errors_of-none p (q ∷ qs) ps sound below m part =
    let rest = errors_of-none p qs ps sound below m (λ r n. part r (inr n)) in
    elim (Bool-cases (ne q p && ltb q.len p.len)) [
      | inr passed ↦ rw passed rest
      | inl tested ↦
          let shorter : q.len < p.len = ground (arith, tested) in
          let outside = not_around p q ps sound below m (part q (inl refl)) shorter in
          rw (tested, outside, ◌>>=◌) rest
    ]

pub check_overlap-none :
    (qs ps : List Prefix)
    → AllValid ps
    → Below 32 ps
    → ((q : Prefix) → Elem q qs → Elem q ps)
    → check_overlap qs ps ≡ some []
unfolding check_overlap
check_overlap-none [] ps sound below part = refl
check_overlap-none (q ∷ qs) ps sound below part =
    let first = errors_of-none q ps ps sound below (part q (inl refl)) (λ r m. m) in
    let rest = check_overlap-none qs ps sound below (λ r m. part r (inr m)) in
    rw (first, ◌>>=◌, rest) refl

-- Of length 32 too, a prefix has no other inside.
pub Below-Lonely :
    (ps : List Prefix) → AllValid ps → Below 32 ps → (p : Prefix) → Elem p ps → Lonely p ps
Below-Lonely ps sound below p m q n inside = elim (ℕ_discrete p.len 32) [
  | no apart ↦ below p m (omega (arith, (sound p m).short, apart)) q n inside
  | yes e ↦
      let full : p.len ≡ q.len = omega (arith, inside.shorter, (sound q n).short, e) in
      let itself : Inside q q = record { shorter = omega arith; covers = refl } in
      sym (Inside-same p q q (sound p m) (sound q n) full inside itself)
]

-- From a file of valid prefixes, of lengths 1 to 32: the program ends, and its check prints no
-- error. It writes the prefixes of a list that covers each address that the file covers, and in
-- which none is inside another.
pub overlap_funet-Lonely :
    (rows : List FunetRow)
    → AllValid (read_rows rows (record { alllist = []; newlist = []; pmap = [] })).alllist
    → Returns
        (λ (errors, lines).
          (errors ≡ [])
          × (s : Splitting) × (lines ≡ written s s.alllist)
          × Covering
              (read_rows rows (record { alllist = []; newlist = []; pmap = [] })).alllist
              s.alllist
          × ((p : Prefix) → Elem p s.alllist → Lonely p s.alllist))
        (overlap_funet rows)
unfolding overlap_funet
overlap_funet-Lonely rows sound =
    let s : Splitting = read_rows rows (record { alllist = []; newlist = []; pmap = [] }) in
    let (u, run, (valid, below)) = split_all-Below s sound in
    let (w, run', kept) = split_all-Covering s sound in
    let same : w ≡ u = some-injective _ _ (sym run' ∙ run) in
    let covering : Covering s.alllist u.alllist = rw (← same) kept in
    let checked = check_overlap-none u.alllist u.alllist valid below (λ q m. m) in
    (
      ([], written u u.alllist),
      rw (run, ◌>>=◌, checked) refl,
      (refl, u, refl, covering, Below-Lonely u.alllist valid below),
    )
