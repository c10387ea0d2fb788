-- ===== src/Overlap/Sound.antt =====
-- All rounds of the splitting keep the longest matches.
use mathlib.Core.Option.{some-injective}
use buffalo.Common.Dict.{value}
use buffalo.Common.OrdSet.{erase, Sorted, Above-ne, insert-Sorted, erase-Sorted, Elem-erase}
use buffalo.Common.{
  ℕ, ◌<◌, ◌==◌, Bool-cases, if◌then◌else◌, ◌≡◌, refl, sym, ap, ◌∙◌, List, [], ◌∷◌, some, arith,
  Elem, inl, inr, each, for-Returns, Returns, Returns-bind, ◌>>=◌,
}
use buffalo.Fib.Globals.{FunetRow}
use buffalo.Overlap.Apart.{AllValid}
use buffalo.Overlap.Best.{Best, parted, parted-Best, parted-Elem, add_half-Sorted}
use buffalo.Overlap.Cover.{contains_other-some, split-Covering}
use buffalo.Overlap.{
  Splitting, add_row, read_rows, lower_half, upper_half, add_half, split, split_length, split_all,
}
use buffalo.Prefix.Equal.{prefix_key, prefix_order}
use buffalo.Prefix.{Prefix}

-- In a round that began with `before`, with the prefixes of `todo` to come.
pub record Keeping (before : Splitting) (todo : List Prefix) (t : Splitting) : Type 0 where
  pub valid : AllValid t.newlist
  pub sorted : Sorted t.newlist
  pub distinct : Sorted todo
  pub here : (q : Prefix) → Elem q todo → Elem q t.newlist
  pub best : (x w : ℕ) → Best before.alllist before x w → Best t.newlist t x w

split-Keeping :
    (before t : Splitting) (p : Prefix) (rest : List Prefix)
    → p.len < 32
    → Keeping before (p ∷ rest) t
    → Returns (Keeping before rest) (split p t)
unfolding split
split-Keeping before t p rest h k =
    let m = k.here p (inl refl) in
    let v = k.valid p m in
    let (b, run) = contains_other-some p t.newlist v k.valid in
    elim (Bool-cases b) [
      | inr whole ↦ (
        t,
        rw (run, ◌>>=◌, whole) refl,
        record {
          valid = k.valid;
          sorted = k.sorted;
          distinct = k.distinct.1;
          here = λ q n. k.here q (inr n);
          best = k.best;
        },
      )
      | inl divided ↦
          let (u, run', covering) = split-Covering p t v h k.valid in
          let run'' : split p t ≡ some (parted p t) = rw (run, ◌>>=◌, divided) refl in
          let same : u ≡ parted p t = some-injective _ _ (sym run' ∙ run'') in
          (
            parted p t,
            rw (run, ◌>>=◌, divided) refl,
            record {
              valid = λ q n. covering.valid q (rw same n);
              sorted =
                  add_half-Sorted p (upper_half p)
                    (add_half p (lower_half p) (record t { newlist = erase p t.newlist }))
                    (add_half-Sorted p (lower_half p) (record t { newlist = erase p t.newlist })
                      (erase-Sorted p t.newlist k.sorted));
              distinct = k.distinct.1;
              here = λ q n. elim (Elem-erase q p t.newlist (k.here q (inr n))) [
                | inl e ↦ absurd (Above-ne p q rest k.distinct.0 n (sym e))
                | inr left ↦ parted-Elem p t v h q left
              ];
              best = λ x w b. parted-Best p t v h x w k.valid m (k.best x w b);
            },
          )
    ]

round-Keeping :
    (j : ℕ) (before : Splitting) (todo : List Prefix) (t : Splitting)
    → j < 32
    → Keeping before todo t
    → Returns
        (Keeping before [])
        (each todo (λ p t. let parted = split p t in if p.len == j then parted else some t) t)
unfolding each
round-Keeping j before [] t h k = (t, refl, k)
round-Keeping j before (p ∷ todo) t h k =
    let step : Returns (Keeping before todo) (if p.len == j then split p t else some t) =
      elim (Bool-cases (p.len == j)) [
        | inl e ↦
            let (u, run, k') = split-Keeping before t p todo (ground (arith, e, h)) k in
            (u, rw e run, k')
        | inr n ↦ (
          t,
          rw n refl,
          record {
            valid = k.valid;
            sorted = k.sorted;
            distinct = k.distinct.1;
            here = λ q m. k.here q (inr m);
            best = k.best;
          },
        )
      ] in
    Returns-bind step (λ u. round-Keeping j before todo u h)

-- Between two rounds.
abbrev pub Sound : Splitting → Splitting → Type 0
Sound before t =
    AllValid t.alllist
    × Sorted t.alllist
    × ((x w : ℕ) → Best before.alllist before x w → Best t.alllist t x w)

-- The same list under another name.
Best-same :
    (ps : List Prefix) (s t : Splitting) (x w : ℕ) → s.pmap ≡ t.pmap → Best ps s x w → Best ps t x w
Best-same ps s t x w e b = record {
  match_of = b.match_of;
  member_of = b.member_of;
  covers = b.covers;
  longest = b.longest;
  nexthop = ap (λ m. value m b.match_of) (sym e) ∙ b.nexthop;
}

split_length-Sound :
    (j : ℕ) (before s : Splitting)
    → j < 32
    → Sound before s
    → Returns (Sound before) (split_length j s)
unfolding split_length
split_length-Sound j before s h (valid, sorted, best) =
    let start : Splitting = record s { newlist = s.alllist } in
    let (u, run, k) = round-Keeping j before s.alllist start h (record {
      valid = valid;
      sorted = sorted;
      distinct = sorted;
      here = λ q m. m;
      best = λ x w b. Best-same s.alllist s start x w refl (best x w b);
    }) in
    (
      record u { alllist = u.newlist },
      rw (run, ◌>>=◌) refl,
      (
        k.valid,
        k.sorted,
        λ x w b. Best-same u.newlist u (record u { alllist = u.newlist }) x w refl (k.best x w b),
      ),
    )

pub split_all-Sound :
    (s : Splitting) → AllValid s.alllist → Sorted s.alllist → Returns (Sound s) (split_all s)
unfolding split_all
split_all-Sound s valid sorted =
    for-Returns (λ k. Sound s) 32 split_length 31 1 s (omega arith)
      (λ k t low high. split_length-Sound k s t high) (valid, sorted, λ x w b. b)

pub read_rows-Sorted :
    (rows : List FunetRow) (s : Splitting) → Sorted s.alllist → Sorted (read_rows rows s).alllist
unfolding read_rows add_row
read_rows-Sorted [] s sorted = sorted
read_rows-Sorted (row ∷ rows) s sorted =
    read_rows-Sorted rows (add_row row s) (insert-Sorted _ s.alllist sorted)
