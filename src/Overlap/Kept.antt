-- ===== src/Overlap/Kept.antt =====
-- The lines that are written keep the longest matches.
use native.Mathlib.Decide.{dec_lt}
use mathlib.Core.Option.{some-injective}
use buffalo.Common.Dict.{value}
use buffalo.Common.OrdSet.{Sorted}
use buffalo.Common.{
  ℕ, ◌-◌, ◌/◌, ◌^◌, ◌≤◌, ◌≡◌, refl, sym, ap, subst, ◌∙◌, List, [], ◌∷◌, some, arith, Elem, inl, inr,
  Returns, ◌>>=◌,
}
use buffalo.Fib.Globals.{FunetRow}
use buffalo.Overlap.Apart.{AllValid, Lonely}
use buffalo.Overlap.Best.{Best}
use buffalo.Overlap.Done.{split_all-Below, Below-Lonely, check_overlap-none}
use buffalo.Overlap.{Splitting, read_rows, split_all, check_overlap, written, overlap_funet}
use buffalo.Prefix.Equal.{prefix_key, prefix_order}
use buffalo.Prefix.Subset.{Covers, lead_shorter}
use buffalo.Prefix.{Prefix}
use buffalo.Overlap.Sound.{Sound, split_all-Sound, read_rows-Sorted}

-- A line of the list.
Elem-written :
    (s : Splitting) (ps : List Prefix) (p : Prefix)
    → Elem p ps
    → Elem (record { addr = p.addr; len = p.len; tmp = value s.pmap p }) (written s ps)
unfolding written
Elem-written s [] p m = absurd m
Elem-written s (q ∷ ps) p (inl e) =
    inl (ap (λ r. record { addr = r.addr; len = r.len; tmp = value s.pmap r }) e)
Elem-written s (q ∷ ps) p (inr m) = inr (Elem-written s ps p m)

Elem-written_inv :
    (s : Splitting) (ps : List Prefix) (l : FunetRow)
    → Elem l (written s ps)
    → (p : Prefix) × Elem p ps × (l ≡ record { addr = p.addr; len = p.len; tmp = value s.pmap p })
unfolding written
Elem-written_inv s [] l m = absurd m
Elem-written_inv s (q ∷ ps) l (inl e) = (q, inl refl, e)
Elem-written_inv s (q ∷ ps) l (inr m) = let (p, n, e) = Elem-written_inv s ps l m in (p, inr n, e)

-- The prefix of a line.
abbrev pub line_prefix : FunetRow → Prefix
line_prefix l = record { addr = l.addr; len = l.len }

within :
    (p q : Prefix) (x : ℕ) → p.len ≤ q.len → q.len ≤ 32 → Covers p x → Covers q x → Covers p q.addr
within p q x le short a b =
    lead_shorter p q q.addr le short
    ∙ ap (λ y. y / 2 ^ (q.len - p.len)) (sym b)
    ∙ sym (lead_shorter p q x le short)
    ∙ a

-- Of two prefixes of the list that cover an address none is longer.
one_cover :
    (ps : List Prefix) (p q : Prefix) (x : ℕ)
    → AllValid ps
    → ((r : Prefix) → Elem r ps → Lonely r ps)
    → Elem p ps
    → Elem q ps
    → Covers p x
    → Covers q x
    → p ≡ q
one_cover ps p q x valid lonely m n a b = elim (dec_lt p.len q.len) [
  | yes shorter ↦ sym (
      lonely p m q n (record {
        shorter = omega arith;
        covers = within p q x (omega arith) (valid q n).short a b;
      }))
  | no longer ↦
      lonely q n p m (record {
        shorter = omega arith;
        covers = within q p x (omega arith) (valid p m).short b a;
      })
]

-- What the splitting leaves: no error to print, and one prefix for each address, with the next hop
-- of its longest match.
pub split_all-one :
    (s : Splitting)
    → AllValid s.alllist
    → Sorted s.alllist
    → Returns
        (λ u.
          (check_overlap u.alllist u.alllist ≡ some [])
          × ((x w : ℕ)
              → Best s.alllist s x w
              → (q : Prefix) × Elem q u.alllist
                × Covers q x
                × (value u.pmap q ≡ w)
                × ((r : Prefix) → Elem r u.alllist → Covers r x → r ≡ q)))
        (split_all s)
split_all-one s valid sorted =
    let (u, run, (sound, below)) = split_all-Below s valid in
    let (t, run', kept) = split_all-Sound s valid sorted in
    let keeps : Sound s u = subst (Sound s) (some-injective _ _ (sym run' ∙ run)) kept in
    let lonely = Below-Lonely u.alllist sound below in
    (
      u,
      run,
      (
        check_overlap-none u.alllist u.alllist sound below (λ q m. m),
        λ x w b.
            let best = keeps.2 x w b in
            (
              best.match_of,
              best.member_of,
              best.covers,
              best.nexthop,
              λ r n c.
                  one_cover u.alllist r best.match_of x sound lonely n best.member_of c best.covers,
            ),
      ),
    )

-- From a file of valid prefixes, of lengths 1 to 32: the program ends, and for an address whose
-- longest match in the file has the next hop `w`, exactly one of the lines that it writes covers
-- the address, and that line has the next hop `w`.
pub overlap_funet-Best :
    (rows : List FunetRow)
    → let s : Splitting = read_rows rows (record { alllist = []; newlist = []; pmap = [] }) in
      AllValid s.alllist
      → Returns
          (λ (errors, lines).
            (x w : ℕ)
            → Best s.alllist s x w
            → (l : FunetRow) × Elem l lines
              × Covers (line_prefix l) x
              × (l.tmp ≡ w)
              × ((k : FunetRow) → Elem k lines → Covers (line_prefix k) x → k ≡ l))
          (overlap_funet rows)
unfolding overlap_funet
overlap_funet-Best rows valid =
    let s : Splitting = read_rows rows (record { alllist = []; newlist = []; pmap = [] }) in
    let sorted = read_rows-Sorted rows (record { alllist = []; newlist = []; pmap = [] }) tt in
    let (u, run, (checked, one)) = split_all-one s valid sorted in
    (
      ([], written u u.alllist),
      rw (run, ◌>>=◌, checked) refl,
      λ x w b.
          let (q, m, covers, hop, only) = one x w b in
          (
            record { addr = q.addr; len = q.len; tmp = value u.pmap q },
            Elem-written u u.alllist q m,
            covers,
            hop,
            λ k n c.
                let (p, n', e) = Elem-written_inv u u.alllist k n in
                let alike = only p n' (subst (λ l. Covers (line_prefix l) x) e c) in
                e ∙ ap (λ r. record { addr = r.addr; len = r.len; tmp = value u.pmap r }) alike,
          ),
    )
