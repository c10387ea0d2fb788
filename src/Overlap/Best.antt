-- ===== src/Overlap/Best.antt =====
-- The splitting keeps the longest match of every address, with its next hop.
use native.Mathlib.Decide.{ℕ_discrete}
use buffalo.Common.Dict.{value, value-assign}
use buffalo.Common.OrdSet.{
  member, erase, Sorted, insert-Sorted, member-Elem, Elem-member, Elem-erase, Elem-erase_inv,
  Elem-erase_self,
}
use buffalo.Common.{
  ℕ, suc, ◌/◌, ◌-◌, ◌^◌, ◌≤◌, ◌<◌, true, Bool-cases, ◌≡◌, ◌≢◌, refl, sym, ap, subst, ◌∙◌, List,
  arith, Elem, inl, inr, ◌⊎◌,
}
use buffalo.Fib.Blocks.{block, Covers-block}
use buffalo.Overlap.Apart.{AllValid}
use buffalo.Overlap.Cover.{Halves, valid-Halves, add_half-Elem, add_half-Elem_inv}
use buffalo.Overlap.{Splitting, lower_half, upper_half, add_half}
use buffalo.Prefix.Contains.{IsValid}
use buffalo.Prefix.Equal.{prefix_key, prefix_order, eq_iff}
use buffalo.Prefix.Subset.{Covers, lead_shorter}
use buffalo.Prefix.{Prefix, eq}

-- `q` is the longest prefix of the list that covers the address, and its next hop is `v`.
pub record Best (ps : List Prefix) (s : Splitting) (x v : ℕ) : Type 0 where
  pub match_of : Prefix
  pub member_of : Elem match_of ps
  pub covers : Covers match_of x
  pub longest : (r : Prefix) → Elem r ps → Covers r x → r.len ≤ match_of.len
  pub nexthop : value s.pmap match_of ≡ v

-- What is in the list keeps its next hop.
add_half-value :
    (whole half q : Prefix) (s : Splitting)
    → Elem q s.newlist
    → value (add_half whole half s).pmap q ≡ value s.pmap q
unfolding add_half
add_half-value whole half q s m = elim (Bool-cases (member half s.newlist)) [
  | inl here ↦ rw here refl
  | inr new ↦ elim (Bool-cases (eq half q)) [
    | inr apart ↦ rw (new, value-assign half q (value s.pmap whole) s.pmap, apart) refl
    | inl same ↦
        let e = (eq_iff half q).0 same in
        let there : member half s.newlist ≡ true = Elem-member half s.newlist (rw e m) in
        absurd (ground (arith, new, there))
  ]
]

-- A new half takes the next hop of the whole.
add_half-value_new :
    (whole half : Prefix) (s : Splitting)
    → ¬ Elem half s.newlist
    → value (add_half whole half s).pmap half ≡ value s.pmap whole
unfolding add_half
add_half-value_new whole half s absent = elim (Bool-cases (member half s.newlist)) [
  | inl here ↦ absurd (absent (member-Elem half s.newlist here))
  | inr new ↦
      let itself : eq half half ≡ true = (eq_iff half half).1 refl in
      rw (new, value-assign half half (value s.pmap whole) s.pmap, itself) refl
]

-- The whole keeps its own.
add_half-value_whole :
    (whole half : Prefix) (s : Splitting)
    → half ≢ whole
    → value (add_half whole half s).pmap whole ≡ value s.pmap whole
unfolding add_half
add_half-value_whole whole half s apart = elim (Bool-cases (member half s.newlist)) [
  | inl here ↦ rw here refl
  | inr new ↦ elim (Bool-cases (eq half whole)) [
    | inr other ↦ rw (new, value-assign half whole (value s.pmap whole) s.pmap, other) refl
    | inl same ↦ absurd (apart ((eq_iff half whole).0 same))
  ]
]

pub add_half-Sorted :
    (whole half : Prefix) (s : Splitting)
    → Sorted s.newlist
    → Sorted (add_half whole half s).newlist
unfolding add_half
add_half-Sorted whole half s sorted = elim (Bool-cases (member half s.newlist)) [
  | inl here ↦ rw here sorted
  | inr new ↦ rw new (insert-Sorted half s.newlist sorted)
]

-- A part of a prefix covers no more than the whole.
part-Covers :
    (p h : Prefix) (x : ℕ) → p.len ≤ h.len → h.len ≤ 32 → Covers p h.addr → Covers h x → Covers p x
part-Covers p h x le short within c =
    lead_shorter p h x le short
    ∙ ap (λ y. y / 2 ^ (h.len - p.len)) c
    ∙ sym (lead_shorter p h h.addr le short)
    ∙ within

-- Two valid prefixes of one length that cover an address are one.
same_cover :
    (p q : Prefix) (x : ℕ) → IsValid p → IsValid q → p.len ≡ q.len → Covers p x → Covers q x → p ≡ q
same_cover p q x vp vq e a b = Covers-block p x vp a ∙ ap (block x) e ∙ sym (Covers-block q x vq b)

-- The two halves in place of the whole.
abbrev pub parted : Prefix → Splitting → Splitting
parted p s =
    add_half p (upper_half p) (add_half p (lower_half p) (record s { newlist = erase p s.newlist }))

module _ (p : Prefix) (s : Splitting) (v : IsValid p) (h : p.len < 32) where
  abbrev halves : Halves p
  halves = valid-Halves p v h

  abbrev without : Splitting
  without = record s { newlist = erase p s.newlist }

  abbrev one : Splitting
  one = add_half p (lower_half p) without

  -- A member of the new list is old and not `p`, or a half.
  parted-Elem_inv :
      (q : Prefix)
      → Elem q (parted p s).newlist
      → (Elem q (erase p s.newlist)) ⊎ ((q.len ≡ suc p.len) × (q.len ≤ 32) × Covers p q.addr)
  parted-Elem_inv q m = elim (add_half-Elem_inv p (upper_half p) q one m) [
    | inl e ↦ inr (rw e (halves.upper_len, halves.upper.short, halves.upper_inside))
    | inr m' ↦ elim (add_half-Elem_inv p (lower_half p) q without m') [
      | inl e ↦ inr (rw e (halves.lower_len, halves.lower.short, halves.lower_inside))
      | inr old ↦ inl old
    ]
  ]

  pub parted-Elem : (q : Prefix) → Elem q (erase p s.newlist) → Elem q (parted p s).newlist
  parted-Elem q m =
      add_half-Elem p (upper_half p) q one (inr (add_half-Elem p (lower_half p) q without (inr m)))

  -- A half that covers the address, when nothing longer than `p` did, takes its next hop.
  parted-half :
      (x : ℕ)
      → ((r : Prefix) → Elem r s.newlist → Covers r x → r.len ≤ p.len)
      → Covers p x
      → (q : Prefix) × Elem q (parted p s).newlist
        × Covers q x
        × (q.len ≡ suc p.len)
        × (value (parted p s).pmap q ≡ value s.pmap p)
  parted-half x longest c =
      let keeps : value one.pmap p ≡ value s.pmap p =
        add_half-value_whole p (lower_half p) without
          (λ e. absurd (omega (arith, ap (λ q. q.len) e, halves.lower_len))) in
      let absent : (q : Prefix) → q.len ≡ suc p.len → Covers q x → ¬ Elem q (erase p s.newlist) =
        λ q len covers m.
          absurd (omega (arith, longest q (Elem-erase_inv q p s.newlist m) covers, len)) in
      let lower_in : Elem (lower_half p) one.newlist =
        add_half-Elem p (lower_half p) (lower_half p) without (inl refl) in
      let low : Covers (lower_half p) x → value (parted p s).pmap (lower_half p) ≡ value s.pmap p =
        λ covers.
          add_half-value p (upper_half p) (lower_half p) one lower_in
          ∙ add_half-value_new p (lower_half p) without
              (absent (lower_half p) halves.lower_len covers) in
      elim (halves.cover x c) [
        | inl covers ↦ (
          lower_half p,
          add_half-Elem p (upper_half p) (lower_half p) one (inr lower_in),
          covers,
          halves.lower_len,
          low covers,
        )
        | inr covers ↦ (
          upper_half p,
          add_half-Elem p (upper_half p) (upper_half p) one (inl refl),
          covers,
          halves.upper_len,
          elim (Bool-cases (member (upper_half p) one.newlist)) [
            | inr new ↦
                add_half-value_new p (upper_half p) one
                  (λ m. absurd (ground (arith, new, Elem-member (upper_half p) one.newlist m)))
                ∙ keeps
            | inl here ↦
                elim (add_half-Elem_inv p (lower_half p) (upper_half p) without
                  (member-Elem (upper_half p) one.newlist here)) [
                    | inr old ↦ absurd (absent (upper_half p) halves.upper_len covers old)
                    | inl e ↦
                        ap (value (parted p s).pmap) e ∙ low (subst (λ q. Covers q x) e covers)
                  ]
          ],
        )
      ]

  -- The longest match of an address, after `p` is split.
  pub parted-Best :
      (x w : ℕ)
      → AllValid s.newlist
      → Elem p s.newlist
      → Best s.newlist s x w
      → Best (parted p s).newlist (parted p s) x w
  parted-Best x w valid here b = elim (Elem-erase b.match_of p s.newlist b.member_of) [
    | inr kept ↦ record {
      match_of = b.match_of;
      member_of = parted-Elem b.match_of kept;
      covers = b.covers;
      longest = λ r m c. elim (parted-Elem_inv r m) [
        | inl old ↦ b.longest r (Elem-erase_inv r p s.newlist old) c
        | inr (len, short, within) ↦
            let whole = part-Covers p r x (omega (arith, len)) short within c in
            let le = b.longest p here whole in
            elim (ℕ_discrete p.len b.match_of.len) [
              | no below ↦ omega (arith, le, below, len)
              | yes e ↦
                  let same =
                    same_cover b.match_of p x (valid b.match_of b.member_of) v (sym e) b.covers
                      whole in
                  absurd (
                    Elem-erase_self p s.newlist (subst (λ q. Elem q (erase p s.newlist)) same kept))
            ]
      ];
      nexthop =
          add_half-value p (upper_half p) b.match_of one
            (add_half-Elem p (lower_half p) b.match_of without (inr kept))
          ∙ add_half-value p (lower_half p) b.match_of without kept
          ∙ b.nexthop;
    }
    | inl e ↦
        let (q, m, c, len, hop) =
          parted-half x (λ r m c. rw (← ap (λ z. z.len) e) (b.longest r m c)) (rw (← e) b.covers) in
        record {
          match_of = q;
          member_of = m;
          covers = c;
          longest = λ r n c'. elim (parted-Elem_inv r n) [
            | inl old ↦
                omega
                  (arith, b.longest r (Elem-erase_inv r p s.newlist old) c', ap (λ z. z.len) e, len)
            | inr (len', short, within) ↦ omega (arith, len, len')
          ];
          nexthop = hop ∙ ap (value s.pmap) (sym e) ∙ b.nexthop;
        }
  ]
