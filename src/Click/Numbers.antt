-- ===== src/Click/Numbers.antt =====
-- The numbers of the next hops, one for each.
use mathlib.Core.Option.{some-injective, none-ne-some}
use buffalo.Common.Dict.{Dict, lookup, assign, value, nat_key}
use buffalo.Common.{
  ℕ, ◌+◌, ◌<◌, ◌==◌, ==_iff, ltb, true, Bool-cases, if◌then◌else◌, ◌≡◌, refl, sym, ap, subst, ◌∙◌,
  List, [], ◌∷◌, none, some, Option-cases, arith, Elem, inl, inr, ◌⊎◌, set, length, each, ◌>>=◌,
}
use buffalo.Click.{Line, route, add_row}
use buffalo.Flat.Read.{Elem-last}
use buffalo.Flat.{Table, no_routes, number_nexthop}
use buffalo.Prefix.Text.{str2ip}
use buffalo.Prefix.{Prefix}

-- A number belongs to one next hop, and is below the next one to give.
pub record Numbered (t : Table) : Type 0 where
  pub below : (nh i : ℕ) → lookup t.nhmap nh ≡ some i → i < t.index
  pub apart : (a b i : ℕ) → lookup t.nhmap a ≡ some i → lookup t.nhmap b ≡ some i → a ≡ b

pub lookup-assign :
    (a b v : ℕ) (m : Dict ℕ ℕ) → lookup (assign a v m) b ≡ (if a == b then some v else lookup m b)
unfolding lookup
lookup-assign a b v m = refl

pub lookup-assign_inv :
    (a b v i : ℕ) (m : Dict ℕ ℕ)
    → lookup (assign a v m) b ≡ some i
    → ((a ≡ b) × (v ≡ i)) ⊎ (lookup m b ≡ some i)
lookup-assign_inv a b v i m e = elim (Bool-cases (a == b)) [
  | inl same ↦
      let read : lookup (assign a v m) b ≡ some v = rw (lookup-assign a b v m, same) refl in
      inl ((==_iff a b).0 same, some-injective _ _ (sym read ∙ e))
  | inr other ↦
      let read : lookup (assign a v m) b ≡ lookup m b = rw (lookup-assign a b v m, other) refl in
      inr (sym read ∙ e)
]

-- A number that a next hop has stays; and the next hop of the row has one.
pub record Kept (nexthop : ℕ) (t u : Table) : Type 0 where
  pub numbered : Numbered u
  pub grows : (nh i : ℕ) → lookup t.nhmap nh ≡ some i → lookup u.nhmap nh ≡ some i
  pub has : (i : ℕ) × (lookup u.nhmap nexthop ≡ some i)

fresh-Kept :
    (nexthop : ℕ) (str : List ℕ) (t : Table)
    → lookup t.nhmap nexthop ≡ none
    → Numbered t
    → Kept nexthop t (record t {
      nhmap = assign nexthop t.index t.nhmap;
      nhstr = set t.nhstr t.index str;
      index = t.index + 1;
    })
fresh-Kept nexthop str t absent numbered = record {
  numbered = record {
    below = λ nh i e. elim (lookup-assign_inv nexthop nh t.index i t.nhmap e) [
      | inl (same, here) ↦ omega (arith, here)
      | inr old ↦ omega (arith, numbered.below nh i old)
    ];
    apart = λ a b i e e'. elim (lookup-assign_inv nexthop a t.index i t.nhmap e) [
      | inl (same, here) ↦ elim (lookup-assign_inv nexthop b t.index i t.nhmap e') [
        | inl (same', here') ↦ sym same ∙ same'
        | inr old' ↦ absurd (omega (arith, here, numbered.below b i old'))
      ]
      | inr old ↦ elim (lookup-assign_inv nexthop b t.index i t.nhmap e') [
        | inl (same', here') ↦ absurd (omega (arith, here', numbered.below a i old))
        | inr old' ↦ numbered.apart a b i old old'
      ]
    ];
  };
  grows = λ nh i e. elim (Bool-cases (nexthop == nh)) [
    | inl same ↦
        let missing : lookup t.nhmap nh ≡ none =
          ap (lookup t.nhmap) (sym ((==_iff nexthop nh).0 same)) ∙ absent in
        absurd (none-ne-some _ (sym missing ∙ e))
    | inr other ↦ rw (lookup-assign nexthop nh t.index t.nhmap, other) e
  ];
  has =
      let self : (nexthop == nexthop) ≡ true = (==_iff _ _).1 refl in
      (t.index, rw (lookup-assign nexthop nexthop t.index t.nhmap, self) refl);
}

number_nexthop-Kept :
    (nexthop : ℕ) (str : List ℕ) (t u : Table)
    → number_nexthop nexthop str t ≡ some u
    → Numbered t
    → Kept nexthop t u
unfolding number_nexthop
number_nexthop-Kept nexthop str t u e numbered = elim (Option-cases (lookup t.nhmap nexthop)) [
  | inl absent ↦ elim (Bool-cases (ltb t.index (length t.nhstr))) [
    | inl inside ↦
        let run = rw (absent, number_nexthop, inside) at e in
        rw (← some-injective _ _ run) (fresh-Kept nexthop str t absent numbered)
    | inr full ↦ absurd (none-ne-some _ (rw (absent, number_nexthop, full) at e))
  ]
  | inr (i, here) ↦
      let run = rw (here, number_nexthop) at e in
      rw (← some-injective _ _ run)
        record { numbered = numbered; grows = λ nh i e. e; has = (i, here) }
]

-- The lines of the routes name numbers that next hops have.
pub record Routed (t : Table) (out : List Line) : Type 0 where
  pub numbered : Numbered t
  pub named : (p : Prefix) (n : ℕ) → Elem (route p n) out → (nh : ℕ) × (lookup t.nhmap nh ≡ some n)

value-lookup : (m : Dict ℕ ℕ) (nh i : ℕ) → lookup m nh ≡ some i → value m nh ≡ i
unfolding value
value-lookup m nh i e = rw e refl

abbrev route_number : Line → ℕ
route_number (route p n) = n
route_number _ = 0

add_row-Routed :
    (p : Prefix) (str : List ℕ) (t u : Table) (out out' : List Line)
    → add_row (p, str) (t, out) ≡ some (u, out')
    → Routed t out
    → Routed u out'
unfolding add_row
add_row-Routed p str t u out out' e r = elim (Option-cases (str2ip str)) [
  | inl unread ↦ absurd (none-ne-some _ (rw (unread, ◌>>=◌) at e))
  | inr (nexthop, address) ↦ elim (Option-cases (number_nexthop nexthop str t)) [
    | inl full ↦ absurd (none-ne-some _ (rw (address, ◌>>=◌, full) at e))
    | inr (w, step) ↦
        let kept = number_nexthop-Kept nexthop str t w step r.numbered in
        let run = rw (address, ◌>>=◌, step) at e in
        let both = some-injective _ _ run in
        let (i, at_i) = kept.has in
        subst (λ (x : Table × List Line). Routed x.0 x.1) both
          record {
            numbered = record { below = kept.numbered.below; apart = kept.numbered.apart };
            named = λ q n m. elim (Elem-last (route q n) _ out m) [
              | inl new ↦
                  let number : i ≡ n =
                    sym (value-lookup w.nhmap nexthop i at_i) ∙ ap route_number new in
                  (nexthop, at_i ∙ ap some number)
              | inr old ↦ let (nh, has) = r.named q n old in (nh, kept.grows nh n has)
            ];
          }
  ]
]

pub rows-Routed :
    (rows : List (Prefix × List ℕ)) (t u : Table) (out out' : List Line)
    → each rows add_row (t, out) ≡ some (u, out')
    → Routed t out
    → Routed u out'
unfolding each
rows-Routed [] t u out out' e r =
    subst (λ (x : Table × List Line). Routed x.0 x.1) (some-injective _ _ e) r
rows-Routed ((p, str) ∷ rows) t u out out' e r = elim (Option-cases (add_row (p, str) (t, out))) [
  | inl stuck ↦ absurd (none-ne-some _ (rw (stuck, ◌>>=◌) at e))
  | inr ((w, mid), step) ↦
      rows-Routed rows w u mid out' (rw (step, ◌>>=◌) at e)
        (add_row-Routed p str t w out mid step r)
]

pub no_routes-Routed : Routed no_routes []
unfolding no_routes lookup
no_routes-Routed = record {
  numbered = record {
    below = λ nh i e. absurd (none-ne-some _ e);
    apart = λ a b i e e'. absurd (none-ne-some _ e);
  };
  named = λ p n m. absurd m;
}
