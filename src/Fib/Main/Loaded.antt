-- ===== src/Fib/Main/Loaded.antt =====
-- The tables that the readers of prefixes fill: lists, counts and next hops agree.
use native.Mathlib.Decide.{ℕ_discrete}
use mathlib.Core.Option.{some-injective}
use buffalo.Common.Dict.{
  Dict, lookup, assign, value, value-assign, value-count_up, count_up, nat_key,
}
use buffalo.Common.OrdSet.{insert, insert-Sorted, Sorted, nat_order, Elem-insert, Elem-insert_self}
use buffalo.Common.{
  ℕ, ◌+◌, ◌^◌, ◌≤◌, ◌<◌, true, Bool-cases, ◌≡◌, refl, sym, ap, ◌∙◌, subst, List, [], ◌∷◌, ◌++◌,
  some, arith, Elem, inl, inr, ◌⊎◌, get_elem?, get_elem?-set_self, get_elem?-set_ne, set, length,
  length-set, each, bind-some,
}
use buffalo.Fib.Build.Filled.{get_elem?-lt}
use buffalo.Fib.Globals.{Globals, Scheme, skipped, add_prefix, pfxlen_count}
use buffalo.Fib.Main.Ready.{length-insert, Elem-append_one}
use buffalo.Fib.{PrefixMap, find}
use buffalo.Prefix.Equal.{prefix_key, eq_iff}
use buffalo.Prefix.{Prefix, eq}

-- After `n` rows.
pub record Loaded (g : Globals) (n : ℕ) : Type 0 where
  pub width : length g.nh_pfxlen_count ≡ pfxlen_count
  pub few :
      (l nh : ℕ) (counts : Dict ℕ ℕ)
      → get_elem? g.nh_pfxlen_count l ≡ some counts
      → value counts nh ≤ n
  pub listed : (p : Prefix) (v : ℕ) → find g.pmap p ≡ some v → Elem p g.pfxlist
  pub positive : (p : Prefix) → Elem p g.pfxlist → 0 < p.len
  pub member : (p : Prefix) → Elem p g.pfxlist → Elem (value g.pmap p) g.nhlist
  pub counted :
      (p : Prefix)
      → Elem p g.pfxlist
      → (counts : Dict ℕ ℕ) × (get_elem? g.nh_pfxlen_count p.len ≡ some counts)
        × (0 < value counts (value g.pmap p))
  pub few_nexthops : length g.nhlist ≤ n
  pub ordered : Sorted g.nhlist

-- The counts after one more of `nexthop` at the length `k`.
set-counted :
    (all : List (Dict ℕ ℕ)) (k l nexthop v : ℕ) (at_k counts : Dict ℕ ℕ)
    → value at_k nexthop + 1 < 2 ^ 32
    → get_elem? all k ≡ some at_k
    → get_elem? all l ≡ some counts
    → 0 < value counts v
    → (after : Dict ℕ ℕ) × (get_elem? (set all k (count_up nexthop at_k)) l ≡ some after)
      × (0 < value after v)
set-counted all k l nexthop v at_k counts room here there pos = elim (ℕ_discrete k l) [
  | yes e ↦
      let same : at_k ≡ counts = some-injective _ _ (sym here ∙ ap (get_elem? all) e ∙ there) in
      (
        count_up nexthop at_k,
        ap (get_elem? (set all k (count_up nexthop at_k))) (sym e)
            ∙ get_elem?-set_self all k (count_up nexthop at_k) (get_elem?-lt all k at_k here),
        let before : 0 < value at_k v = rw same pos in
            rw (value-count_up nexthop v at_k) (ground (arith, before, room)),
      )
  | no apart ↦ (counts, get_elem?-set_ne all (count_up nexthop at_k) apart ∙ there, pos)
]

set-few :
    (all : List (Dict ℕ ℕ)) (k l nexthop v n : ℕ) (at_k counts : Dict ℕ ℕ)
    → get_elem? all k ≡ some at_k
    → ((l nh : ℕ) (counts : Dict ℕ ℕ) → get_elem? all l ≡ some counts → value counts nh ≤ n)
    → n + 1 < 2 ^ 31
    → get_elem? (set all k (count_up nexthop at_k)) l ≡ some counts
    → value counts v ≤ n + 1
set-few all k l nexthop v n at_k counts here few room there = elim (ℕ_discrete k l) [
  | yes e ↦
      let now : get_elem? (set all k (count_up nexthop at_k)) l ≡ some (count_up nexthop at_k) =
        ap (get_elem? (set all k (count_up nexthop at_k))) (sym e)
        ∙ get_elem?-set_self all k (count_up nexthop at_k) (get_elem?-lt all k at_k here) in
      let same : count_up nexthop at_k ≡ counts = some-injective _ _ (sym now ∙ there) in
      let at_v = few k v at_k here in
      let at_nexthop = few k nexthop at_k here in
      rw (← same, value-count_up nexthop v at_k) (ground (arith, at_v, at_nexthop))
  | no apart ↦
      omega
        (arith, few l v counts (sym (get_elem?-set_ne all (count_up nexthop at_k) apart) ∙ there))
]

find-assign_inv :
    (p q : Prefix) (v w : ℕ) (m : PrefixMap)
    → find (assign p v m) q ≡ some w
    → (p ≡ q) ⊎ (find m q ≡ some w)
unfolding find lookup
find-assign_inv p q v w m e = elim (Bool-cases (eq p q)) [
  | inl same ↦ inl ((eq_iff p q).0 same)
  | inr other ↦ inr (rw other at e)
]

Elem-append : {A : Type 0} (x y : A) (xs : List A) → Elem x xs ⊎ (x ≡ y) → Elem x (xs ++ y ∷ [])
Elem-append x y [] h = elim h [ inl none_there ↦ absurd none_there | inr e ↦ inl e ]
Elem-append x y (z ∷ xs) h = elim h [
  | inl m ↦ elim m [ inl e ↦ inl e | inr m' ↦ inr (Elem-append x y xs (inl m')) ]
  | inr e ↦ inr (Elem-append x y xs (inr e))
]

-- The tables after a row that is not skipped.
abbrev added : Prefix → ℕ → Globals → Dict ℕ ℕ → Globals
added p nexthop g counts = record g {
  pmap = assign p nexthop g.pmap;
  pfxlist = g.pfxlist ++ p ∷ [];
  nhlist = insert nexthop g.nhlist;
  nhcount = count_up nexthop g.nhcount;
  pfxlencount = count_up p.len g.pfxlencount;
  nh_pfxlen_count = set g.nh_pfxlen_count p.len (count_up nexthop counts);
}

-- The prefix of the row has what the lists promise of it.
new_counted :
    (p q : Prefix) (nexthop n : ℕ) (g : Globals) (counts : Dict ℕ ℕ)
    → get_elem? g.nh_pfxlen_count p.len ≡ some counts
    → n + 1 < 2 ^ 31
    → Loaded g n
    → Elem q (g.pfxlist ++ p ∷ [])
    → (after : Dict ℕ ℕ) × (get_elem? (set g.nh_pfxlen_count p.len (count_up nexthop counts)) q.len
        ≡ some after)
      × (0 < value after (value (assign p nexthop g.pmap) q))
new_counted p q nexthop n g counts here room r m =
    let room_here : value counts nexthop + 1 < 2 ^ 32 =
      omega (arith, r.few p.len nexthop counts here) in
    elim (Bool-cases (eq p q)) [
      | inl same ↦
          let e = (eq_iff p q).0 same in
          rw (value-assign p q nexthop g.pmap, same)
            (
              count_up nexthop counts,
              ap (λ s. get_elem? (set g.nh_pfxlen_count p.len (count_up nexthop counts)) s.len)
                    (sym e)
                  ∙ get_elem?-set_self g.nh_pfxlen_count p.len (count_up nexthop counts)
                      (get_elem?-lt g.nh_pfxlen_count p.len counts here),
              rw (value-count_up nexthop nexthop counts) (ground (arith, room_here)),
            )
      | inr other ↦ elim (Elem-append_one q p g.pfxlist m) [
        | inr e ↦
            let alike : eq p q ≡ true = (eq_iff p q).1 (sym e) in
            absurd (ground (arith, alike, other))
        | inl old ↦
            let (before, at_q, pos) = r.counted q old in
            rw (value-assign p q nexthop g.pmap, other)
              (set-counted g.nh_pfxlen_count p.len q.len nexthop (value g.pmap q) counts before
                room_here here at_q pos)
      ]
    ]

added-Loaded :
    (p : Prefix) (nexthop n : ℕ) (g : Globals) (counts : Dict ℕ ℕ)
    → get_elem? g.nh_pfxlen_count p.len ≡ some counts
    → 0 < p.len
    → n + 1 < 2 ^ 31
    → Loaded g n
    → Loaded (added p nexthop g counts) (n + 1)
added-Loaded p nexthop n g counts here positive room r = record {
  width = length-set g.nh_pfxlen_count p.len (count_up nexthop counts) ∙ r.width;
  few = λ l nh after there.
      set-few g.nh_pfxlen_count p.len l nexthop nh n counts after here r.few room there;
  listed = λ q v found. elim (find-assign_inv p q nexthop v g.pmap found) [
    | inl e ↦ Elem-append q p g.pfxlist (inr (sym e))
    | inr old ↦ Elem-append q p g.pfxlist (inl (r.listed q v old))
  ];
  positive = λ q m. elim (Elem-append_one q p g.pfxlist m) [
    | inl old ↦ r.positive q old
    | inr e ↦ rw e positive
  ];
  member = λ q m. rw (value-assign p q nexthop g.pmap) elim (Bool-cases (eq p q)) [
    | inl same ↦ rw same (Elem-insert_self nexthop g.nhlist)
    | inr other ↦ elim (Elem-append_one q p g.pfxlist m) [
      | inl old ↦ rw other (Elem-insert (value g.pmap q) nexthop g.nhlist (r.member q old))
      | inr e ↦
          let alike : eq p q ≡ true = (eq_iff p q).1 (sym e) in
          absurd (ground (arith, alike, other))
    ]
  ];
  counted = λ q m. new_counted p q nexthop n g counts here room r m;
  few_nexthops = omega (arith, (length-insert nexthop g.nhlist).1, r.few_nexthops);
  ordered = insert-Sorted nexthop g.nhlist r.ordered;
}

-- More rows than were read do no harm.
more_rows : (g : Globals) (n : ℕ) → Loaded g n → Loaded g (n + 1)
more_rows g n r = record {
  width = r.width;
  few = λ l nh counts here. omega (arith, r.few l nh counts here);
  listed = r.listed;
  positive = r.positive;
  member = r.member;
  counted = r.counted;
  few_nexthops = omega (arith, r.few_nexthops);
  ordered = r.ordered;
}

add_prefix-Loaded :
    (scheme : Scheme) (p : Prefix) (nexthop n : ℕ) (g u : Globals)
    → add_prefix scheme p nexthop g ≡ some u
    → 0 < p.len
    → n + 1 < 2 ^ 31
    → Loaded g n
    → Loaded u (n + 1) × (u.nhindex ≡ g.nhindex)
unfolding add_prefix
add_prefix-Loaded scheme p nexthop n g u e positive room r = elim (Bool-cases (skipped scheme p)) [
  | inl skip ↦ let same = some-injective _ _ (rw skip at e) in rw (← same) (more_rows g n r, refl)
  | inr keep ↦
      let (counts, here, run) = bind-some (get_elem? g.nh_pfxlen_count p.len) _ u (rw keep at e) in
      let same = some-injective _ _ run in
      rw (← same) (added-Loaded p nexthop n g counts here positive room r, refl)
]

-- The rows of a file, each with its prefix and its next hop.
pub rows-Loaded :
    {A : Type 0} (scheme : Scheme) (route : A → Prefix × ℕ) (rows : List A) (n : ℕ) (g u : Globals)
    → each rows (λ row g. add_prefix scheme (route row).0 (route row).1 g) g ≡ some u
    → ((row : A) → Elem row rows → 0 < ((route row).0).len)
    → n + length rows < 2 ^ 31
    → Loaded g n
    → Loaded u (n + length rows) × (u.nhindex ≡ g.nhindex)
unfolding each
rows-Loaded scheme route [] n g u e positive room r =
    rw (← some-injective _ _ e) (subst (Loaded g) (omega arith) r, refl)
rows-Loaded scheme route (row ∷ rows) n g u e positive room r =
    let (next, step, run) = bind-some (add_prefix scheme (route row).0 (route row).1 g) _ u e in
    let (loaded, index) =
      add_prefix-Loaded scheme (route row).0 (route row).1 n g next step (positive row (inl refl))
        (omega arith) r in
    let (all, index') =
      rows-Loaded scheme route rows (n + 1) next u run (λ x m. positive x (inr m)) (omega arith)
        loaded in
    (subst (Loaded u) (omega arith) all, index' ∙ index)
