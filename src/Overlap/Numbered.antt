-- ===== src/Overlap/Numbered.antt =====
-- overlap.cc, for Internet2: the numbers and the texts of the next hops.
use mathlib.Core.Option.{some-injective, none-ne-some}
use buffalo.Click.Numbers.{lookup-assign, lookup-assign_inv}
use buffalo.Common.Dict.{lookup, nat_key}
use buffalo.Common.{
  ℕ, ◌≤◌, ◌<◌, ◌==◌, ltb, Bool-cases, ◌≡◌, refl, sym, ap, ◌∙◌, List, Option-cases, some, arith, inl,
  inr, get_elem?, get_elem?-set_self, get_elem?-set_ne, set, length, length-set,
}
use buffalo.Flat.{Table, number_nexthop}
use buffalo.Prefix.Equal.{prefix_key, prefix_order}
use buffalo.Prefix.Text.{str2ip}

-- A number leads to a text that reads as its next hop.
pub record Named (t : Table) : Type 0 where
  pub room : length t.nhstr ≡ 1000
  pub below : (nh i : ℕ) → lookup t.nhmap nh ≡ some i → i < t.index
  pub full : t.index ≤ 1000
  pub text :
      (nh i : ℕ)
      → lookup t.nhmap nh ≡ some i
      → (str : List ℕ) × (get_elem? t.nhstr i ≡ some str) × (str2ip str ≡ some nh)

pub number_nexthop-Named :
    (nexthop : ℕ) (str : List ℕ) (t u : Table)
    → str2ip str ≡ some nexthop
    → number_nexthop nexthop str t ≡ some u
    → Named t
    → Named u
      × ((i : ℕ) × (lookup u.nhmap nexthop ≡ some i))
      × ((nh i : ℕ) → lookup t.nhmap nh ≡ some i → (j : ℕ) × (lookup u.nhmap nh ≡ some j))
unfolding number_nexthop
number_nexthop-Named nexthop str t u reads e named = elim (Option-cases (lookup t.nhmap nexthop)) [
  | inr (i, here) ↦
      let same = some-injective _ _ (rw (number_nexthop, here) at e) in
      rw (← same) (named, (i, here), λ nh j known. (j, known))
  | inl absent ↦ elim (Bool-cases (ltb t.index (length t.nhstr))) [
    | inr over ↦ absurd (none-ne-some u (rw (number_nexthop, absent, over) at e))
    | inl inside ↦
        let same = some-injective _ _ (rw (number_nexthop, absent, inside) at e) in
        let space : t.index < length t.nhstr = ground (arith, inside) in
        rw (← same) (
          record {
            room = length-set t.nhstr t.index str ∙ named.room;
            below = λ nh i there. elim (lookup-assign_inv nexthop nh t.index i t.nhmap there) [
              | inl (_, new) ↦ omega (arith, new)
              | inr old ↦ omega (arith, named.below nh i old)
            ];
            full = omega (arith, space, named.room);
            text = λ nh i there. elim (lookup-assign_inv nexthop nh t.index i t.nhmap there) [
              | inl (mine, new) ↦ (
                str,
                ap (get_elem? (set t.nhstr t.index str)) (sym new)
                    ∙ get_elem?-set_self t.nhstr t.index str space,
                reads ∙ ap some mine,
              )
              | inr old ↦
                  let (before, at_i, reads') = named.text nh i old in
                  (
                    before,
                    get_elem?-set_ne t.nhstr str
                          (λ q. absurd (omega (arith, q, named.below nh i old)))
                        ∙ at_i,
                    reads',
                  )
            ];
          },
          (t.index, rw (lookup-assign nexthop nexthop t.index t.nhmap) (ground arith)),
          λ nh i known. elim (Bool-cases (nexthop == nh)) [
            | inl alike ↦ (t.index, rw (lookup-assign nexthop nh t.index t.nhmap, alike) refl)
            | inr other ↦ (i, rw (lookup-assign nexthop nh t.index t.nhmap, other) known)
          ],
        )
  ]
]
