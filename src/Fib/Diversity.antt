-- ===== src/Fib/Diversity.antt =====
-- BloomFilterTest.cc: `test_prefix_nexthop`, which counts the next hops of a prefix and of those that
-- contain it.
use Prim.Native.Nat.{bit_and}
use buffalo.Common.Bits.{ones}
use buffalo.Common.OrdSet.{insert, member, erase, nat_order}
use buffalo.Common.{
  ℕ, zero, suc, ◌+◌, ◌-◌, ◌*◌, ◌^◌, ◌≤◌, Bool-cases, if◌then◌else◌, true, false, ◌≡◌, refl, List,
  [], ◌∷◌, ◌++◌, Option, none, some, Option-cases, arith, Elem, inl, inr, ◌⊎◌, length, each,
  each-Returns, Returns, ◌>>=◌,
}
use buffalo.Fib.Globals.{Globals}
use buffalo.Fib.Main.Ready.{length-insert, Elem-append_one}
use buffalo.Fib.{PrefixMap, find}
use buffalo.Prefix.Contains.{mask-ones}
use buffalo.Prefix.Equal.{prefix_order}
use buffalo.Prefix.{Prefix, lt, mask}

-- `sort`, by `operator<`; prefixes of which neither is less are equal, so the result is the only one.
unfoldable pub put : Prefix → List Prefix → List Prefix
put p [] = p ∷ []
put p (q ∷ qs) = let rest = put p qs in if lt q p then q ∷ rest else p ∷ q ∷ qs

unfoldable pub sort : List Prefix → List Prefix
unfolding put
sort [] = []
sort (p ∷ ps) = put p (sort ps)

-- `spfx`
unfoldable pub all_prefixes : List Prefix → List Prefix → List Prefix
all_prefixes [] spfx = spfx
all_prefixes (p ∷ ps) spfx = all_prefixes ps (insert p spfx)

-- A prefix that the table has.
unfoldable pub note_nexthop : PrefixMap → Prefix → List Prefix × List ℕ → List Prefix × List ℕ
unfolding find
note_nexthop pmap p s = elim (find pmap p) [
  | none ↦ s
  | some nexthop ↦ (erase p s.0, insert nexthop s.1)
]

-- The loop over the lengths from `i` down, which changes `spfx` and `nhset`.
unfoldable pub shorten : PrefixMap → ℕ → ℕ → List Prefix × List ℕ → Option (List Prefix × List ℕ)
unfolding note_nexthop
shorten pmap addr zero s = some s
shorten pmap addr (suc i) s = do
  bits ← mask (suc i)
  shorten pmap addr i (note_nexthop pmap (record { addr = bit_and addr bits; len = suc i }) s)

-- The body of the loop over the prefixes; the sizes that are printed are the second component.
unfoldable pub count_nexthops :
    PrefixMap → Prefix → List Prefix × List ℕ → Option (List Prefix × List ℕ)
unfolding shorten
count_nexthops pmap pvi s = elim (member pvi s.0) [
  | false ↦ some s
  | true ↦ do r ← shorten pmap pvi.addr pvi.len (s.0, []); some (r.0, s.1 ++ length r.1 ∷ [])
]

-- `pfxlist` is sorted afterwards.
unfoldable pub test_prefix_nexthop : Globals → Option (Globals × List ℕ)
unfolding sort all_prefixes count_nexthops
test_prefix_nexthop g = do
  let sorted = sort g.pfxlist
  s ← each sorted (count_nexthops g.pmap) (all_prefixes g.pfxlist [], [])
  some (record g { pfxlist = sorted }, s.1)

note_nexthop-length :
    (pmap : PrefixMap) (p : Prefix) (s : List Prefix × List ℕ)
    → length (note_nexthop pmap p s).1 ≤ length s.1 + 1
unfolding note_nexthop
note_nexthop-length pmap p s = elim (Option-cases (find pmap p)) [
  | inl absent ↦ rw (note_nexthop, absent) (omega arith)
  | inr (nexthop, here) ↦ rw (note_nexthop, here) (length-insert nexthop s.1).1
]

-- At most one next hop for each length.
shorten-Returns :
    (pmap : PrefixMap) (addr i : ℕ) (s : List Prefix × List ℕ)
    → i ≤ 32
    → Returns (λ r. length r.1 ≤ length s.1 + i) (shorten pmap addr i s)
unfolding shorten
shorten-Returns pmap addr zero s short = (s, refl, omega arith)
shorten-Returns pmap addr (suc i) s short =
    let bits = mask-ones (suc i) (omega arith) short in
    let p : Prefix = record {
      addr = bit_and addr (ones (suc i) * 2 ^ (32 - suc i));
      len = suc i;
    } in
    let (r, run, le) = shorten-Returns pmap addr i (note_nexthop pmap p s) (omega arith) in
    (r, rw (bits, ◌>>=◌) run, omega (arith, le, note_nexthop-length pmap p s))

Elem-put : (p q : Prefix) (qs : List Prefix) → Elem q (put p qs) → (q ≡ p) ⊎ Elem q qs
unfolding put
Elem-put p q [] = λ m. elim m [ inl e ↦ inl e | inr none_left ↦ absurd none_left ]
Elem-put p q (r ∷ qs) = elim (Bool-cases (lt r p)) [
  | inl before ↦ rw before (λ m. elim m [
    | inl e ↦ inr (inl e)
    | inr m' ↦ elim (Elem-put p q qs m') [ inl e ↦ inl e | inr old ↦ inr (inr old) ]
  ])
  | inr after ↦ rw after (λ m. m)
]

Elem-sort : (q : Prefix) (ps : List Prefix) → Elem q (sort ps) → Elem q ps
unfolding sort
Elem-sort q [] m = m
Elem-sort q (p ∷ ps) m = elim (Elem-put p q (sort ps) m) [
  | inl e ↦ inl e
  | inr old ↦ inr (Elem-sort q ps old)
]

pub test_prefix_nexthop-Returns :
    (g : Globals)
    → ((p : Prefix) → Elem p g.pfxlist → p.len ≤ 32)
    → Returns (λ r. (k : ℕ) → Elem k r.1 → k ≤ 32) (test_prefix_nexthop g)
unfolding test_prefix_nexthop count_nexthops
test_prefix_nexthop-Returns g short =
    let sorted = sort g.pfxlist in
    let (s, run, (_, few)) =
      each-Returns
        (λ rest t. ((p : Prefix) → Elem p rest → p.len ≤ 32) × ((k : ℕ) → Elem k t.1 → k ≤ 32))
        (count_nexthops g.pmap) sorted (all_prefixes g.pfxlist [], [])
        (λ p rest t (lens, few). elim (Bool-cases (member p t.0)) [
          | inr gone ↦ (t, rw (count_nexthops, gone) refl, (λ q m. lens q (inr m), few))
          | inl here ↦
              let (r, run, le) =
                shorten-Returns g.pmap p.addr p.len (t.0, []) (lens p (inl refl)) in
              (
                (r.0, t.1 ++ length r.1 ∷ []),
                rw (count_nexthops, here, run, ◌>>=◌) refl,
                (
                  λ q m. lens q (inr m),
                  λ k m. elim (Elem-append_one k (length r.1) t.1 m) [
                    | inl old ↦ few k old
                    | inr e ↦ omega (arith, e, le, lens p (inl refl))
                  ],
                ),
              )
        ])
        (λ p m. short p (Elem-sort p g.pfxlist m), λ k m. absurd m) in
    ((record g { pfxlist = sorted }, s.1), rw (run, ◌>>=◌) refl, few)
