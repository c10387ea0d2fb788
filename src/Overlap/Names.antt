-- ===== src/Overlap/Names.antt =====
-- overlap.cc, for Internet2: the text of each line is that of the next hop of the longest match.
use mathlib.Core.Option.{some-injective}
use buffalo.Common.Dict.{Dict, lookup, value, value-assign, nat_key}
use buffalo.Common.OrdSet.{Sorted, insert-Sorted, Elem-insert_inv}
use buffalo.Common.{
  ℕ, ◌<◌, true, Bool-cases, ◌≡◌, refl, sym, ap, ◌∙◌, List, [], ◌∷◌, Option-cases, some, arith, Elem,
  inl, inr, get_elem?, length, length-replicate, each, bind-some, Returns, ◌>>=◌,
}
use buffalo.Fib.Build.Filled.{get_elem?-some}
use buffalo.Flat.{Table, no_routes, number_nexthop}
use buffalo.Overlap.Apart.{AllValid}
use buffalo.Overlap.Best.{Best}
use buffalo.Overlap.Internet2.{add_named, read_named, named_lines, overlap_internet2}
use buffalo.Overlap.Kept.{split_all-one}
use buffalo.Overlap.{Splitting}
use buffalo.Prefix.Equal.{prefix_key, prefix_order, eq_iff}
use buffalo.Prefix.Subset.{Covers}
use buffalo.Prefix.Text.{str2ip}
use buffalo.Prefix.{Prefix, eq}
use buffalo.Overlap.Numbered.{Named, number_nexthop-Named}

-- What is read: sorted prefixes, each with a next hop that has a number.
record Rows (r : Splitting × Table) : Type 0 where
  named : Named r.1
  sorted : Sorted (r.0).alllist
  numbered :
      (p : Prefix)
      → Elem p (r.0).alllist
      → (i : ℕ) × (lookup (r.1).nhmap (value (r.0).pmap p) ≡ some i)

add_named-Rows :
    (row : Prefix × List ℕ) (r u : Splitting × Table) → add_named row r ≡ some u → Rows r → Rows u
unfolding add_named
add_named-Rows (p, str) (s, t) u e rows =
    let (nexthop, reads, run) = bind-some (str2ip str) _ u e in
    let (w, step, run') = bind-some (number_nexthop nexthop str t) _ u run in
    let (named, has, keeps) = number_nexthop-Named nexthop str t w reads step rows.named in
    rw (← some-injective _ _ run') (record {
      named = named;
      sorted = insert-Sorted p s.alllist rows.sorted;
      numbered = λ q m. rw (value-assign p q nexthop s.pmap) (elim (Bool-cases (eq p q)) [
        | inl same ↦ rw same has
        | inr other ↦ elim (Elem-insert_inv q p s.alllist m) [
          | inl alike ↦
              let there : eq p q ≡ true = (eq_iff p q).1 (sym alike) in
              absurd (ground (arith, there, other))
          | inr old ↦
              let (i, known) = rows.numbered q old in rw other (keeps (value s.pmap q) i known)
        ]
      ]);
    })

each-Rows :
    (rows : List (Prefix × List ℕ)) (r u : Splitting × Table)
    → each rows add_named r ≡ some u
    → Rows r
    → Rows u
unfolding each
each-Rows [] r u e p = rw (← some-injective _ _ e) p
each-Rows (row ∷ rows) r u e p =
    let (next, step, run) = bind-some (add_named row r) _ u e in
    each-Rows rows next u run (add_named-Rows row r next step p)

-- Every number leads into the array.
value-room : (t : Table) (nh : ℕ) → Named t → value t.nhmap nh < length t.nhstr
unfolding value
value-room t nh named = elim (Option-cases (lookup t.nhmap nh)) [
  | inl absent ↦ rw absent (omega (arith, named.room))
  | inr (i, here) ↦ rw here (omega (arith, named.room, named.below nh i here, named.full))
]

-- The lines, one for each prefix.
named_lines-Returns :
    (s : Splitting) (t : Table) (ps : List Prefix)
    → Named t
    → Returns
        (λ lines.
          ((p : Prefix)
            → Elem p ps
            → (str : List ℕ) × (get_elem? t.nhstr (value t.nhmap (value s.pmap p)) ≡ some str)
              × Elem (p, str) lines)
          × ((l : Prefix × List ℕ)
              → Elem l lines
              → Elem l.0 ps × (get_elem? t.nhstr (value t.nhmap (value s.pmap l.0)) ≡ some l.1)))
        (named_lines s t ps)
unfolding named_lines
named_lines-Returns s t [] named = ([], refl, (λ p m. absurd m, λ l m. absurd m))
named_lines-Returns s t (p ∷ ps) named =
    let (str, here) =
      get_elem?-some t.nhstr (value t.nhmap (value s.pmap p))
        (value-room t (value s.pmap p) named) in
    let (lines, run, (all, only)) = named_lines-Returns s t ps named in
    (
      (p, str) ∷ lines,
      rw (here, ◌>>=◌, run) refl,
      (
        λ q m. elim m [
          | inl e ↦ (str, rw e here, inl (ap (λ x. (x, str)) e))
          | inr m' ↦ let (str', here', n) = all q m' in (str', here', inr n)
        ],
        λ l m. elim m [
          | inl e ↦ (inl (ap (λ x. x.0) e), rw e here)
          | inr m' ↦ let (n, here') = only l m' in (inr n, here')
        ],
      ),
    )

no_routes-Named : Named no_routes
unfolding no_routes lookup
no_routes-Named = record {
  room = length-replicate {A = List ℕ} 1000 [];
  below = λ nh i e. cc;
  full = omega arith;
  text = λ nh i e. cc;
}

value-of_lookup : (m : Dict ℕ ℕ) (nh i : ℕ) → lookup m nh ≡ some i → value m nh ≡ i
unfolding value
value-of_lookup m nh i e = rw e refl

-- From a file for Internet2 that is read to valid prefixes, of lengths 1 to 32: the program ends, its
-- check prints no error, and for an address whose longest match in the file has the next hop `w`,
-- exactly one of the lines that it writes has a prefix that covers the address, and the text of
-- that line reads as `w`.
pub overlap_internet2-Best :
    (rows : List (Prefix × List ℕ)) (s : Splitting) (t : Table)
    → read_named rows ≡ some (s, t)
    → AllValid s.alllist
    → Returns
        (λ (errors, lines).
          (errors ≡ [])
          × ((x w : ℕ)
              → Best s.alllist s x w
              → (q : Prefix) × (str : List ℕ) × Elem (q, str) lines
                × Covers q x
                × (str2ip str ≡ some w)
                × ((l : Prefix × List ℕ) → Elem l lines → Covers l.0 x → l ≡ (q, str))))
        (overlap_internet2 rows)
unfolding overlap_internet2 read_named
overlap_internet2-Best rows s t read valid =
    let begin : Splitting × Table = (record { alllist = []; newlist = []; pmap = [] }, no_routes) in
    let r : Rows (s, t) =
      each-Rows rows begin (s, t) read
        (record { named = no_routes-Named; sorted = tt; numbered = λ p m. absurd m }) in
    let (u, run, (checked, one)) = split_all-one s valid r.sorted in
    let (lines, run', (all, only)) = named_lines-Returns u t u.alllist r.named in
    (
      ([], lines),
      rw (read, ◌>>=◌, run, checked, run') refl,
      (
        refl,
        λ x w b.
            let (q, m, covers, hop, alone) = one x w b in
            let (i, known) = r.numbered b.match_of b.member_of in
            let known_w : lookup t.nhmap w ≡ some i = ap (lookup t.nhmap) (sym b.nexthop) ∙ known in
            let (name, at_i, reads) = (r.named).text w i known_w in
            let (str, here, n) = all q m in
            let place : value t.nhmap (value u.pmap q) ≡ i =
              ap (value t.nhmap) hop ∙ value-of_lookup t.nhmap w i known_w in
            let same : name ≡ str =
              some-injective _ _ (sym at_i ∙ ap (get_elem? t.nhstr) (sym place) ∙ here) in
            (
              q,
              str,
              n,
              covers,
              ap str2ip (sym same) ∙ reads,
              λ l k c.
                  let (there, text) = only l k in
                  let alike : l.0 ≡ q = alone l.0 there c in
                  let texts : l.1 ≡ str = some-injective _ _ (
                    sym text
                    ∙ ap (λ p. get_elem? t.nhstr (value t.nhmap (value u.pmap p))) alike
                    ∙ here) in
                  λ i. (alike i, texts i),
            ),
      ),
    )
