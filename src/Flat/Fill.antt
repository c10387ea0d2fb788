-- ===== src/Flat/Fill.antt =====
-- What one block, and the blocks of one route, add to the table.
use buffalo.Common.Dict.{lookup, assign, value, nat_key}
use buffalo.Common.{
  ℕ, zero, suc, ◌+◌, ◌%◌, ◌^◌, ◌<◌, Bool, true, false, Bool-cases, ◌||◌, ◌≡◌, refl, sym, ap, ◌∙◌,
  if◌then◌else◌, List, [], ◌∷◌, Option, none, some, inl, inr, Option-cases, ◌++◌, length, Returns,
  Returns-bind, ◌>>=◌,
}
use buffalo.Common.OrdSet.{insert}
use buffalo.Fib.{PrefixMap, find}
use buffalo.Fib.Build.Filled.{get_elem?-some}
use buffalo.Flat.Reach.{visited, reaches}
use buffalo.Flat.{
  DataScheme, data_routeview, data_funet, data_internet2, Line, funet_line, internet2_line, Table,
  line_of, fill, fill_blocks,
}
use buffalo.Prefix.Equal.{prefix_key, prefix_order, eq_iff}
use buffalo.Prefix.{Prefix, eq}

-- The next hop of the first of the routes that reaches `q`.
unfoldable pub first_nexthop : (Prefix → ℕ) → List Prefix → Prefix → Option ℕ
unfolding reaches
first_nexthop nexthop [] q = none
first_nexthop nexthop (other ∷ otherlist) q =
    if reaches other q then some (nexthop other) else first_nexthop nexthop otherlist q

abbrev pub or_else : Option ℕ → Option ℕ → Option ℕ
or_else (some a) b = some a
or_else none b = b

-- Each number of a next hop has a text.
abbrev pub Room : DataScheme → Table → Type 0
Room data_routeview t = Unit
Room data_funet t = Unit
Room data_internet2 t = (nexthop : ℕ) → value t.nhmap nexthop < length t.nhstr

pub find-assign :
    (p q : Prefix) (v : ℕ) (m : PrefixMap)
    → find (assign p v m) q ≡ (if eq p q then some v else find m q)
unfolding find lookup
find-assign p q v m = refl

-- The blocks of `r` that had no entry get the next hop `v`.
pub record Filled (ds : DataScheme) (v : ℕ) (r : Prefix → Bool) (t u : Table) : Type 0 where
  pub entries :
      (q : Prefix) → find u.pmap q ≡ or_else (find t.pmap q) (if r q then some v else none)
  pub room : Room ds u

or_else_same :
    (o : Option ℕ) (b c : Bool) (v : ℕ)
    → or_else (or_else o (if b then some v else none)) (if c then some v else none)
      ≡ or_else o (if b || c then some v else none)
or_else_same (some a) b c v = refl
or_else_same none true c v = refl
or_else_same none false c v = refl

Filled-trans :
    (ds : DataScheme) (v : ℕ) (r s : Prefix → Bool) (t u w : Table)
    → Filled ds v r t u
    → Filled ds v s u w
    → Filled ds v (λ q. r q || s q) t w
Filled-trans ds v r s t u w a b = record {
  entries = λ q.
      b.entries q
      ∙ ap (λ o. or_else o (if s q then some v else none)) (a.entries q)
      ∙ or_else_same (find t.pmap q) (r q) (s q) v;
  room = b.room;
}

-- An entry stays.
pub entry-Filled :
    (ds : DataScheme) (v : ℕ) (r : Prefix → Bool) (t u : Table) (q : Prefix) (a : ℕ)
    → Filled ds v r t u
    → find t.pmap q ≡ some a
    → find u.pmap q ≡ some a
entry-Filled ds v r t u q a filled e =
    filled.entries q ∙ ap (λ o. or_else o (if r q then some v else none)) e

pub or_else-none : (o : Option ℕ) → o ≡ or_else o none
or_else-none (some a) = refl
or_else-none none = refl

Filled-self : (ds : DataScheme) (v : ℕ) (t : Table) → Room ds t → Filled ds v (λ q. false) t t
Filled-self ds v t room = record { entries = λ q. or_else-none (find t.pmap q); room = room }

line_of-some :
    (ds : DataScheme) (p : Prefix) (t : Table)
    → Room ds t
    → (line : List Line) × (line_of ds p t ≡ some line)
unfolding line_of
line_of-some data_routeview p t room = ([], refl)
line_of-some data_funet p t room = (funet_line p.addr p.len (value t.pmap p) ∷ [], refl)
line_of-some data_internet2 p t room =
    let (str, here) = get_elem?-some t.nhstr (value t.nhmap (value t.pmap p)) (room _) in
    (internet2_line p str ∷ [], rw (here, ◌>>=◌) refl)

value-find : (m : PrefixMap) (q : Prefix) (v : ℕ) → find m q ≡ some v → value m q ≡ v
unfolding value find lookup
value-find m q v e = rw e refl

-- An entry is there already, so nothing is to fill.
blocked :
    (p q : Prefix) (v a : ℕ) (m : PrefixMap)
    → find m p ≡ some a
    → find m q ≡ or_else (find m q) (if eq p q then some v else none)
blocked p q v a m here = elim (Bool-cases (eq p q)) [
  | inl e ↦
      let same = (eq_iff p q).0 e in
      let there : find m q ≡ some a = ap (find m) (sym same) ∙ here in rw there refl
  | inr n ↦ rw n (or_else-none (find m q))
]

assigned :
    (p q : Prefix) (v : ℕ) (m : PrefixMap)
    → find m p ≡ none
    → find (assign p v m) q ≡ or_else (find m q) (if eq p q then some v else none)
assigned p q v m absent = find-assign p q v m ∙ elim (Bool-cases (eq p q)) [
  | inl e ↦
      let same = (eq_iff p q).0 e in
      let there : find m q ≡ none = ap (find m) (sym same) ∙ absent in rw (e, there) refl
  | inr n ↦ rw n (or_else-none (find m q))
]

-- The table changes that leave the numbers of the next hops alone.
Room-same :
    (ds : DataScheme) (t u : Table) → t.nhmap ≡ u.nhmap → t.nhstr ≡ u.nhstr → Room ds t → Room ds u
Room-same data_routeview t u e e' room = tt
Room-same data_funet t u e e' room = tt
Room-same data_internet2 t u e e' room = λ nexthop. rw (sym e, sym e') (room nexthop)

pub fill-Filled :
    (ds : DataScheme) (other p : Prefix) (v : ℕ) (t : Table)
    → find t.pmap other ≡ some v
    → Room ds t
    → Returns (Filled ds v (λ q. eq p q) t) (fill ds other p t)
unfolding fill
fill-Filled ds other p v t known room = elim (Option-cases (find t.pmap p)) [
  | inl absent ↦
      let nh = value-find t.pmap other v known in
      let filled : Table = record t {
        pfxlist = insert p t.pfxlist;
        pmap = assign p (value t.pmap other) t.pmap;
      } in
      let room' = Room-same ds t filled refl refl room in
      let (line, written) = line_of-some ds p filled room' in
      let u : Table = record filled { out = t.out ++ line } in
      (
        u,
        rw (absent, fill, ◌>>=◌, written) refl,
        record {
          entries = λ q. rw nh (assigned p q v t.pmap absent);
          room = Room-same ds filled u refl refl room';
        },
      )
  | inr (a, here) ↦
      (t, rw (here, fill) refl, record { entries = λ q. blocked p q v a t.pmap here; room = room })
]

pub fill_blocks-Filled :
    (ds : DataScheme) (other : Prefix) (v rounds addr : ℕ) (t : Table)
    → find t.pmap other ≡ some v
    → Room ds t
    → Returns (Filled ds v (visited rounds addr) t) (fill_blocks ds other rounds addr t)
unfolding fill_blocks
fill_blocks-Filled ds other v zero addr t known room = (t, refl, Filled-self ds v t room)
fill_blocks-Filled ds other v (suc rounds) addr t known room =
    let p : Prefix = record { addr = addr; len = 24 } in
    Returns-bind (fill-Filled ds other p v t known room) λ u one.
      let (w, run, more) =
        fill_blocks-Filled ds other v rounds ((addr + 256) % 2 ^ 32) u
          (entry-Filled ds v (λ q. eq p q) t u other v one known) one.room in
      (
        w,
        run,
        Filled-trans ds v (λ q. eq p q) (visited rounds ((addr + 256) % 2 ^ 32)) t u w one more,
      )
