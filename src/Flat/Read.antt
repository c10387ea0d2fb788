-- ===== src/Flat/Read.antt =====
-- The tables that are read: every route has a next hop, and every next hop a number below 1000.
use mathlib.Core.Option.{some-injective, none-ne-some}
use buffalo.Common.Dict.{lookup, assign, value, value-assign, nat_key}
use buffalo.Common.{
  ℕ, ◌+◌, ◌%◌, ◌^◌, ◌==◌, ltb, true, Bool-cases, ◌≡◌, refl, sym, ◌∙◌, arith, List, [], ◌∷◌, ◌++◌,
  none, some, Option-cases, Elem, inl, inr, ◌⊎◌, set, length, length-set, length-replicate, each,
  Returns, ◌>>=◌,
}
use buffalo.Fib.Globals.{FunetRow}
use buffalo.Fib.{PrefixMap, find}
use buffalo.Flat.Fill.{Room, find-assign, or_else, first_nexthop}
use buffalo.Flat.First.{flatten-each}
use buffalo.Flat.{
  data_funet, data_internet2, Line, funet_line, internet2_line, Table, no_routes, add_route,
  read_funet, number_nexthop, read_internet2, flatten_all, flat_funet, flat_internet2,
}
use buffalo.Prefix.Equal.{prefix_key, prefix_order, eq_iff}
use buffalo.Prefix.Text.{str2ip}
use buffalo.Prefix.{Prefix, eq}

-- The routes that are left for later have an entry.
abbrev Known : Table → Type 0
Known t = (o : Prefix) → Elem o t.otherlist → find t.pmap o ≡ some (value t.pmap o)

entry-assign :
    (p o : Prefix) (v : ℕ) (m : PrefixMap)
    → (eq p o ≡ true) ⊎ (find m o ≡ some (value m o))
    → find (assign p v m) o ≡ some (value (assign p v m) o)
entry-assign p o v m h =
    rw (find-assign p o v m, value-assign p o v m)
      elim h [
        | inl e ↦ rw e refl
        | inr known ↦ elim (Bool-cases (eq p o)) [ inl e ↦ rw e refl | inr n ↦ rw n known ]
      ]

pub Elem-last : {A : Type 0} (x y : A) (xs : List A) → Elem x (xs ++ y ∷ []) → (y ≡ x) ⊎ Elem x xs
Elem-last x y [] m = elim m [ inl e ↦ inl (sym e) | inr none_left ↦ absurd none_left ]
Elem-last x y (z ∷ xs) m = elim m [
  | inl e ↦ inr (inl e)
  | inr m' ↦ elim (Elem-last x y xs m') [ inl e ↦ inl e | inr old ↦ inr (inr old) ]
]

add_route-Known :
    (p : Prefix) (nexthop : ℕ) (line : Line) (t : Table)
    → Known t
    → Known (add_route p nexthop line t)
unfolding add_route
add_route-Known p nexthop line t known = elim (Bool-cases (p.len == 24)) [
  | inl e ↦ rw e λ o m. entry-assign p o nexthop t.pmap (inr (known o m))
  | inr n ↦ rw n λ o m. entry-assign p o nexthop t.pmap elim (Elem-last o p t.otherlist m) [
    | inl e ↦ inl ((eq_iff p o).1 e)
    | inr old ↦ inr (known o old)
  ]
]

read_funet-Known :
    (rows : List FunetRow) (t : Table) → Known t → Returns Known (each rows read_funet t)
unfolding each read_funet
read_funet-Known [] t known = (t, refl, known)
read_funet-Known (row ∷ rows) t known = read_funet-Known rows _ (
    add_route-Known (record { addr = row.addr; len = row.len % 2 ^ 8 }) row.tmp
      (funet_line row.addr row.len row.tmp) t known)

-- For every FUNET file the program ends. A prefix then has the next hop that was read for it, and
-- without one that of the first route of another length than 24, in the order of the file, that
-- reaches it, if there is one.
pub flat_funet-first :
    (rows : List FunetRow)
    → (t : Table) × (each rows read_funet no_routes ≡ some t)
      × Returns
          (λ u.
            (q : Prefix)
            → find u.pmap q ≡ or_else (find t.pmap q) (first_nexthop (value t.pmap) t.otherlist q))
          (flat_funet rows)
unfolding flat_funet flatten_all no_routes
flat_funet-first rows =
    let (t, read, known) = read_funet-Known rows no_routes (λ o m. absurd m) in
    let (u, run, entries) = flatten-each data_funet (value t.pmap) t.otherlist t known tt in
    (t, read, (u, rw (read, ◌>>=◌) run, entries))

-- A next hop that is new gets the next number, and `nhstr` keeps its length.
number_nexthop-Room :
    (nexthop : ℕ) (str : List ℕ) (t u : Table)
    → number_nexthop nexthop str t ≡ some u
    → Room data_internet2 t
    → Room data_internet2 u × (u.pmap ≡ t.pmap) × (u.otherlist ≡ t.otherlist)
unfolding number_nexthop
number_nexthop-Room nexthop str t u e room = elim (Option-cases (lookup t.nhmap nexthop)) [
  | inl absent ↦ elim (Bool-cases (ltb t.index (length t.nhstr))) [
    | inl inside ↦
        let numbered : Table = record t {
          nhmap = assign nexthop t.index t.nhmap;
          nhstr = set t.nhstr t.index str;
          index = t.index + 1;
        } in
        let run : number_nexthop nexthop str t ≡ some numbered =
          rw (absent, number_nexthop, inside) refl in
        let same = some-injective _ _ (sym run ∙ e) in
        rw (← same) (
          λ nh.
              rw (value-assign nexthop nh t.index t.nhmap, length-set t.nhstr t.index str)
                (ground (arith, inside, room nh)),
          refl,
          refl,
        )
    | inr full ↦
        let run : number_nexthop nexthop str t ≡ none = rw (absent, number_nexthop, full) refl in
        absurd (none-ne-some _ (sym run ∙ e))
  ]
  | inr (known, here) ↦
      let run : number_nexthop nexthop str t ≡ some t = rw (here, number_nexthop) refl in
      let same = some-injective _ _ (sym run ∙ e) in rw (← same) (room, refl, refl)
]

Known-same : (t u : Table) → u.pmap ≡ t.pmap → u.otherlist ≡ t.otherlist → Known t → Known u
Known-same t u e e' known = rw (e, e') known

add_route-Room :
    (p : Prefix) (nexthop : ℕ) (line : Line) (t : Table)
    → Room data_internet2 t
    → Room data_internet2 (add_route p nexthop line t)
unfolding add_route
add_route-Room p nexthop line t room = elim (Bool-cases (p.len == 24)) [
  | inl e ↦ rw e room
  | inr n ↦ rw n room
]

no_routes-Known : Known no_routes
unfolding no_routes
no_routes-Known o m = absurd m

no_routes-Room : Room data_internet2 no_routes
unfolding no_routes value lookup
no_routes-Room nh = let no_text : List ℕ = [] in rw (length-replicate 1000 no_text) (omega arith)

read_internet2-Known :
    (p : Prefix) (str : List ℕ) (t u : Table)
    → read_internet2 (p, str) t ≡ some u
    → Known t
    → Room data_internet2 t
    → Known u × Room data_internet2 u
unfolding read_internet2
read_internet2-Known p str t u e known room = elim (Option-cases (str2ip str)) [
  | inl unread ↦
      let run : read_internet2 (p, str) t ≡ none = rw (unread, ◌>>=◌) refl in
      absurd (none-ne-some _ (sym run ∙ e))
  | inr (nexthop, address) ↦ elim (Option-cases (number_nexthop nexthop str t)) [
    | inl full ↦
        let run : read_internet2 (p, str) t ≡ none = rw (address, ◌>>=◌, full) refl in
        absurd (none-ne-some _ (sym run ∙ e))
    | inr (numbered, step) ↦
        let (room', entries, others) = number_nexthop-Room nexthop str t numbered step room in
        let known' = Known-same t numbered entries others known in
        let added = add_route p nexthop (internet2_line p str) numbered in
        let run : read_internet2 (p, str) t ≡ some added = rw (address, ◌>>=◌, step) refl in
        let same = some-injective _ _ (sym run ∙ e) in
        rw (← same) (
          add_route-Known p nexthop (internet2_line p str) numbered known',
          add_route-Room p nexthop (internet2_line p str) numbered room',
        )
  ]
]

read_all-Known :
    (rows : List (Prefix × List ℕ)) (t u : Table)
    → each rows read_internet2 t ≡ some u
    → Known t
    → Room data_internet2 t
    → Known u × Room data_internet2 u
unfolding each
read_all-Known [] t u e known room = rw (← some-injective _ _ e) (known, room)
read_all-Known ((p, str) ∷ rows) t u e known room =
    elim (Option-cases (read_internet2 (p, str) t)) [
      | inl stuck ↦
          let run : each ((p, str) ∷ rows) read_internet2 t ≡ none = rw (stuck, ◌>>=◌) refl in
          absurd (none-ne-some _ (sym run ∙ e))
      | inr (next, step) ↦
          let (known', room') = read_internet2-Known p str t next step known room in
          let run : each ((p, str) ∷ rows) read_internet2 t ≡ each rows read_internet2 next =
            rw (step, ◌>>=◌) refl in
          read_all-Known rows next u (sym run ∙ e) known' room'
    ]

-- For an Internet2 file that is read to its end, with at most 1000 next hops: the program ends, and
-- the next hops are as they are for FUNET.
pub flat_internet2-first :
    (rows : List (Prefix × List ℕ)) (t : Table)
    → each rows read_internet2 no_routes ≡ some t
    → Returns
        (λ u.
          (q : Prefix)
          → find u.pmap q ≡ or_else (find t.pmap q) (first_nexthop (value t.pmap) t.otherlist q))
        (flat_internet2 rows)
unfolding flat_internet2 flatten_all
flat_internet2-first rows t read =
    let (known, room) = read_all-Known rows no_routes t read no_routes-Known no_routes-Room in
    let (u, run, entries) = flatten-each data_internet2 (value t.pmap) t.otherlist t known room in
    (u, rw (read, ◌>>=◌) run, entries)
