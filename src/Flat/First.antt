-- ===== src/Flat/First.antt =====
-- Which next hop a block of length 24 gets: its own, or that of the first route that reaches it.
use Prim.Native.Nat.{bit_and}
use buffalo.Common.Dict.{nat_key}
use buffalo.Common.{
  ℕ, ◌-◌, ◌^◌, ltb, Bool, true, false, Bool-cases, ◌≡◌, refl, ap, ◌∙◌, if◌then◌else◌, List, [], ◌∷◌,
  Option, none, some, Elem, inl, inr, each, Returns, Returns-bind,
}
use buffalo.Fib.{find}
use buffalo.Flat.Reach.{reaches}
use buffalo.Flat.{DataScheme, Table, flatten}
use buffalo.Prefix.Equal.{prefix_key, prefix_order}
use buffalo.Prefix.{Prefix}
use buffalo.Flat.Fill.{
  first_nexthop, or_else, Room, Filled, entry-Filled, or_else-none, fill-Filled, fill_blocks-Filled,
}

flatten-Filled :
    (ds : DataScheme) (other : Prefix) (v : ℕ) (t : Table)
    → find t.pmap other ≡ some v
    → Room ds t
    → Returns (Filled ds v (reaches other) t) (flatten ds other t)
unfolding flatten reaches
flatten-Filled ds other v t known room = elim (Bool-cases (ltb other.len 24)) [
  | inl short ↦
      let (u, run, filled) =
        fill_blocks-Filled ds other v (2 ^ (24 - other.len)) other.addr t known room in
      (u, rw short run, record { entries = λ q. rw short (filled.entries q); room = filled.room })
  | inr at_least ↦ elim (Bool-cases (ltb 24 other.len)) [
    | inl long ↦
        let block : Prefix = record { addr = bit_and other.addr 0xffff_ff00; len = 24 } in
        let (u, run, filled) = fill-Filled ds other block v t known room in
        (
          u,
          rw (at_least, long) run,
          record { entries = λ q. rw (at_least, long) (filled.entries q); room = filled.room },
        )
    | inr same ↦ (
      t,
      rw (at_least, same) refl,
      record { entries = λ q. rw (at_least, same) (or_else-none (find t.pmap q)); room = room },
    )
  ]
]

first-or_else :
    (o : Option ℕ) (b : Bool) (v : ℕ) (later : Option ℕ)
    → or_else (or_else o (if b then some v else none)) later
      ≡ or_else o (if b then some v else later)
first-or_else (some a) b v later = refl
first-or_else none true v later = refl
first-or_else none false v later = refl

-- The loop over the routes ends.
pub flatten-each :
    (ds : DataScheme) (nexthop : Prefix → ℕ) (otherlist : List Prefix) (t : Table)
    → ((o : Prefix) → Elem o otherlist → find t.pmap o ≡ some (nexthop o))
    → Room ds t
    → Returns
        (λ u.
          (q : Prefix)
          → find u.pmap q ≡ or_else (find t.pmap q) (first_nexthop nexthop otherlist q))
        (each otherlist (flatten ds) t)
unfolding each first_nexthop
flatten-each ds nexthop [] t known room = (t, refl, λ q. or_else-none (find t.pmap q))
flatten-each ds nexthop (o ∷ rest) t known room =
    let v = nexthop o in
    Returns-bind (flatten-Filled ds o v t (known o (inl refl)) room) λ u one.
      let (w, run, later) =
        flatten-each ds nexthop rest u
          (λ p m. entry-Filled ds v (reaches o) t u p (nexthop p) one (known p (inr m))) one.room in
      (
        w,
        run,
        λ q.
            later q
            ∙ ap (λ e. or_else e (first_nexthop nexthop rest q)) (one.entries q)
            ∙ first-or_else (find t.pmap q) (reaches o q) v (first_nexthop nexthop rest q),
      )
