-- ===== src/Fib/Main/Ready.antt =====
-- The tables that are read from a file of MAC addresses are fit to build the filters from.
use buffalo.Common.Dict.{
  Dict, lookup, assign, value, value-assign, value-count_up, count_up, nat_key,
}
use buffalo.Common.OrdSet.{insert, nat_order, Elem-insert, Elem-insert_self, Elem-insert_inv}
use buffalo.Common.{
  ℕ, ◌+◌, ◌%◌, ◌^◌, ◌≤◌, ◌<◌, ◌==◌, true, Bool-cases, ◌≡◌, refl, subst, List, [], ◌∷◌, ◌++◌, arith,
  Elem, inl, inr, ◌⊎◌, length, ltb,
}
use buffalo.EtherAddress.Equal.{address_key, eq_self}
use buffalo.EtherAddress.{EtherAddress, eq}
use buffalo.Fib.Build.MacTable.{MacTables}
use buffalo.Fib.Main.{no_tables, index_all}
use buffalo.Fib.Globals.{Globals, add_mac, read_macfib, index_nexthops}

-- After `n` rows: a count is at most `n`, and the lists agree.
record Reading (g : Globals) (n : ℕ) : Type 0 where
  counted : (nh : ℕ) → Elem nh g.nhlist → (0 < value g.nhcount nh)
  few : (nh : ℕ) → value g.nhcount nh ≤ n
  routed : (p : EtherAddress) → Elem p g.maclist → Elem (value g.macmap p) g.nhlist
  few_nexthops : length g.nhlist ≤ n
  some_nexthop : 0 < n → 0 < length g.nhlist

pub length-insert :
    (a : ℕ) (s : List ℕ) → (0 < length (insert a s)) × (length (insert a s) ≤ length s + 1)
unfolding insert
length-insert a [] = (omega arith, omega arith)
length-insert a (b ∷ s) =
    let rest = length-insert a s in
    elim (Bool-cases (ltb a b)) [
      | inl before ↦ rw before (omega arith, omega arith)
      | inr other ↦ elim (Bool-cases (ltb b a)) [
        | inl after ↦ rw (other, after) (omega arith, omega (arith, rest.1))
        | inr same ↦ rw (other, same) (omega arith, omega arith)
      ]
    ]

pub Elem-append_one :
    {A : Type 0} (x y : A) (xs : List A) → Elem x (xs ++ y ∷ []) → Elem x xs ⊎ (x ≡ y)
Elem-append_one x y [] m = elim m [ inl e ↦ inr e | inr none_left ↦ absurd none_left ]
Elem-append_one x y (z ∷ xs) m = elim m [
  | inl e ↦ inl (inl e)
  | inr m' ↦ elim (Elem-append_one x y xs m') [ inl old ↦ inl (inr old) | inr e ↦ inr e ]
]

counts-positive :
    (g : Globals) (n nexthop nh : ℕ)
    → n + 1 < 2 ^ 31
    → Reading g n
    → Elem nh (insert nexthop g.nhlist)
    → 0 < value (count_up nexthop g.nhcount) nh
counts-positive g n nexthop nh room r m =
    rw (value-count_up nexthop nh g.nhcount) elim (Bool-cases (nexthop == nh)) [
      | inl e ↦ rw e (omega (arith, r.few nexthop))
      | inr apart ↦ elim (Elem-insert_inv nh nexthop g.nhlist m) [
        | inl same ↦ absurd (ground (arith, apart, same))
        | inr old ↦ rw apart (r.counted nh old)
      ]
    ]

addresses-routed :
    (g : Globals) (n nexthop : ℕ) (p q : EtherAddress)
    → Reading g n
    → Elem q (g.maclist ++ p ∷ [])
    → Elem (value (assign p nexthop g.macmap) q) (insert nexthop g.nhlist)
addresses-routed g n nexthop p q r m =
    rw (value-assign p q nexthop g.macmap) elim (Bool-cases (eq p q)) [
      | inl e ↦ rw e (Elem-insert_self nexthop g.nhlist)
      | inr apart ↦ elim (Elem-append_one q p g.maclist m) [
        | inl old ↦ rw apart (Elem-insert (value g.macmap q) nexthop g.nhlist (r.routed q old))
        | inr same ↦
            let alike : eq p q ≡ true = rw same (eq_self p) in absurd (ground (arith, alike, apart))
      ]
    ]

add_mac-Reading :
    (p : EtherAddress) (tmp : ℕ) (g : Globals) (n : ℕ)
    → n + 1 < 2 ^ 31
    → Reading g n
    → Reading (add_mac p tmp g) (n + 1)
unfolding add_mac
add_mac-Reading p tmp g n room r = record {
  counted = λ nh. counts-positive g n ((tmp + 100) % 2 ^ 32) nh room r;
  few = λ nh.
      let old = r.few nh in
      let new = r.few ((tmp + 100) % 2 ^ 32) in
      rw (value-count_up ((tmp + 100) % 2 ^ 32) nh g.nhcount) ground arith;
  routed = λ q. addresses-routed g n ((tmp + 100) % 2 ^ 32) p q r;
  few_nexthops = omega (arith, (length-insert ((tmp + 100) % 2 ^ 32) g.nhlist).1, r.few_nexthops);
  some_nexthop = λ positive. (length-insert ((tmp + 100) % 2 ^ 32) g.nhlist).0;
}

read_macfib-Reading :
    (rows : List (EtherAddress × ℕ)) (g : Globals) (n : ℕ)
    → n + length rows < 2 ^ 31
    → Reading g n
    → Reading (read_macfib rows g) (n + length rows)
unfolding read_macfib
read_macfib-Reading [] g n room r = subst (Reading g) (omega arith) r
read_macfib-Reading ((p, tmp) ∷ rows) g n room r =
    subst (Reading (read_macfib rows (add_mac p tmp g))) (omega arith) (
      read_macfib-Reading rows (add_mac p tmp g) (n + 1) (omega arith)
        (add_mac-Reading p tmp g n (omega arith) r))

pub index_nexthops-lt :
    (nhs : List ℕ) (i bound : ℕ) (m : Dict ℕ ℕ)
    → i + length nhs ≤ bound
    → ((nh : ℕ) → value m nh < bound)
    → (nh : ℕ) → value (index_nexthops nhs i m) nh < bound
unfolding index_nexthops
index_nexthops-lt [] i bound m room below = below
index_nexthops-lt (a ∷ nhs) i bound m room below =
    index_nexthops-lt nhs (i + 1) bound (assign a i m) (omega arith)
      λ nh. rw (value-assign a nh i m) (ground (arith, below nh))

read_macfib-nhindex :
    (rows : List (EtherAddress × ℕ)) (g : Globals) → (read_macfib rows g).nhindex ≡ g.nhindex
unfolding read_macfib add_mac
read_macfib-nhindex [] g = refl
read_macfib-nhindex ((p, tmp) ∷ rows) g = read_macfib-nhindex rows (add_mac p tmp g)

-- Between 1 and 2^31 - 1 rows, no more than filters.
pub index_all-MacTables :
    (rows : List (EtherAddress × ℕ)) (n : ℕ)
    → 0 < length rows
    → length rows < 2 ^ 31
    → length rows ≤ n
    → MacTables (index_all (read_macfib rows no_tables)) n
unfolding index_all value lookup
index_all-MacTables rows n positive small few =
    let start : Reading no_tables 0 = record {
      counted = λ nh m. absurd m;
      few = λ nh. omega arith;
      routed = λ p m. absurd m;
      few_nexthops = omega arith;
      some_nexthop = λ h. absurd (omega arith);
    } in
    let r = read_macfib-Reading rows no_tables 0 (omega arith) start in
    record {
      some_nexthop = r.some_nexthop (omega arith);
      counted = λ nh m. (r.counted nh m, omega (arith, r.few nh));
      indexed = λ nh m.
          index_nexthops-lt (read_macfib rows no_tables).nhlist 0 n
            (read_macfib rows no_tables).nhindex (omega (arith, r.few_nexthops))
            (λ k. rw (read_macfib-nhindex rows no_tables) (omega arith)) nh;
      routed = r.routed;
    }
