-- ===== src/Tests/Overlaps.antt =====
-- A table with one prefix inside another.
use buffalo.Common.OrdSet.{insert}
use buffalo.Common.{
  ℕ, ◌≡◌, refl, List, [], ◌∷◌, some, set, replicate, each, arith, Elem, inl, inr, Returns,
}
use buffalo.Fib.Globals.{FunetRow}
use buffalo.Overlap.Apart.{AllValid, Lonely}
use buffalo.Overlap.Cover.{Covering}
use buffalo.Overlap.Done.{overlap_funet-Lonely}
use buffalo.Overlap.Best.{Best}
use buffalo.Common.Dict.{lookup, nat_key}
use buffalo.Flat.{Table, no_routes, number_nexthop}
use buffalo.Overlap.Internet2.{read_named, add_named, overlap_internet2}
use buffalo.Overlap.Names.{overlap_internet2-Best}
use buffalo.Prefix.Text.{str2ip, quad_address}
use buffalo.Overlap.Kept.{line_prefix, overlap_funet-Best}
use buffalo.Prefix.Subset.{Covers}
use buffalo.Overlap.{Splitting, read_rows, add_row, written, overlap_funet}
use buffalo.Prefix.Equal.{prefix_key, prefix_order}
use buffalo.Prefix.{Prefix, lt}

abbrev rows : List FunetRow
rows =
    record { addr = 0x0a00_0000; len = 8; tmp = 5 }
    ∷ record { addr = 0x0a40_0000; len = 10; tmp = 6 }
    ∷ []

abbrev begin : Splitting
begin = record { alllist = []; newlist = []; pmap = [] }

abbrev sorted : List Prefix
sorted = record { addr = 0x0a40_0000; len = 10 } ∷ record { addr = 0x0a00_0000; len = 8 } ∷ []

rows-sorted : (read_rows rows begin).alllist ≡ sorted
unfolding read_rows add_row insert lt
rows-sorted = refl

sorted-valid : AllValid sorted
sorted-valid p m = elim m [
  | inl e ↦
      rw e
        (record { positive = omega arith; short = omega arith; bits = omega arith; clear = refl })
  | inr m' ↦ elim m' [
    | inl e ↦
        rw e
          (record { positive = omega arith; short = omega arith; bits = omega arith; clear = refl })
    | inr none_left ↦ absurd none_left
  ]
]

overlap_funet-Lonely_example :
    Returns
      (λ (errors, lines).
        (errors ≡ [])
        × (s : Splitting) × (lines ≡ written s s.alllist)
        × Covering (read_rows rows begin).alllist s.alllist
        × ((p : Prefix) → Elem p s.alllist → Lonely p s.alllist))
      (overlap_funet rows)
overlap_funet-Lonely_example = overlap_funet-Lonely rows (rw rows-sorted sorted-valid)

overlap_funet-Best_example :
    Returns
      (λ (errors, lines).
        (x w : ℕ)
        → Best (read_rows rows begin).alllist (read_rows rows begin) x w
        → (l : FunetRow) × Elem l lines
          × Covers (line_prefix l) x
          × (l.tmp ≡ w)
          × ((k : FunetRow) → Elem k lines → Covers (line_prefix k) x → k ≡ l))
      (overlap_funet rows)
overlap_funet-Best_example = overlap_funet-Best rows (rw rows-sorted sorted-valid)

abbrev text : List ℕ
text = 10 ∷ 0 ∷ 0 ∷ 1 ∷ []

abbrev named_rows : List (Prefix × List ℕ)
named_rows = (record { addr = 0x0a00_0000; len = 8 }, text) ∷ []

abbrev named : Splitting
named = record {
  alllist = record { addr = 0x0a00_0000; len = 8 } ∷ [];
  newlist = [];
  pmap = (record { addr = 0x0a00_0000; len = 8 }, 0x0a00_0001) ∷ [];
}

abbrev names : Table
names = record {
  pfxlist = [];
  pmap = [];
  otherlist = [];
  nhmap = (0x0a00_0001, 0) ∷ [];
  nhstr = set (replicate 1000 []) 0 text;
  index = 1;
  out = [];
}

names-read : read_named named_rows ≡ some (named, names)
unfolding read_named add_named buffalo.Common.each no_routes str2ip quad_address number_nexthop
    lookup insert
names-read = refl

named-valid : AllValid named.alllist
named-valid p m = sorted-valid p (inr m)

overlap_internet2-Best_example :
    Returns
      (λ (errors, lines).
        (errors ≡ [])
        × ((x w : ℕ)
            → Best named.alllist named x w
            → (q : Prefix) × (str : List ℕ) × Elem (q, str) lines
              × Covers q x
              × (str2ip str ≡ some w)
              × ((l : Prefix × List ℕ) → Elem l lines → Covers l.0 x → l ≡ (q, str))))
      (overlap_internet2 named_rows)
overlap_internet2-Best_example =
    overlap_internet2-Best named_rows named names names-read named-valid
