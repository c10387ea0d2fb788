-- ===== src/Overlap.antt =====
-- overlap.cc: a forwarding table whose prefixes are split until none contains another. The rows
-- are what `ifs >> ...` yields before it fails.
pub mod Cover
pub mod Rounds
pub mod Apart
pub mod Split
pub mod Done
pub mod Best
pub mod Sound
pub mod Kept
pub mod Numbered
pub mod Internet2
pub mod Names
use Prim.Native.Nat.{bit_and}
use buffalo.Common.Dict.{Dict, assign, value, nat_key}
use buffalo.Common.OrdSet.{insert, member, erase}
use buffalo.Common.{
  ℕ, suc, ◌+◌, ◌-◌, ◌*◌, ◌%◌, ◌^◌, ◌==◌, ltb, ◌&&◌, Bool, true, false, if◌then◌else◌, List, [], ◌∷◌,
  ◌++◌, Option, none, some, each, for, ◌>>=◌,
}
use buffalo.Fib.Globals.{FunetRow}
use buffalo.Fib.{PrefixMap}
use buffalo.Prefix.Equal.{prefix_key, prefix_order}
use buffalo.Prefix.{Prefix, ne, contains}

-- `alllist`, `newlist` and `pmap`
pub record Splitting : Type 0 where
  pub alllist : List Prefix
  pub newlist : List Prefix
  pub pmap : PrefixMap

-- A row of a FUNET file.
unfoldable pub add_row : FunetRow → Splitting → Splitting
add_row row s =
    let p : Prefix = record { addr = row.addr; len = row.len % 2 ^ 8 } in
    record s { pmap = assign p row.tmp s.pmap; alllist = insert p s.alllist }

unfoldable pub read_rows : List FunetRow → Splitting → Splitting
unfolding add_row
read_rows [] s = s
read_rows (row ∷ rows) s = read_rows rows (add_row row s)

-- The loop that sets `ifcontain`.
unfoldable pub contains_other : Prefix → List Prefix → Option Bool
contains_other p [] = some false
contains_other p (q ∷ qs) =
    let rest = contains_other p qs in
    let tested = contains p q >>= (λ within. if within then some true else rest) in
    if ne p q then tested else rest

-- `0xffffffff << (32 - len - 1)`, for a length below 32.
unfoldable pub half_mask : ℕ → ℕ
half_mask len = 0xffff_ffff * 2 ^ (31 - len) % 2 ^ 32

unfoldable pub lower_half : Prefix → Prefix
unfolding half_mask
lower_half p = record { addr = bit_and p.addr (half_mask p.len); len = (p.len + 1) % 2 ^ 8 }

unfoldable pub upper_half : Prefix → Prefix
unfolding half_mask
upper_half p = record {
  addr = bit_and ((p.addr + 2 ^ (31 - p.len)) % 2 ^ 32) (half_mask p.len);
  len = (p.len + 1) % 2 ^ 8;
}

-- A half that is not in the set yet takes the next hop of the whole.
unfoldable pub add_half : Prefix → Prefix → Splitting → Splitting
add_half whole half s = if member half s.newlist then s else record s {
  newlist = insert half s.newlist;
  pmap = assign half (value s.pmap whole) s.pmap;
}

-- The statements for a prefix of the length of the round.
unfoldable pub split : Prefix → Splitting → Option Splitting
unfolding contains_other lower_half upper_half add_half
split p s = do
  ifcontain ← contains_other p s.newlist
  let without = record s { newlist = erase p s.newlist }
  let halved = add_half p (upper_half p) (add_half p (lower_half p) without)
  some (if ifcontain then halved else s)

-- The round for the length `j`.
unfoldable pub split_length : ℕ → Splitting → Option Splitting
unfolding split
split_length j s = do
  done ←
      each s.alllist (λ p t. let parted = split p t in if p.len == j then parted else some t)
        (record s { newlist = s.alllist })
  some (record done { alllist = done.newlist })

-- The rounds for the lengths 1 to 31.
unfoldable pub split_all : Splitting → Option Splitting
unfolding split_length
split_all = for 31 1 split_length

-- The pairs for which `error` is printed.
unfoldable pub errors_of : Prefix → List Prefix → Option (List (Prefix × Prefix))
errors_of p [] = some []
errors_of p (q ∷ qs) = do
  let rest = errors_of p qs
  let found = do later ← rest; some ((p, q) ∷ later)
  let tested = contains q p >>= (λ within. if within then found else rest)
  if ne q p && ltb q.len p.len then tested else rest

unfoldable pub check_overlap : List Prefix → List Prefix → Option (List (Prefix × Prefix))
unfolding errors_of
check_overlap [] alllist = some []
check_overlap (p ∷ ps) alllist = do
  first ← errors_of p alllist
  rest ← check_overlap ps alllist
  some (first ++ rest)

-- The lines of overlap.txt.
unfoldable pub written : Splitting → List Prefix → List FunetRow
unfolding value
written s [] = []
written s (p ∷ ps) = record { addr = p.addr; len = p.len; tmp = value s.pmap p } ∷ written s ps

-- `main` for a FUNET file: the pairs of the check, and the lines.
unfoldable pub overlap_funet : List FunetRow → Option (List (Prefix × Prefix) × List FunetRow)
unfolding read_rows split_all check_overlap written
overlap_funet rows = do
  s ← split_all (read_rows rows (record { alllist = []; newlist = []; pmap = [] }))
  errors ← check_overlap s.alllist s.alllist
  some (errors, written s s.alllist)
