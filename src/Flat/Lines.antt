-- ===== src/Flat/Lines.antt =====
-- The lines that the reader of FUNET rows writes in flat.cc, packet.cc and click.cc.
use buffalo.Common.{
  ℕ, Bool, ◌%◌, ◌^◌, ◌==◌, Bool-cases, if◌then◌else◌, ◌≡◌, refl, inl, inr, sym, ◌∙◌, ap, List, [],
  ◌∷◌, ◌++◌, each, Returns,
}
use buffalo.Fib.Globals.{FunetRow}
use buffalo.Prefix.{Prefix}
use buffalo.Flat.{Table, Line, funet_line, read_funet, add_route}

-- The rows of length 24, as they stand in the file.
unfoldable pub kept_lines : List FunetRow → List Line
kept_lines [] = []
kept_lines (row ∷ rows) =
    let rest = kept_lines rows in
    if row.len % 2 ^ 8 == 24 then funet_line row.addr row.len row.tmp ∷ rest else rest

append_nil : (xs : List Line) → xs ++ [] ≡ xs
append_nil [] = refl
append_nil (x ∷ xs) = ap (λ ys. x ∷ ys) (append_nil xs)

append_one : (xs : List Line) (y : Line) (ys : List Line) → (xs ++ y ∷ []) ++ ys ≡ xs ++ y ∷ ys
append_one [] y ys = refl
append_one (x ∷ xs) y ys = ap (λ zs. x ∷ zs) (append_one xs y ys)

-- What a row adds to the lines.
abbrev line_if : Bool → Line → List Line → List Line
line_if full line rest = if full then line ∷ rest else rest

add_route-out :
    (p : Prefix) (nexthop : ℕ) (line : Line) (t : Table) (rest : List Line)
    → ((add_route p nexthop line t).out ++ rest ≡ t.out ++ line_if (p.len == 24) line rest)
      × ((add_route p nexthop line t).index ≡ t.index)
unfolding add_route
add_route-out p nexthop line t rest = elim (Bool-cases (p.len == 24)) [
  | inl full ↦ (rw full (append_one t.out line rest), rw full refl)
  | inr other ↦ (rw other refl, rw other refl)
]

pub read_funet-out :
    (rows : List FunetRow) (t : Table)
    → Returns
        (λ u. (u.out ≡ t.out ++ kept_lines rows) × (u.index ≡ t.index))
        (each rows read_funet t)
unfolding each read_funet kept_lines
read_funet-out [] t = (t, refl, (sym (append_nil t.out), refl))
read_funet-out (row ∷ rows) t =
    let p : Prefix = record { addr = row.addr; len = row.len % 2 ^ 8 } in
    let line = funet_line row.addr row.len row.tmp in
    let (u, run, (out, index)) = read_funet-out rows (add_route p row.tmp line t) in
    let (here, same) = add_route-out p row.tmp line t (kept_lines rows) in
    (u, run, (out ∙ here, index ∙ same))
