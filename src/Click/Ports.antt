-- ===== src/Click/Ports.antt =====
-- The ports of the routes: each is wired, and next hops share none.
use native.Mathlib.Decide.{ℕ_discrete}
use buffalo.Common.Dict.{lookup, nat_key}
use buffalo.Common.{
  ℕ, zero, suc, ◌+◌, ◌≤◌, ◌<◌, ◌≡◌, refl, List, [], ◌∷◌, ◌++◌, some, arith, Elem, inl, inr, each,
  ◌>>=◌,
}
use buffalo.Click.{
  ClickScheme, click_bf, click_range, Line, route, bf_port, range_port, table_end, opening, source,
  add_row, port, ports, click_internet2,
}
use buffalo.Flat.{Table, no_routes}
use buffalo.Prefix.{Prefix}
use buffalo.Click.Numbers.{rows-Routed, no_routes-Routed}

-- The line that wires a port.
unfoldable pub wire : ClickScheme → ℕ → Line
wire click_bf i = bf_port i
wire click_range i = range_port i

Elem-append_left : (x : Line) (xs ys : List Line) → Elem x xs → Elem x (xs ++ ys)
Elem-append_left x [] ys m = absurd m
Elem-append_left x (z ∷ xs) ys m = elim m [
  | inl e ↦ inl e
  | inr m' ↦ inr (Elem-append_left x xs ys m')
]

Elem-append_right : (x : Line) (xs ys : List Line) → Elem x ys → Elem x (xs ++ ys)
Elem-append_right x [] ys m = m
Elem-append_right x (z ∷ xs) ys m = inr (Elem-append_right x xs ys m)

port-wire : (scheme : ClickScheme) (i : ℕ) → Elem (wire scheme i) (port scheme i)
unfolding port wire
port-wire click_bf i = inl refl
port-wire click_range i = inl refl

ports-wire :
    (scheme : ClickScheme) (rounds i n : ℕ)
    → i ≤ n
    → n < i + rounds
    → Elem (wire scheme n) (ports scheme rounds i)
unfolding ports
ports-wire scheme zero i n low high = absurd (omega arith)
ports-wire scheme (suc rounds) i n low high = elim (ℕ_discrete i n) [
  | yes e ↦
      Elem-append_left (wire scheme n) (port scheme i) (ports scheme rounds (i + 1))
        (rw e (port-wire scheme n))
  | no apart ↦
      Elem-append_right (wire scheme n) (port scheme i) (ports scheme rounds (i + 1))
        (ports-wire scheme rounds (i + 1) n (omega (arith, apart)) (omega arith))
]

-- For an Internet2 file that is read to its end: each route is written with the number of a next hop,
-- the configuration wires the port of that number, and no other next hop has the number.
pub click_internet2-wire :
    (scheme : ClickScheme) (rows : List (Prefix × List ℕ)) (t : Table) (out : List Line)
    (p : Prefix) (n : ℕ)
    → each rows add_row (no_routes, []) ≡ some (t, out)
    → Elem (route p n) out
    → (nh : ℕ) × (lookup t.nhmap nh ≡ some n)
      × ((other : ℕ) → lookup t.nhmap other ≡ some n → other ≡ nh)
      × (lines : List Line) × (click_internet2 scheme rows ≡ some lines)
      × Elem (wire scheme n) lines
unfolding click_internet2
click_internet2-wire scheme rows t out p n read m =
    let r = rows-Routed rows no_routes t [] out read no_routes-Routed in
    let (nh, has) = r.named p n m in
    let ported =
      ports-wire scheme t.index 0 n (omega arith) (omega (arith, r.numbered.below nh n has)) in
    (
      nh,
      has,
      (λ other e. r.numbered.apart other nh n e has),
      opening scheme ++ (out ++ (table_end ∷ (source scheme ++ ports scheme t.index 0))),
      rw (read, ◌>>=◌) refl,
      Elem-append_right (wire scheme n) (opening scheme) _ (
          Elem-append_right (wire scheme n) out _ (
            inr
              (Elem-append_right (wire scheme n) (source scheme) (ports scheme t.index 0) ported))),
    )
