-- ===== src/BfSwitch/Broadcast.antt =====
-- `broadcast` sends one packet to every output but the source.
use buffalo.BfSwitch.{Send, original, copy, broadcast_loop, broadcast}
use buffalo.Common.{
  ℕ, zero, suc, ◌+◌, ◌<◌, ◌==◌, ltb, if◌then◌else◌, ◌≡◌, refl, List, [], ◌∷◌, map, arith,
  Bool-cases, inl, inr, true, lt→ltb, ==_iff, Returns, ◌-◌, min, max,
}

unfoldable pub port_of : Send → ℕ
port_of (original p) = p
port_of (copy p) = p

-- The packets that are sent themselves, not as clones.
unfoldable pub originals : List Send → ℕ
originals [] = 0
originals (original p ∷ ss) = suc (originals ss)
originals (copy p ∷ ss) = originals ss

-- The ports from `i` on, `rounds` of them, without the source.
unfoldable pub other_ports : ℕ → ℕ → ℕ → List ℕ
other_ports source zero i = []
other_ports source (suc rounds) i =
    let rest = other_ports source rounds (i + 1) in if i == source then rest else i ∷ rest

loop-ports :
    (n source rounds i sent : ℕ)
    → map port_of (broadcast_loop n source rounds i sent).0 ≡ other_ports source rounds i
unfolding broadcast_loop other_ports port_of
loop-ports n source zero i sent = refl
loop-ports n source (suc rounds) i sent = elim (Bool-cases (i == source)) [
  | inl here ↦ rw here (loop-ports n source rounds (i + 1) sent)
  | inr there ↦ elim (Bool-cases (ltb (sent + 2) n)) [
    | inl early ↦ rw (there, early, loop-ports n source rounds (i + 1) (sent + 1))
    | inr last ↦ rw (there, last, loop-ports n source rounds (i + 1) (sent + 1))
  ]
]

-- With the source still to come one port fewer than the rounds is sent to.
loop-sent :
    (n source rounds i sent : ℕ)
    → (broadcast_loop n source rounds i sent).1
        + (if ltb source i then 0 else if ltb source (i + rounds) then 1 else 0)
      ≡ sent + rounds
unfolding broadcast_loop
loop-sent n source zero i sent = ground arith
loop-sent n source (suc rounds) i sent = elim (Bool-cases (i == source)) [
  | inl here ↦ rw here (ground (arith, loop-sent n source rounds (i + 1) sent))
  | inr there ↦ rw there (ground (arith, loop-sent n source rounds (i + 1) (sent + 1)))
]

loop-originals :
    (n source rounds i sent : ℕ)
    → let l = broadcast_loop n source rounds i sent in
      originals l.0 + max sent (n - 2) ≡ max l.1 (n - 2)
unfolding broadcast_loop originals
loop-originals n source zero i sent = omega arith
loop-originals n source (suc rounds) i sent = elim (Bool-cases (i == source)) [
  | inl here ↦ rw here (loop-originals n source rounds (i + 1) sent)
  | inr there ↦ elim (Bool-cases (ltb (sent + 2) n)) [
    | inl early ↦
        rw (there, early) (ground (arith, loop-originals n source rounds (i + 1) (sent + 1)))
    | inr last ↦
        rw (there, last) (ground (arith, loop-originals n source rounds (i + 1) (sent + 1)))
  ]
]

-- For a source that is a port both assertions of `broadcast` hold: one packet goes to every other
-- port, in order; all but one of them are clones, and with a single port nothing is sent.
pub broadcast-ports :
    (n source : ℕ)
    → source < n
    → Returns
        (λ sends. (map port_of sends ≡ other_ports source n 0) × (originals sends ≡ min 1 (n - 1)))
        (broadcast n source)
unfolding broadcast
broadcast-ports n source h =
    let l = broadcast_loop n source n 0 0 in
    let sent : l.1 + 1 ≡ n = ground (arith, loop-sent n source n 0 0) in
    let first : ltb source n ≡ true = lt→ltb source n h in
    let second : (l.1 + 1 == n) ≡ true = (==_iff _ _).1 sent in
    (
      l.0,
      rw (first, second),
      (loop-ports n source n 0 0, omega (arith, loop-originals n source n 0 0)),
    )
