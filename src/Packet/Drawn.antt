-- ===== src/Packet/Drawn.antt =====
-- The packets that are written: each is covered by the file, and one is found where there is one.
use buffalo.Common.{
  ℕ, ◌+◌, ◌-◌, ◌%◌, ◌^◌, ◌<◌, ◌≡◌, refl, ap, ◌∙◌, List, [], ◌∷◌, some, arith, Elem, inl, inr,
  Option-cases,
}
use buffalo.Fib.Blocks.{block}
use buffalo.Packet.Found.{Covered, contains_complete, probe_sound, probe_complete}
use buffalo.Packet.Sets.{Listed, read_fib-member}
use buffalo.Packet.{Sets, read_fib, probe, draw, draw_all}
use buffalo.Prefix.{Prefix}
use buffalo.Rand.{Rand}

same_block : (test l : ℕ) → record { addr = (block test l).addr; len = l } ≡ block test l
unfolding block
same_block test l = refl

Covered-Listed :
    (rows : List Prefix) (pfx : Sets) (test : ℕ)
    → read_fib rows ≡ some pfx
    → Covered pfx test
    → Listed rows test
Covered-Listed rows pfx test e (l, positive, short, here) = (
  l,
  positive,
  short,
  rw (same_block test l) at ((read_fib-member rows pfx e l (block test l).addr).0 here),
)

turn : (a k : ℕ) → k < 2 ^ 11 → (a + (k + (2 ^ 11 - a % 2 ^ 11)) % 2 ^ 11) % 2 ^ 11 ≡ k
turn a k h = omega arith

module _ (R : Rand) (rows : List Prefix) (pfx : Sets) where
  open R use {State, rand, scale}

  -- For prefixes that are read, and an address with a covered one among the 2048 from it on: the
  -- program finds one. It is one of the 2048 too, and covered by a prefix of the file.
  pub draw-Listed :
      (addr k : ℕ) (s : State)
      → read_fib rows ≡ some pfx
      → k < 2 ^ 11
      → Listed rows ((addr + k) % 2 ^ 32)
      → (test n : ℕ) × ((draw R pfx addr s).0 ≡ some test)
        × Listed rows test
        × (n < 2 ^ 11)
        × (test ≡ (addr + n) % 2 ^ 32)
  unfolding draw
  draw-Listed addr k s e inside (l, positive, short, m) =
      let rv = (rand s).0 in
      let offset = scale rv (2 ^ 11) in
      let n = (k + (2 ^ 11 - offset % 2 ^ 11)) % 2 ^ 11 in
      let tried = (addr + k) % 2 ^ 32 in
      let at_n : ((offset + n) % 2 ^ 11 + addr) % 2 ^ 32 ≡ tried =
        ap (λ x. (x + addr) % 2 ^ 32) (turn offset k inside) ∙ omega arith in
      let here =
        (read_fib-member rows pfx e l (block tried l).addr).1 (rw (same_block tried l) m) in
      let covered = contains_complete pfx tried 32 0 l refl (omega arith) positive here in
      let (test, run) =
        probe_complete pfx addr offset (2 ^ 11) 0 n (omega arith) (omega arith) (rw at_n covered) in
      let (sound, i, few, from) = probe_sound pfx addr offset (2 ^ 11) 0 test run in
      (test, i, run, Covered-Listed rows pfx test e sound, few, from)

  -- For prefixes that are read: each packet written is covered by a prefix of the file.
  pub draw_all-Listed :
      (addrs : List ℕ) (s : State) (test : ℕ)
      → read_fib rows ≡ some pfx
      → Elem test (draw_all R pfx addrs s).0
      → Listed rows test
  unfolding draw_all draw
  draw_all-Listed [] s test e m = absurd m
  draw_all-Listed (addr ∷ addrs) s test e m =
      let (rv, next) = rand s in
      elim (Option-cases (probe pfx addr (scale rv (2 ^ 11)) (2 ^ 11) 0)) [
        | inl miss ↦ draw_all-Listed addrs next test e (rw (miss, draw_all) at m)
        | inr (found, hit) ↦ elim (rw (hit, draw_all) at m) [
          | inl same ↦
              let sound = (probe_sound pfx addr (scale rv (2 ^ 11)) (2 ^ 11) 0 found hit).0 in
              Covered-Listed rows pfx test e (rw same sound)
          | inr m' ↦ draw_all-Listed addrs next test e m'
        ]
      ]
