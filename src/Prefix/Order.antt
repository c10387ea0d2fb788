-- ===== src/Prefix/Order.antt =====
-- The comparison operators of prefix.h.
use buffalo.Common.{ℕ, ◌+◌, ◌-◌, ◌*◌, ◌^◌, ◌≤◌, ◌<◌, ◌≡◌, not, ◌==◌, ltb, arith}
use buffalo.Prefix.{Prefix, eq, ne, lt}

-- Longer prefixes first, then by address.
pub rank : Prefix → ℕ
rank p = (255 - p.len) * 2 ^ 32 + p.addr

-- On prefixes of 32-bit addresses and 8-bit lengths `==`, `!=` and `<` are those of the ranks,
-- which put longer prefixes first.
pub eq-ne-lt-rank :
    (p q : Prefix)
    → p.addr < 2 ^ 32
    → q.addr < 2 ^ 32
    → p.len ≤ 255
    → q.len ≤ 255
    → (eq p q ≡ (rank p == rank q))
      × (ne p q ≡ not (rank p == rank q))
      × (lt p q ≡ ltb (rank p) (rank q))
unfolding eq ne lt rank
eq-ne-lt-rank p q a b c d = (ground arith, ground arith, ground arith)
