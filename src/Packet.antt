-- ===== src/Packet.antt =====
-- packet.cc: for each address of packet-internet2.txt, one of the 2048 addresses from it on that a
-- prefix of fib-i2-nonoverlap.txt covers. The rows and addresses are what is read before the end of
-- the files.
pub mod Sets
pub mod Found
pub mod Funet
pub mod Drawn
use buffalo.Common.OrdSet.{insert, member, nat_order}
use buffalo.Common.{
  ℕ, zero, suc, ◌+◌, ◌-◌, ◌*◌, ◌/◌, ◌%◌, ◌^◌, ◌||◌, Bool, false, if◌then◌else◌, List, [], ◌∷◌,
  Option, none, some, get_elem?, get_or, set, replicate, each, ◌>>=◌,
}
use buffalo.Prefix.{Prefix}
use buffalo.Rand.{Rand}

-- `set<uint32_t> pfx[33]`
abbrev pub Sets : Type 0
Sets = List (List ℕ)

unfoldable pub no_prefixes : Sets
no_prefixes = replicate 33 []

-- `pfx[p.len].insert(p.addr)`; a length of 33 or more is out of bounds.
unfoldable pub add_prefix : Prefix → Sets → Option Sets
add_prefix p pfx = do addrs ← get_elem? pfx p.len; some (set pfx p.len (insert p.addr addrs))

unfoldable pub read_fib : List Prefix → Option Sets
unfolding add_prefix
read_fib rows = each rows add_prefix no_prefixes

-- The loop that sets `contains`, from `j` on; the index is between 1 and 32.
unfoldable pub contains : Sets → ℕ → ℕ → ℕ → Bool
contains pfx test zero j = false
contains pfx test (suc rounds) j =
    member (test / 2 ^ j * 2 ^ j) (get_or pfx (32 - j) []) || contains pfx test rounds (j + 1)

-- The loop that looks for an address, from `i` on; `none` is without a hit.
unfoldable pub probe : Sets → ℕ → ℕ → ℕ → ℕ → Option ℕ
unfolding contains
probe pfx addr offset zero i = none
probe pfx addr offset (suc rounds) i =
    let test = ((offset + i) % 2 ^ 11 + addr) % 2 ^ 32 in
    let rest = probe pfx addr offset rounds (i + 1) in
    if contains pfx test 32 0 then some test else rest

module _ (R : Rand) where
  open R use {State, rand, scale}

  -- One address, of the state of `rand`.
  unfoldable pub draw : Sets → ℕ → State → Option ℕ × State
  unfolding probe
  draw pfx addr s = let (rv, next) = rand s in (probe pfx addr (scale rv (2 ^ 11)) (2 ^ 11) 0, next)

  -- What is written to packets.txt, and how often `error` is printed.
  unfoldable pub draw_all : Sets → List ℕ → State → List ℕ × ℕ
  unfolding draw
  draw_all pfx [] s = ([], 0)
  draw_all pfx (addr ∷ addrs) s =
      let (found, next) = draw pfx addr s in
      let (written, errors) = draw_all pfx addrs next in
      elim found [ none ↦ (written, errors + 1) | some test ↦ (test ∷ written, errors) ]
