-- ===== src/Prefix.antt =====
-- prefix.h: IPv4 prefixes, an address of 32 bits and a length of 8.
pub mod Equal
pub mod Order
pub mod Contains
pub mod Subset
pub mod Text
use Prim.Native.Nat.{bit_and}
use buffalo.Common.{
  ℕ, ◌+◌, ◌-◌, ◌*◌, ◌%◌, ◌^◌, ◌≤◌, ◌<◌, Bool, true, false, ◌==◌, ltb, leb, if◌then◌else◌, ◌&&◌, not,
  Option, none, some, ◌>>=◌,
}

pub record Prefix : Type 0 where
  pub addr : ℕ
  pub len : ℕ

-- `prefix()`
unfoldable pub empty : Prefix
empty = record { addr = 0; len = 0 }

unfoldable pub eq : Prefix → Prefix → Bool
eq p q = if p.addr == q.addr && p.len == q.len then true else false

unfoldable pub ne : Prefix → Prefix → Bool
ne p q = if p.addr == q.addr && p.len == q.len then false else true

-- `operator<`: the longer prefix comes first.
unfoldable pub lt : Prefix → Prefix → Bool
lt p q = if ltb q.len p.len then true else if p.len == q.len then ltb p.addr q.addr else false

-- `0xffffffff << (32 - len)` in unsigned arithmetic. A shift by 32 or more, or by a negative
-- count, is undefined.
unfoldable pub mask : ℕ → Option ℕ
mask len = if ltb 0 len && leb len 32 then some (0xffff_ffff * 2 ^ (32 - len) % 2 ^ 32) else none

-- `contains`; `none` where the shift is undefined.
unfoldable pub contains : Prefix → Prefix → Option Bool
contains p q =
    if ltb q.len p.len
    then some false
    else if p.len == q.len && not (p.addr == q.addr)
    then some false
    else do m ← mask p.len; some (if p.addr == bit_and q.addr m then true else false)
