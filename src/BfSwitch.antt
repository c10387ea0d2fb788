-- ===== src/BfSwitch.antt =====
-- bfclick/ip/bfswitch.cc: the Click element that forwards by the filter bank.
pub mod Broadcast
use buffalo.Common.{
  ℕ, zero, suc, ◌+◌, ◌==◌, ltb, if◌then◌else◌, List, [], ◌∷◌, Option, none, some, ◌>>=◌,
}
use buffalo.FilterBank.{FilterBank, bloom_filter, initialize, etherlookup}
use buffalo.Hashing.{Pointer}

-- The second and third 16-bit word of an Ethernet address; the first is not read.
pub record Words : Type 0 where
  pub word1 : ℕ
  pub word2 : ℕ

-- What becomes of a packet: `output(port).push` of the packet itself or of a clone, or `kill`.
pub data Send : Type 0 where
  original : ℕ → Send
  copy : ℕ → Send

pub data Outcome : Type 0 where
  output : ℕ → Outcome
  kill : Outcome

-- The constructor of the element.
unfoldable pub bf_switch : (ℕ → Pointer) → FilterBank → Option FilterBank
bf_switch alloc memory = initialize alloc (bloom_filter memory)

-- The branches of `push` on the port that the lookup found; `none` is its -1.
unfoldable pub decision : ℕ → Option ℕ → Outcome
decision source none = output 0
decision source (some outport) = if outport == source then kill else output outport

-- `push(source, p)` for a packet to `dst`
unfoldable pub push : ℕ → Words → FilterBank → Option Outcome
push source dst bf = do outport ← etherlookup dst.word1 dst.word2 bf; some (decision source outport)

-- The loop of `broadcast`, from port `i` on with `rounds` ports left, and the count `sent`. In
-- `sent < n - 2` both sides are signed.
unfoldable pub broadcast_loop : ℕ → ℕ → ℕ → ℕ → ℕ → List Send × ℕ
broadcast_loop n source zero i sent = ([], sent)
broadcast_loop n source (suc rounds) i sent =
    let skipped = broadcast_loop n source rounds (i + 1) sent in
    let later = broadcast_loop n source rounds (i + 1) (sent + 1) in
    if i == source
    then skipped
    else ((if ltb (sent + 2) n then copy i else original i) ∷ later.0, later.1)

-- `broadcast(source, p)` with `n` outputs; a failed assertion is `none`. The last one reads
-- `sent == n - 1`.
unfoldable pub broadcast : ℕ → ℕ → Option (List Send)
unfolding broadcast_loop
broadcast n source =
    let (sends, sent) = broadcast_loop n source n 0 0 in
    if ltb source n then (if sent + 1 == n then some sends else none) else none
