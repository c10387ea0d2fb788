-- ===== src/EtherAddress.antt =====
-- etheraddress.h: Ethernet addresses as three 16-bit words, and flows as pairs of them.
pub mod Equal
pub mod Order
pub mod Seed
use buffalo.Common.{
  ℕ, ◌+◌, ◌*◌, ◌/◌, ◌%◌, ◌^◌, ◌<◌, Bool, true, false, ◌==◌, ltb, if◌then◌else◌, ◌&&◌, ◌||◌,
}

-- `uint16_t addr[3]`
pub record EtherAddress : Type 0 where
  pub addr0 : ℕ
  pub addr1 : ℕ
  pub addr2 : ℕ

-- The words are 16 bits wide.
pub record IsValid (p : EtherAddress) : Type 0 where
  pub word0 : p.addr0 < 2 ^ 16
  pub word1 : p.addr1 < 2 ^ 16
  pub word2 : p.addr2 < 2 ^ 16

unfoldable pub zero_address : EtherAddress
zero_address = record { addr0 = 0; addr1 = 0; addr2 = 0 }

-- `EtherAddress(uint32_t a)`: each word takes the low 16 bits of what is stored in it, and
-- `a << 16` is cut to 32 bits.
unfoldable pub of_uint32 : ℕ → EtherAddress
of_uint32 a = record {
  addr0 = 0x3434;
  addr1 = a / 2 ^ 16 % 2 ^ 16;
  addr2 = a * 2 ^ 16 % 2 ^ 32 / 2 ^ 16 % 2 ^ 16;
}

-- `operator==`
unfoldable pub eq : EtherAddress → EtherAddress → Bool
eq p q = if p.addr0 == q.addr0 && (p.addr1 == q.addr1 && p.addr2 == q.addr2) then true else false

-- `operator!=`
unfoldable pub ne : EtherAddress → EtherAddress → Bool
ne p q = if p.addr0 == q.addr0 && (p.addr1 == q.addr1 && p.addr2 == q.addr2) then false else true

-- `operator<`
unfoldable pub lt : EtherAddress → EtherAddress → Bool
lt p q =
    if ltb p.addr0 q.addr0
    then true
    else if p.addr0 == q.addr0
    then ltb p.addr1 q.addr1 || (p.addr1 == q.addr1 && ltb p.addr2 q.addr2)
    else false

-- `class Flow`
pub record Flow : Type 0 where
  pub from : EtherAddress
  pub to : EtherAddress

unfoldable pub flow_eq : Flow → Flow → Bool
flow_eq f g = if eq f.from g.from && eq f.to g.to then true else false

unfoldable pub flow_ne : Flow → Flow → Bool
flow_ne f g = if eq f.from g.from && eq f.to g.to then false else true

unfoldable pub flow_lt : Flow → Flow → Bool
flow_lt f g = if lt f.from g.from then true else if eq f.from g.from then lt f.to g.to else false

-- The argument of `srand` in the filters, `(addr[1] << 16) + addr[2]`, as an unsigned int.
unfoldable pub seed : EtherAddress → ℕ
seed p = (p.addr1 * 2 ^ 16 + p.addr2) % 2 ^ 32
