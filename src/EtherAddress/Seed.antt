-- ===== src/EtherAddress/Seed.antt =====
-- The seed that the filters take from an address.
use buffalo.Common.{ℕ, ◌<◌, ◌^◌, ◌≡◌, ◌↔◌, arith}
use buffalo.EtherAddress.{EtherAddress, IsValid, of_uint32, seed}

-- The constructor keeps its 32-bit argument: the words are in range and the seed gives it back.
pub seed-of_uint32 : (a : ℕ) → a < 2 ^ 32 → IsValid (of_uint32 a) × (seed (of_uint32 a) ≡ a)
unfolding of_uint32 seed
seed-of_uint32 a h = (omega arith, omega arith)

pub seed-eq_iff :
    (p q : EtherAddress)
    → IsValid p
    → IsValid q
    → (seed p ≡ seed q) ↔ ((p.addr1 ≡ q.addr1) × (p.addr2 ≡ q.addr2))
unfolding seed
seed-eq_iff p q vp vq = (omega arith, omega arith)
