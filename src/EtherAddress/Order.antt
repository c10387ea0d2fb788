-- ===== src/EtherAddress/Order.antt =====
-- The comparison operators of etheraddress.h, as the order of the addresses read as numbers.
use buffalo.Common.{ℕ, ◌+◌, ◌*◌, ◌^◌, ◌<◌, ◌≡◌, not, ◌==◌, ltb, arith}
use buffalo.EtherAddress.{EtherAddress, IsValid, eq, ne, lt, Flow, flow_eq, flow_ne, flow_lt}

-- The address as one 48-bit number, the first word highest.
pub value : EtherAddress → ℕ
value p = p.addr0 * 2 ^ 32 + p.addr1 * 2 ^ 16 + p.addr2

-- On valid addresses (three 16-bit words) `==`, `!=` and `<` are those of the 48-bit numbers.
pub eq-ne-lt-value :
    (p q : EtherAddress)
    → IsValid p
    → IsValid q
    → (eq p q ≡ (value p == value q))
      × (ne p q ≡ not (value p == value q))
      × (lt p q ≡ ltb (value p) (value q))
unfolding eq ne lt value
eq-ne-lt-value p q vp vq = (ground arith, ground arith, ground arith)

value-lt : (p : EtherAddress) → IsValid p → value p < 2 ^ 48
unfolding value
value-lt p v = omega arith

-- A flow as one 96-bit number, the source highest.
pub flow_value : Flow → ℕ
flow_value f = value f.from * 2 ^ 48 + value f.to

-- On flows between valid addresses `==`, `!=` and `<` are those of the 96-bit numbers.
pub flow_compare-value :
    (f g : Flow)
    → IsValid f.from
    → IsValid f.to
    → IsValid g.from
    → IsValid g.to
    → (flow_eq f g ≡ (flow_value f == flow_value g))
      × (flow_ne f g ≡ not (flow_value f == flow_value g))
      × (flow_lt f g ≡ ltb (flow_value f) (flow_value g))
unfolding flow_eq flow_ne flow_lt flow_value
flow_compare-value f g a b c d =
    let from = eq-ne-lt-value f.from g.from a c in
    let to = eq-ne-lt-value f.to g.to b d in
    let x = value-lt f.from a in
    let y = value-lt g.from c in
    let z = value-lt f.to b in
    let w = value-lt g.to d in
    rw (from.0, from.2, to.0, to.2) (ground arith, ground arith, ground arith)
