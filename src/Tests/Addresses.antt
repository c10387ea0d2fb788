-- ===== src/Tests/Addresses.antt =====
-- Ethernet addresses, flows and prefixes.
use buffalo.Common.{ℕ, ◌≡◌, ◌==◌, ◌↔◌, not, ltb, refl, true, some, arith}
use buffalo.EtherAddress.Order.{flow_value, flow_compare-value}
use buffalo.EtherAddress.Seed.{seed-eq_iff}
use buffalo.Prefix.Order.{rank, eq-ne-lt-rank}
use buffalo.EtherAddress.{EtherAddress, IsValid, seed, Flow, flow_eq, flow_ne, flow_lt}
use buffalo.Prefix
use buffalo.Prefix.Contains.{lead}
use buffalo.Prefix.Subset.{Covers, contains_iff-subset}
use buffalo.Prefix.{Prefix, contains, eq, ne, lt}

abbrev low : EtherAddress
low = record { addr0 = 1; addr1 = 65535; addr2 = 2 }

abbrev high : EtherAddress
high = record { addr0 = 2; addr1 = 65535; addr2 = 2 }

low-IsValid : IsValid low
low-IsValid = record { word0 = omega arith; word1 = omega arith; word2 = omega arith }

high-IsValid : IsValid high
high-IsValid = record { word0 = omega arith; word1 = omega arith; word2 = omega arith }

-- 10.0.0.0/8 and 10.1.0.0/16
abbrev wide : Prefix
wide = record { addr = 0x0a00_0000; len = 8 }

abbrev narrow : Prefix
narrow = record { addr = 0x0a01_0000; len = 16 }

wide-IsValid : Prefix.Contains.IsValid wide
wide-IsValid = record {
  positive = omega arith;
  short = omega arith;
  bits = omega arith;
  clear = refl;
}

narrow-IsValid : Prefix.Contains.IsValid narrow
narrow-IsValid = record {
  positive = omega arith;
  short = omega arith;
  bits = omega arith;
  clear = refl;
}

contains_iff-subset_example :
    (contains wide narrow ≡ some true) ↔ ((a : ℕ) → Covers narrow a → Covers wide a)
contains_iff-subset_example = contains_iff-subset wide narrow wide-IsValid narrow-IsValid

seed-eq_iff_example : (seed low ≡ seed high) ↔ ((low.addr1 ≡ high.addr1) × (low.addr2 ≡ high.addr2))
seed-eq_iff_example = seed-eq_iff low high low-IsValid high-IsValid

eq-ne-lt-rank_example :
    (eq wide narrow ≡ (rank wide == rank narrow))
    × (ne wide narrow ≡ not (rank wide == rank narrow))
    × (lt wide narrow ≡ ltb (rank wide) (rank narrow))
eq-ne-lt-rank_example =
    eq-ne-lt-rank wide narrow (omega arith) (omega arith) (omega arith) (omega arith)

abbrev there : Flow
there = record { from = low; to = high }

abbrev back : Flow
back = record { from = high; to = low }

flow_compare-value_example :
    (flow_eq there back ≡ (flow_value there == flow_value back))
    × (flow_ne there back ≡ not (flow_value there == flow_value back))
    × (flow_lt there back ≡ ltb (flow_value there) (flow_value back))
flow_compare-value_example =
    flow_compare-value there back low-IsValid high-IsValid high-IsValid low-IsValid
