-- ===== src/Fib/Macs.antt =====
-- BloomFilterTest.cc: the lookups of Ethernet addresses and what they count.
pub mod Totals
use buffalo.Bloom
use buffalo.Bloom.{BloomFilter}
use buffalo.Common.{
  ℕ, ◌+◌, ◌*◌, ◌%◌, ◌^◌, ◌==◌, ltb, if◌then◌else◌, List, [], ◌∷◌, Option, none, some, get_elem?,
  ◌>>=◌,
}
use buffalo.EtherAddress.{EtherAddress}
use buffalo.FilterBank.{as_int}
use buffalo.Rand.{Rand}

-- The local variables of `perform_mac_lookup` that its loop changes, and the global
-- `packet_count`.
pub record Counters : Type 0 where
  pub falsepos : ℕ
  pub maxerror : ℕ
  pub avgerror : ℕ
  pub packet_count : ℕ

-- `packet_count ++`
unfoldable pub count_packet : Counters → Counters
count_packet t = record t { packet_count = (t.packet_count + 1) % 2 ^ 64 }

-- `fetchmac`; `packets` is what is left of the file.
unfoldable pub fetchmac :
    List EtherAddress → Counters → Option (EtherAddress × List EtherAddress) × Counters
unfolding count_packet
fetchmac [] t = (none, t)
fetchmac (p ∷ packets) t = (some (p, packets), count_packet t)

-- The last lines of the loop, for a packet with `error` hits. The counts are of type `int`; none
-- of them is above `avgerror`.
unfoldable pub tally : ℕ → Counters → Option Counters
tally error t = do
  avgerror ← as_int (t.avgerror + error)
  some (record {
    falsepos = (if ltb 1 error then t.falsepos + 1 else t.falsepos);
    maxerror = (if ltb t.maxerror error then error else t.maxerror);
    avgerror = avgerror;
    packet_count = t.packet_count;
  })

module _ (R : Rand) (nhindex : ℕ → ℕ) (nh_pfxlen_filter : List BloomFilter) where
  -- The next hops whose filter answers 1. `nhindex` is 0 where the map has no entry.
  unfoldable pub errors : List ℕ → EtherAddress → Option ℕ
  errors [] p = some 0
  errors (nexthop ∷ nhlist) p = do
    filter ← get_elem? nh_pfxlen_filter (nhindex nexthop)
    check ← Bloom.contains R p filter
    error ← errors nhlist p
    some (if check == 1 then error + 1 else error)

  -- The loop, and the two numbers whose quotient is returned.
  unfoldable pub mac_loop : List ℕ → List EtherAddress → Counters → Option Counters
  unfolding errors tally fetchmac count_packet
  mac_loop nhlist [] t = some (fetchmac [] t).1
  mac_loop nhlist (p ∷ packets) t = do
    error ← errors nhlist p
    counted ← tally error (count_packet (fetchmac (p ∷ packets) t).1)
    mac_loop nhlist packets counted

  unfoldable pub perform_mac_lookup : List ℕ → List EtherAddress → ℕ → Option (ℕ × ℕ)
  unfolding mac_loop
  perform_mac_lookup nhlist packets packet_count = do
    t ←
        mac_loop nhlist packets
          (record { falsepos = 0; maxerror = 0; avgerror = 0; packet_count = packet_count })
    some (t.falsepos, t.packet_count)
