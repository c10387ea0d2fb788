-- ===== src/Tests/Packets.antt =====
-- Two packets, and two next hops whose filter is full.
use buffalo.Bloom.{BloomFilter}
use buffalo.Bloom
use buffalo.Common.{◌*◌, ◌<◌, ◌≡◌, refl, [], ◌∷◌, some, arith, replicate, ◌^◌, Returns}
use buffalo.EtherAddress.{EtherAddress, seed}
use buffalo.Fib.Macs.Totals.{several, total, Answered, perform_mac_lookup-several}
use buffalo.Fib.Macs.{errors, perform_mac_lookup}
use buffalo.Hashing.{contains_loop, read}
use buffalo.Tests.Machine.{digits}

abbrev full : BloomFilter
full = record {
  hash_table = some (replicate 90 1);
  table_size = 90;
  element_size = 1;
  function_size = 8;
}

abbrev one : EtherAddress
one = record { addr0 = 0; addr1 = 0; addr2 = 1 }

abbrev two : EtherAddress
two = record { addr0 = 0; addr1 = 0; addr2 = 2 }

both-Answered :
    Answered digits (λ nexthop. 0) (full ∷ []) (100 ∷ 101 ∷ []) (λ p. 2) (one ∷ two ∷ [])
unfolding errors Bloom.contains contains_loop read seed
both-Answered = (refl, (refl, tt))

few_hits : total (λ p. 2) (one ∷ two ∷ []) < 2 ^ 31
unfolding total
few_hits = omega arith

perform_mac_lookup-several_example :
    Returns
      (λ u. (u.0 ≡ several (λ p. 2) (one ∷ two ∷ [])) × (u.1 ≡ 2 * 2))
      (perform_mac_lookup digits (λ nexthop. 0) (full ∷ []) (100 ∷ 101 ∷ []) (one ∷ two ∷ []) 0)
perform_mac_lookup-several_example =
    perform_mac_lookup-several digits (λ nexthop. 0) (full ∷ []) (100 ∷ 101 ∷ []) (λ p. 2)
      (one ∷ two ∷ []) both-Answered few_hits (omega arith)
