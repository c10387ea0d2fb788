-- ===== src/Fib/Macs/Totals.antt =====
-- What `perform_mac_lookup` counts.
use buffalo.Bloom.{BloomFilter}
use buffalo.Common.{
  ℕ, ◌+◌, ◌*◌, ◌%◌, ◌^◌, ◌<◌, ltb, lt→ltb, if◌then◌else◌, ◌≡◌, refl, List, [], ◌∷◌, some, arith,
  length, Returns, ◌>>=◌,
}
use buffalo.EtherAddress.{EtherAddress}
use buffalo.FilterBank.{as_int}
use buffalo.Fib.Macs.{Counters, count_packet, fetchmac, tally, errors, mac_loop, perform_mac_lookup}
use buffalo.Rand.{Rand}

-- The packets with more than one hit, and all the hits together.
unfoldable pub several : (EtherAddress → ℕ) → List EtherAddress → ℕ
several hits [] = 0
several hits (p ∷ ps) = (if ltb 1 (hits p) then 1 else 0) + several hits ps

unfoldable pub total : (EtherAddress → ℕ) → List EtherAddress → ℕ
total hits [] = 0
total hits (p ∷ ps) = hits p + total hits ps

module _ (R : Rand) (nhindex : ℕ → ℕ) (filters : List BloomFilter) (nhlist : List ℕ)
    (hits : EtherAddress → ℕ) where
  -- The filters answer for every packet, with that many hits.
  abbrev pub Answered : List EtherAddress → Type 0
  Answered [] = Unit
  Answered (p ∷ ps) = (errors R nhindex filters nhlist p ≡ some (hits p)) × Answered ps

  mac_loop-several :
      (ps : List EtherAddress) (t : Counters)
      → Answered ps
      → t.avgerror + total hits ps < 2 ^ 31
      → t.packet_count < 2 ^ 64
      → Returns
          (λ u.
            (u.falsepos ≡ t.falsepos + several hits ps)
            × (u.packet_count ≡ (t.packet_count + 2 * length ps) % 2 ^ 64))
          (mac_loop R nhindex filters nhlist ps t)
  unfolding mac_loop several total fetchmac count_packet tally as_int
  mac_loop-several [] t answered small counted = (t, refl, (omega arith, omega arith))
  mac_loop-several (p ∷ ps) t answered small counted =
      let next : Counters = record {
        falsepos = (if ltb 1 (hits p) then t.falsepos + 1 else t.falsepos);
        maxerror = (if ltb t.maxerror (hits p) then hits p else t.maxerror);
        avgerror = t.avgerror + hits p;
        packet_count = ((t.packet_count + 1) % 2 ^ 64 + 1) % 2 ^ 64;
      } in
      let (u, run, (falsepos, packets)) =
        mac_loop-several ps next answered.1 (omega arith) (omega arith) in
      (
        u,
        rw (answered.0, ◌>>=◌, lt→ltb (t.avgerror + hits p) (2 ^ 31) (omega arith)) run,
        (ground arith, omega (arith, packets)),
      )

  -- Let the filters of the next hops answer for every packet without a fault, with fewer than
  -- 2^31 hits together, and let there be fewer than 2^63 packets. From a `packet_count` of 0
  -- `perform_mac_lookup` then ends: it counts the packets with more than one hit, and divides by
  -- twice the number of packets.
  pub perform_mac_lookup-several :
      (ps : List EtherAddress)
      → Answered ps
      → total hits ps < 2 ^ 31
      → length ps < 2 ^ 63
      → Returns
          (λ u. (u.0 ≡ several hits ps) × (u.1 ≡ 2 * length ps))
          (perform_mac_lookup R nhindex filters nhlist ps 0)
  unfolding perform_mac_lookup
  perform_mac_lookup-several ps answered small few =
      let (u, run, (falsepos, packets)) =
        mac_loop-several ps (record { falsepos = 0; maxerror = 0; avgerror = 0; packet_count = 0 })
          answered (omega arith) (omega arith) in
      (
        (u.falsepos, u.packet_count),
        rw (run, ◌>>=◌) refl,
        (omega (arith, falsepos), omega (arith, packets)),
      )
