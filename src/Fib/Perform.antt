-- ===== src/Fib/Perform.antt =====
-- BloomFilterTest.cc: `perform_pfxlen_each_out`, which samples addresses and compares the filters
-- with `linear_lookup`.
-- `HASH_BIT` is 1; the branch for 0 stands in Fib/Bits.
pub mod Judged
pub mod Agreement
use buffalo.Bloom.{BloomFilter}
use buffalo.Common.{
  ℕ, zero, suc, ◌+◌, ◌-◌, ◌%◌, ◌^◌, ◌==◌, ltb, if◌then◌else◌, List, [], ◌∷◌, ◌++◌, Option, none,
  some, length, ◌>>=◌,
}
use buffalo.Fib.Globals.{Globals, DataScheme, data_routeview, data_funet, data_internet2, data_mac}
use buffalo.Fib.Search.{Found, ask_filters}
use buffalo.Fib.{linear_lookup}
use buffalo.FilterBank.{as_int}
use buffalo.Rand.{Rand}

-- The variables that the loop changes. `packets` is what is left of packet.txt, as the numbers
-- that it yields, and `detail` and `correct` are the addresses written to the two files.
pub record Sampling : Type 0 where
  pub packets : List ℕ
  pub xseed : ℕ
  pub packet_count : ℕ
  pub i : ℕ
  pub falsepos : ℕ
  pub falseneg : ℕ
  pub maxerror : ℕ
  pub avgerror : ℕ
  pub detail : List ℕ
  pub correct : List ℕ

-- `unsigned long long test_samples` before the loop
unfoldable pub samples_wanted : DataScheme → Globals → ℕ
samples_wanted data_routeview g = length g.pfxlist
samples_wanted data_funet g = 999_999
samples_wanted data_internet2 g = 999_999
samples_wanted data_mac g = 0

-- After `linear_lookup`: the counts, of type `int`; none of them is above `avgerror`.
unfoldable pub judge : ℕ → Found → ℕ → Sampling → Option Sampling
judge addr found linearnh s = do
  avgerror ← as_int (s.avgerror + found.error)
  let several = ltb 1 found.error
  some (record s {
    falseneg = (if found.nh == linearnh then s.falseneg else s.falseneg + 1);
    falsepos = (if several then s.falsepos + 1 else s.falsepos);
    detail = (if several then s.detail ++ addr ∷ [] else s.detail);
    correct = (if several then s.correct else s.correct ++ addr ∷ []);
    avgerror = avgerror;
    maxerror = (if ltb s.maxerror found.error then found.error else s.maxerror);
  })

-- `i --; packet_count --; continue;`, where `i ++` of the loop then takes the first one back.
unfoldable pub uncount : Sampling → Sampling
uncount s = record s { packet_count = (s.packet_count + (2 ^ 64 - 1)) % 2 ^ 64 }

-- `if (i > 10) i = 5;`
unfoldable pub rewind : Sampling → Sampling
rewind s = record s { i = (if ltb 10 s.i then 5 else s.i) }

-- The random and the file addresses. `mixed r addr` is
-- `(uint32_t)(r/(double)RAND_MAX * exp2(11) + addr)` in double arithmetic.
module _ (R : Rand) (mixed : ℕ → ℕ → ℕ) where
  open R use {srand, rand, scale}

  -- `randomip`; a value of 2^32 does not fit its result and is undefined.
  unfoldable pub randomip : Sampling → Option (ℕ × Sampling)
  randomip s =
      let r = (rand (srand s.xseed)).0 in
      let addr = scale r (2 ^ 32) in
      if ltb addr (2 ^ 32) then some (addr, record s { xseed = r }) else none

  unfoldable pub fetchip : DataScheme → Sampling → ℕ × Sampling
  fetchip scheme s = elim s.packets [
    | [] ↦ (0, s)
    | addr ∷ packets ↦
        let counted = record s {
          packets = packets;
          packet_count = (s.packet_count + 1) % 2 ^ 64;
        } in
        let r = (rand (srand s.xseed)).0 in
        elim scheme [
          | data_funet ↦ (addr, counted)
          | data_internet2 ↦ (mixed r addr, record counted { xseed = r })
          | _ ↦ (0, s)
        ]
  ]

  module _ (g : Globals) (filters : List BloomFilter) where
    -- The body of the loop from the lookup on, with `i ++`.
    unfoldable pub sample : ℕ → Sampling → Option Sampling
    unfolding judge uncount
    sample addr s = do
      found ← ask_filters R g filters addr
      let linearnh = linear_lookup g.pmap addr 32
      let judged = do t ← judge addr found linearnh s; some (record t { i = (t.i + 1) % 2 ^ 32 })
      if found.error == 0
          then some (uncount s)
          else if linearnh == 0
          then some (uncount s)
          else judged

    -- The loop. With random addresses nothing bounds the number of rounds, hence the fuel.
    unfoldable pub sample_loop : ℕ → DataScheme → Sampling → Option Sampling
    unfolding sample randomip fetchip rewind samples_wanted
    sample_loop zero scheme s = none
    sample_loop (suc fuel) scheme s =
        let again = λ (addr : ℕ) (t : Sampling). sample addr t >>= sample_loop fuel scheme in
        let drawn = randomip s >>= (λ (addr, t). again addr t) in
        let fetched = fetchip scheme s in
        let read = if fetched.0 == 0 then some fetched.1 else again fetched.0 (rewind fetched.1) in
        if ltb s.i (samples_wanted scheme g)
        then elim scheme [ data_routeview ↦ drawn | _ ↦ read ]
        else some s

    -- The two numbers whose quotient is returned.
    unfoldable pub perform_pfxlen_each_out : ℕ → DataScheme → List ℕ → ℕ → ℕ → Option (ℕ × ℕ)
    unfolding sample_loop
    perform_pfxlen_each_out fuel scheme packets xseed packet_count = do
      s ← sample_loop fuel scheme (record {
        packets = packets;
        xseed = xseed;
        packet_count = packet_count;
        i = 0;
        falsepos = 0;
        falseneg = 0;
        maxerror = 0;
        avgerror = 0;
        detail = [];
        correct = [];
      })
      some (s.falsepos, elim scheme [ data_routeview ↦ length g.pfxlist | _ ↦ s.packet_count ])
