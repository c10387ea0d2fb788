-- ===== src/Tests/Ports.antt =====
-- Ten ports whose counters are all 0.
use buffalo.Bloom.{BloomFilter}
use buffalo.Cbf.Update.{IsReady, IsFolded, update_bf-IsFolded}
use buffalo.Cbf.{Tables, nexthop_count, copied_size, update_bf}
use buffalo.Common.{
  ℕ, ◌≤◌, ◌<◌, ◌≡◌, zero, suc, get_elem?, refl, List, [], ◌∷◌, some, arith, replicate, length,
  length-replicate, Returns,
}
use buffalo.Counting.{CountingBloomFilter}

get_elem?-replicate {ℓ} :
    {A : Type ℓ} (n i : ℕ) (x : A) → i < n → get_elem? (replicate n x) i ≡ some x
get_elem?-replicate zero i x h = elim h [ ]
get_elem?-replicate (suc n) zero x h = refl
get_elem?-replicate (suc n) (suc i) x h = get_elem?-replicate n i x (omega arith)

abbrev plain : BloomFilter
plain = record {
  hash_table = some (9 ∷ 9 ∷ 9 ∷ []);
  table_size = 3;
  element_size = 1;
  function_size = 8;
}

-- A list of `n` ones. It is opaque, so that the million cells stay folded.
ones_list : (n : ℕ) → (t : List ℕ) × (n ≤ length t)
ones_list n = (replicate n 1, omega (arith, length-replicate {A = ℕ} n 1))

abbrev counters : List ℕ
counters = (ones_list copied_size).0

abbrev counting : CountingBloomFilter
counting = record {
  hash_table = some counters;
  table_size = copied_size;
  element_size = 1;
  function_size = 8;
}

abbrev ports : Tables
ports = record {
  mac = 0;
  bf = replicate nexthop_count plain;
  cbf = replicate nexthop_count counting;
}

ports-IsReady : IsReady (λ i. counters) (λ i. 9 ∷ 9 ∷ 9 ∷ []) (λ i. plain) ports
ports-IsReady i h = record {
  filter = get_elem?-replicate nexthop_count i plain h;
  points = refl;
  width = refl;
  nonempty = omega arith;
  counting = counting;
  counters = get_elem?-replicate nexthop_count i counting h;
  counter_points = refl;
  enough = (ones_list copied_size).1;
}

update_bf-IsFolded_example : Returns (IsFolded counters (9 ∷ 9 ∷ 9 ∷ []) plain 4) (update_bf ports)
update_bf-IsFolded_example =
    update_bf-IsFolded (λ i. counters) (λ i. 9 ∷ 9 ∷ 9 ∷ []) (λ i. plain) ports 4 (omega arith)
      ports-IsReady
