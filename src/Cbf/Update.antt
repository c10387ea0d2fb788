-- ===== src/Cbf/Update.antt =====
-- `update_bf` on all ten ports.
use buffalo.Bloom.{BloomFilter}
use buffalo.Cbf.Fold.{folded, copy_loop-Folded}
use buffalo.Cbf.{Tables, nexthop_count, copied_size, update_port, update_bf}
use buffalo.Common.{
  ℕ, zero, suc, ◌≤◌, ◌<◌, ◌≡◌, refl, sym, ◌∙◌, ◌≢◌, List, [], ◌∷◌, some, arith, get_elem?,
  get_elem?-set_self, get_elem?-set_ne, set, length, for-Returns, Returns, ◌>>=◌, ap,
}
use native.Mathlib.Decide.{ℕ_discrete}
use buffalo.Counting.{CountingBloomFilter}
use buffalo.Hashing.Iterate.{cell}

-- A port as `update_bf` expects it: its counters are `source` and its plain filter is `f`.
pub record IsPort (s : Tables) (i : ℕ) (source t : List ℕ) (f : BloomFilter) : Type 0 where
  pub filter : get_elem? s.bf i ≡ some f
  pub points : f.hash_table ≡ some t
  pub width : length t ≡ f.table_size
  pub nonempty : 0 < f.table_size
  pub counting : CountingBloomFilter
  pub counters : get_elem? s.cbf i ≡ some counting
  pub counter_points : counting.hash_table ≡ some source
  pub enough : copied_size ≤ length source

-- The ten ports, as families over the port.
abbrev pub IsReady : (ℕ → List ℕ) → (ℕ → List ℕ) → (ℕ → BloomFilter) → Tables → Type 0
IsReady sources ts fs s = (i : ℕ) → i < nexthop_count → IsPort s i (sources i) (ts i) (fs i)

-- The filter of port `i` after the update.
abbrev pub IsFolded : List ℕ → List ℕ → BloomFilter → ℕ → Tables → Type 0
IsFolded source t f i s =
    (u : List ℕ) × (get_elem? s.bf i ≡ some (record f { hash_table = some u }))
    × (length u ≡ f.table_size)
    × ((r : ℕ) → cell u r ≡ folded f.table_size source t copied_size r)

get_elem?-bound {ℓ} :
    {A : Type ℓ} (xs : List A) (i : ℕ) (x : A) → get_elem? xs i ≡ some x → i < length xs
get_elem?-bound [] i x e = cc
get_elem?-bound (y ∷ xs) zero x e = omega arith
get_elem?-bound (y ∷ xs) (suc i) x e = omega (arith, get_elem?-bound xs i x e)

-- One port is folded, and every other port is as it was.
record Updates (source t : List ℕ) (f : BloomFilter) (i : ℕ) (s s' : Tables) : Type 0 where
  here : IsFolded source t f i s'
  others : (j : ℕ) → i ≢ j → get_elem? s'.bf j ≡ get_elem? s.bf j
  same : s'.cbf ≡ s.cbf

update_port-Updates :
    (s : Tables) (i : ℕ) (source t : List ℕ) (f : BloomFilter)
    → IsPort s i source t f
    → Returns (Updates source t f i s) (update_port i s)
unfolding update_port
update_port-Updates s i source t f port =
    let (p, run, (u, e, width, cells)) =
      copy_loop-Folded f.table_size copied_size source t port.nonempty port.width port.enough in
    let g : BloomFilter = record f { hash_table = some u } in
    (
      record s { bf = set s.bf i g },
      rw (port.counters, ◌>>=◌, port.filter, port.counter_points, port.points, run, e) refl,
      record {
        here =
            (u, get_elem?-set_self s.bf i g (get_elem?-bound s.bf i f port.filter), width, cells);
        others = λ j apart. get_elem?-set_ne s.bf g apart;
        same = refl;
      },
    )

module _ (sources ts : ℕ → List ℕ) (fs : ℕ → BloomFilter) where
  -- After the ports below `k`.
  record Done (k : ℕ) (s : Tables) : Type 0 where
    done : (i : ℕ) → i < k → IsFolded (sources i) (ts i) (fs i) i s
    left : (i : ℕ) → k ≤ i → i < nexthop_count → IsPort s i (sources i) (ts i) (fs i)

  still :
      (s s' : Tables) (j : ℕ)
      → get_elem? s'.bf j ≡ get_elem? s.bf j
      → s'.cbf ≡ s.cbf
      → IsPort s j (sources j) (ts j) (fs j)
      → IsPort s' j (sources j) (ts j) (fs j)
  still s s' j e same port = record {
    filter = e ∙ port.filter;
    points = port.points;
    width = port.width;
    nonempty = port.nonempty;
    counting = port.counting;
    counters = ap (λ c. get_elem? c j) same ∙ port.counters;
    counter_points = port.counter_points;
    enough = port.enough;
  }

  update_port-Done :
      (k : ℕ) (s : Tables) → k < nexthop_count → Done k s → Returns (Done (suc k)) (update_port k s)
  update_port-Done k s h d =
      let (s', run, after) =
        update_port-Updates s k (sources k) (ts k) (fs k) (d.left k (omega arith) h) in
      (
        s',
        run,
        record {
          done = λ i lt. elim (ℕ_discrete i k) [
            | yes now ↦ rw now after.here
            | no before ↦
                let (u, at, width, cells) = d.done i (omega arith) in
                (u, after.others i (λ e. before (sym e)) ∙ at, width, cells)
          ];
          left = λ i le lt.
              still s s' i (after.others i (omega arith)) after.same (d.left i (omega arith) lt);
        },
      )

  -- On ten ports whose plain tables are nonempty and whose counter tables have at least 1048576
  -- cells `update_bf` ends without a fault. Each cell of a plain filter then holds the counter at
  -- the last index below 1048576 that is the cell's modulo the filter's size; a cell with no such
  -- index is as it was.
  pub update_bf-IsFolded :
      (s : Tables) (i : ℕ)
      → i < nexthop_count
      → IsReady sources ts fs s
      → Returns (IsFolded (sources i) (ts i) (fs i) i) (update_bf s)
  unfolding update_bf
  update_bf-IsFolded s i h ready =
      let (s', run, d) =
        for-Returns Done nexthop_count update_port nexthop_count 0 s (omega arith)
          (λ k t lo hi. update_port-Done k t hi)
          (record { done = λ j lt. absurd (omega arith); left = λ j le lt. ready j lt }) in
      (s', run, d.done i h)
