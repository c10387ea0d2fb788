-- ===== src/Fib/Build/PfxTables.antt =====
-- `create_bloom_filter_pfxlen_each_out`: the tables that it relies on, and the initialisation for no elements.
use buffalo.Bloom.{BloomFilter, bloom_filter_init}
use buffalo.Common.Dict.{value, nat_key}
use buffalo.Common.{
  ℕ, ◌≤◌, ◌<◌, ◌==◌, if◌then◌else◌, ◌≡◌, ◌≢◌, refl, ◌∙◌, List, none, some, Elem, get_elem?-set_self,
  get_elem?-set_ne, set, length, length-set, Returns, ◌>>=◌,
}
use buffalo.Fib.Build.Filled.{Ready, Empty, get_elem?-some}
use buffalo.Fib.Build.{on_filter, pfx_count, pfx_index}
use buffalo.Fib.Globals.{Globals}
use buffalo.Hashing.{Pointer}

-- The initialisation for no elements leaves no table, and the other filters as they are.
pub on_filter-init_none :
    (malloc : ℕ → Pointer) (fs : List BloomFilter) (i size : ℕ)
    → i < length fs
    → Returns
        (λ gs.
          Empty gs i
          × ((k : ℕ) → i ≢ k → Ready fs k → Ready gs k)
          × ((k : ℕ) → i ≢ k → Empty fs k → Empty gs k)
          × (length gs ≡ length fs))
        (on_filter i (bloom_filter_init malloc size 0 10) fs)
unfolding on_filter bloom_filter_init
on_filter-init_none malloc fs i size inside =
    let (f, here) = get_elem?-some fs i inside in
    let g : BloomFilter = record {
      hash_table = none;
      table_size = (if size == 0 then 1 else size);
      element_size = 0;
      function_size = 0;
    } in
    (
      set fs i g,
      rw (here, ◌>>=◌) refl,
      (
        record { filter = g; here = get_elem?-set_self fs i g inside; no_table = refl },
        λ k apart r. record {
          filter = r.filter;
          cells = r.cells;
          used = r.used;
          here = get_elem?-set_ne fs g apart ∙ r.here;
          nonempty = r.nonempty;
          small = r.small;
          holds = r.holds;
        },
        λ k apart e. record {
          filter = e.filter;
          here = get_elem?-set_ne fs g apart ∙ e.here;
          no_table = e.no_table;
        },
        length-set fs i g,
      ),
    )

-- The tables that the loops rely on, for `n` filters: counts that fit an `int`, and indexes that
-- are inside the array and apart.
pub record PfxTables (g : Globals) (n : ℕ) : Type 0 where
  pub some_nexthop : 0 < length g.nhlist
  pub counted : (nh j : ℕ) → 0 < j → j ≤ 32 → (c : ℕ) × (pfx_count g j nh ≡ some c)
  pub indexed : (nh j : ℕ) → Elem nh g.nhlist → j ≤ 32 → pfx_index g j nh < n
  pub apart :
      (a b : ℕ) → Elem a g.nhlist → Elem b g.nhlist → value g.nhindex a ≡ value g.nhindex b → a ≡ b
