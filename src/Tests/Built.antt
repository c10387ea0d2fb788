-- ===== src/Tests/Built.antt =====
-- The filters that are built from a file of two prefixes, in full, and a lookup at which both of
-- its next hops hit.
use buffalo.Bloom.{
  BloomFilter, bloom_filter_init, zero_loop, insert_prefix, insert_seed, mark, contains_prefix,
  contains_seed,
}
use buffalo.Common.Dict.{lookup, value, count_up}
use buffalo.Common.OrdSet.{insert}
use buffalo.Common.{
  ℕ, ◌+◌, ◌==◌, ==_iff, ◌≡◌, refl, ap, subst, List, [], ◌∷◌, Option, none, some, arith, Bool, true,
  false, not, ◌||◌, ◌&&◌, all_below, all_below_sound, Elem, inl, inr, replicate, Returns, each, for,
}
use buffalo.Fib.Blocks.{block}
use buffalo.Fib.Build.{
  create_bloom_filter_pfxlen_each_out, total_count, pfx_count, init_pfx_filters, init_pfx,
  insert_pfx_list, insert_pfx, pfx_index, on_filter, divided,
}
use buffalo.Fib.Globals.{
  Globals, scheme_lpm, data_routeview, read_routeviewfib, add_prefix, skipped, index_nexthops,
}
use buffalo.Fib.Main.Exact.{set_up-linear_lookup}
use buffalo.Fib.Main.Lookups.{built_hit}
use buffalo.Fib.Main.{no_tables, read_fib, index_all, create_filters, set_up}
use buffalo.Fib.Search.{ask_filters}
use buffalo.Fib.Search.Agree.{NoFalseHit}
use buffalo.Fib.{find, linear_lookup, lookup_loop}
use buffalo.Hashing.{update_loop, contains_loop, read, write}
use buffalo.Prefix.{eq}
use buffalo.Tests.Builds.{junk}
use buffalo.Tests.Fibs
use buffalo.Tests.Fibs.{network, file, is_read, blocks_safe, rows_positive, routes_safe}
use buffalo.Tests.Machine.{digits, malloc, malloc-Allocates}

abbrev set_up_run : Option (Globals × List BloomFilter)
set_up_run = set_up digits malloc (λ c t. 16) [] data_routeview scheme_lpm file (replicate 66 junk)

abbrev ready : Globals × List BloomFilter
ready = elim set_up_run [ none ↦ (no_tables, []) | some x ↦ x ]

abbrev is_entry : Option ℕ → ℕ → Bool
is_entry none nh = false
is_entry (some v) nh = v == nh

abbrev answers : ℕ → ℕ → Bool
answers j nh =
    not (built_hit digits ready.0 ready.1 nh (block (network + 1) j))
    || is_entry (find ready.0.pmap (block (network + 1) j)) nh

-- What the run builds, its next hops, and that at every length the filters of both next hops
-- answer only for an entry.
built :
    (set_up_run ≡ some ready)
    × (ready.0.nhlist ≡ 5 ∷ 7 ∷ [])
    × (all_below 33 (λ j. j == 0 || (answers j 5 && answers j 7)) ≡ true)
unfolding set_up read_fib read_routeviewfib add_prefix skipped each insert count_up value lookup eq
    index_all index_nexthops create_filters create_bloom_filter_pfxlen_each_out total_count
    pfx_count init_pfx_filters init_pfx insert_pfx_list insert_pfx pfx_index on_filter divided
    bloom_filter_init zero_loop insert_prefix insert_seed update_loop read write mark for
    buffalo.FilterBank.as_int all_below contains_prefix contains_seed contains_loop find block
built = (refl, refl, refl)

is_entry-some : (found : Option ℕ) (nh : ℕ) → is_entry found nh ≡ true → found ≡ some nh
is_entry-some none nh e = absurd (ground arith)
is_entry-some (some v) nh e = ap some ((==_iff v nh).0 e)

answered :
    (j nh : ℕ)
    → answers j nh ≡ true
    → built_hit digits ready.0 ready.1 nh (block (network + 1) j) ≡ true
    → find ready.0.pmap (block (network + 1) j) ≡ some nh
answered j nh e h = is_entry-some _ nh (rw h at e)

ready-NoFalseHit : NoFalseHit ready.0 (built_hit digits ready.0 ready.1) (network + 1)
ready-NoFalseHit j nh pos le m h =
    let both : (j == 0 || (answers j 5 && answers j 7)) ≡ true =
      all_below_sound 33 (λ j. j == 0 || (answers j 5 && answers j 7)) j built.2 (omega arith) in
    let m' : Elem nh (5 ∷ 7 ∷ []) = subst (Elem nh) built.1 m in
    elim m' [
      | inl five ↦ answered j nh (rw five (ground (arith, both))) h
      | inr rest ↦ elim rest [
        | inl seven ↦ answered j nh (rw seven (ground (arith, both))) h
        | inr none_left ↦ absurd none_left
      ]
    ]

set_up-linear_lookup_example :
    Returns (λ found. found.nh ≡ 5) (ask_filters digits ready.0 ready.1 (network + 1))
unfolding linear_lookup lookup_loop find lookup eq
set_up-linear_lookup_example =
    set_up-linear_lookup digits malloc (λ c t. 16) [] data_routeview scheme_lpm file
      (replicate 66 junk) buffalo.Tests.Fibs.read (network + 1) 5 ready malloc-Allocates
      (λ c t. omega arith) (rows_positive, omega arith) is_read (omega arith) routes_safe
      (omega arith) blocks_safe (λ e. absurd (omega (arith, e))) refl built.0 ready-NoFalseHit
