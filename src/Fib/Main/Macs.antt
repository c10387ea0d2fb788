-- ===== src/Fib/Main/Macs.antt =====
-- The lookup of an address of the file that the filters are made from.
use mathlib.Core.Option.{some-injective}
use buffalo.Bloom
use buffalo.Bloom.Build.{Allocates}
use buffalo.Bloom.{BloomFilter, contains_seed}
use buffalo.Common.Dict.{value, nat_key}
use buffalo.Common.Int.{ℤ}
use buffalo.Common.{
  ℕ, ◌+◌, ◌^◌, ◌≤◌, ◌<◌, ◌==◌, if◌then◌else◌, ◌≡◌, refl, sym, ap, ◌∙◌, List, [], ◌∷◌, some, arith,
  Elem, inl, inr, get_elem?, length, Returns, ◌>>=◌,
}
use buffalo.EtherAddress.Equal.{address_key}
use buffalo.EtherAddress.{EtherAddress, seed}
use buffalo.Fib.Build.Filled.{Ready, Has, Has-contains_seed, Ready-contains_seed}
use buffalo.Fib.Build.MacTable.{Sizes, create_mac_table-MacBuilt}
use buffalo.Fib.Globals.{Scheme, data_mac, read_macfib}
use buffalo.Fib.Macs.{errors}
use buffalo.Fib.Main.Ready.{index_all-MacTables}
use buffalo.Fib.Main.{FibFile, no_tables, read_fib, index_all, create_filters, set_up}
use buffalo.Hashing.Draws.{NeverMax}
use buffalo.Hashing.{Pointer}
use buffalo.Rand.{Rand}

module _ (R : Rand) (nhindex : ℕ → ℕ) (built : List BloomFilter) (p : EtherAddress) where
  open R use {srand}

  -- The filter of a next hop that has the address answers 1.
  answer-Has :
      (k : ℕ) (f : BloomFilter) (check : ℕ)
      → NeverMax R 8 (srand (seed p))
      → get_elem? built k ≡ some f
      → contains_seed R (seed p) f ≡ some check
      → Has R built k (seed p)
      → check ≡ 1
  answer-Has k f check safe here answer has =
      let (f', here', answer') = Has-contains_seed R built k (seed p) safe has in
      let same = some-injective _ _ (sym here ∙ here') in
      some-injective _ _ (sym answer ∙ ap (contains_seed R (seed p)) same ∙ answer')

  -- The hits of an address are no more than the next hops, and count each filter that has it.
  errors-Has :
      NeverMax R 8 (srand (seed p))
      → (nhs : List ℕ) → ((nh : ℕ) → Elem nh nhs → Ready built (nhindex nh))
      → Returns
          (λ error.
            (error ≤ length nhs)
            × ((nh : ℕ) → Elem nh nhs → Has R built (nhindex nh) (seed p) → 0 < error))
          (errors R nhindex built nhs p)
  unfolding errors Bloom.contains
  errors-Has safe [] ready = (0, refl, (omega arith, λ nh m. absurd m))
  errors-Has safe (k ∷ nhs) ready =
      let (f, check, here, answer) =
        Ready-contains_seed R built (nhindex k) (seed p) safe (ready k (inl refl)) in
      let (error, run, (bound, hit)) = errors-Has safe nhs (λ nh m. ready nh (inr m)) in
      (
        (if check == 1 then error + 1 else error),
        rw (here, ◌>>=◌, answer, run) refl,
        (
          ground (arith, bound),
          λ nh m has. elim m [
            | inl e ↦
                let one : check ≡ 1 =
                  answer-Has (nhindex k) f check safe here answer (rw (sym e) has) in
                rw one (omega arith)
            | inr m' ↦ let rest = hit nh m' has in ground (arith, rest)
          ],
        ),
      )

module _ (R : Rand) where
  open R use {srand}

  -- Between 1 and 2^31 - 1 rows of addresses, no more than there are filters, with a working
  -- `malloc`, sizes below 2^32, and seeds of the file's addresses whose first 8 calls of `rand` do
  -- not return RAND_MAX: `main` builds the filters, and then the lookup of an address of the file
  -- ends and counts at least one next hop, and no more than there are.
  pub set_up-errors :
      (malloc : ℕ → Pointer) (share : ℕ → ℕ → ℕ) (sizes : List ℤ) (runscheme : Scheme)
      (file : FibFile) (filters : List BloomFilter)
      → Allocates malloc
      → Sizes sizes
      → 0 < length file.macs
      → length file.macs < 2 ^ 31
      → length file.macs ≤ length filters
      → ((p : EtherAddress)
          → Elem p (read_macfib file.macs no_tables).maclist
          → NeverMax R 8 (srand (seed p)))
      → Returns
          (λ (g, built).
            (p : EtherAddress)
            → Elem p g.maclist
            → Returns
                (λ error. (0 < error) × (error ≤ length g.nhlist))
                (errors R (value g.nhindex) built g.nhlist p))
          (set_up R malloc share sizes data_mac runscheme file filters)
  unfolding set_up read_fib create_filters index_all
  set_up-errors malloc share sizes runscheme file filters alloc fit some_row small few safe =
      let g = index_all (read_macfib file.macs no_tables) in
      let tables = index_all-MacTables file.macs (length filters) some_row small few in
      let (built, run, b) =
        create_mac_table-MacBuilt R malloc sizes g filters alloc fit tables safe in
      (
        (g, built),
        rw (◌>>=◌, run) refl,
        λ p m.
            let (error, ran, (bound, hit)) =
              errors-Has R (value g.nhindex) built p (safe p m) g.nhlist b.answers in
            (error, ran, (hit (value g.macmap p) (tables.routed p m) (b.has p m), bound)),
      )
