-- ===== src/Tests/Builds.antt =====
-- The filters that `main` makes from a file of two MAC addresses.
use buffalo.Bloom.{BloomFilter}
use buffalo.Common.Dict.{value, nat_key}
use buffalo.Common.Int.{ℤ, pos}
use buffalo.Common.{
  ℕ, ◌≤◌, ◌<◌, ◌≡◌, refl, List, [], ◌∷◌, none, arith, Elem, inl, inr, ◌⊎◌, length, Returns,
}
use buffalo.EtherAddress.Equal.{address_key}
use buffalo.EtherAddress.{EtherAddress, seed}
use buffalo.Fib.Build.MacTable.{Sizes}
use buffalo.Fib.Build.{as_unsigned_long}
use buffalo.Fib.Globals.{scheme_flat, data_mac, read_macfib, add_mac}
use buffalo.Fib.Macs.{errors}
use buffalo.Fib.Main.Macs.{set_up-errors}
use buffalo.Fib.Main.{FibFile, no_tables, set_up}
use buffalo.Hashing.Draws.{NeverMax}
use buffalo.Tests.Machine.{digits, malloc, malloc-Allocates, safe}

abbrev one : EtherAddress
one = record { addr0 = 0; addr1 = 0; addr2 = 1 }

abbrev two : EtherAddress
two = record { addr0 = 0; addr1 = 0; addr2 = 2 }

abbrev macs : List (EtherAddress × ℕ)
macs = (one, 1) ∷ (two, 2) ∷ []

abbrev pub junk : BloomFilter
junk = record { hash_table = none; table_size = 0; element_size = 0; function_size = 0 }

abbrev sizes : List ℤ
sizes = pos 16 ∷ pos 16 ∷ []

macs-listed :
    (p : EtherAddress) → Elem p (read_macfib macs no_tables).maclist → (p ≡ one) ⊎ (p ≡ two)
unfolding read_macfib add_mac
macs-listed p m = elim m [
  | inl e ↦ inl e
  | inr rest ↦ elim rest [ inl e ↦ inr e | inr none_left ↦ absurd none_left ]
]

macs-safe :
    (p : EtherAddress) → Elem p (read_macfib macs no_tables).maclist → NeverMax digits 8 (seed p)
unfolding seed
macs-safe p m = elim (macs-listed p m) [
  | inl e ↦ rw e (safe 8 (seed one) refl)
  | inr e ↦ rw e (safe 8 (seed two) refl)
]

sizes-small : Sizes sizes
unfolding as_unsigned_long
sizes-small = (omega arith, (omega arith, tt))

abbrev file : FibFile
file = record { routes = []; funet_rows = []; macs = macs }

set_up-errors_example :
    Returns
      (λ (g, built).
        (p : EtherAddress)
        → Elem p g.maclist
        → Returns
            (λ error. (0 < error) × (error ≤ length g.nhlist))
            (errors digits (value g.nhindex) built g.nhlist p))
      (set_up digits malloc (λ n m. 1) sizes data_mac scheme_flat file (junk ∷ junk ∷ junk ∷ []))
set_up-errors_example =
    set_up-errors digits malloc (λ n m. 1) sizes scheme_flat file (junk ∷ junk ∷ junk ∷ [])
      malloc-Allocates sizes-small (omega arith) (omega arith) (omega arith) macs-safe
