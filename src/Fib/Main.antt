-- ===== src/Fib/Main.antt =====
-- BloomFilterTest.cc: `main` from the reading of a file to the filters.
pub mod Ready
pub mod Macs
pub mod Loaded
pub mod Tables
pub mod Lookups
pub mod Exact
pub mod Bits
pub mod Sampled
pub mod Program
pub mod Indexed
use buffalo.Bloom.{BloomFilter}
use buffalo.Common.Int.{ℤ}
use buffalo.Common.Dict.{value, nat_key}
use buffalo.Common.{ℕ, ◌+◌, ◌*◌, ◌^◌, List, [], ◌∷◌, Option, none, some, length, replicate, ◌>>=◌}
use buffalo.EtherAddress.{EtherAddress}
use buffalo.Fib.Build.{create_mac_table, create_bloom_filter_pfxlen_each_out}
use buffalo.Fib.Globals.{
  Globals, DataScheme, data_routeview, data_funet, data_internet2, data_mac, Scheme, FunetRow,
  read_routeviewfib, read_funetfib, read_macfib, index_nexthops, max_bloom_filter, pfxlen_count,
}
use buffalo.Fib.Macs.{perform_mac_lookup}
use buffalo.Hashing.{Pointer}
use buffalo.Prefix.{Prefix}
use buffalo.Rand.{Rand}

-- The tables before `main`: all are empty.
abbrev pub no_tables : Globals
no_tables = record {
  pfxlist = [];
  pmap = [];
  nhlist = [];
  nhindex = [];
  nhcount = [];
  maclist = [];
  macmap = [];
  pfxlencount = [];
  nh_pfxlen_count = replicate pfxlen_count [];
}

-- What `ifs >> ...` yields of the file, for the reader that the scheme selects.
pub record FibFile : Type 0 where
  pub routes : List (Prefix × ℕ)
  pub funet_rows : List FunetRow
  pub macs : List (EtherAddress × ℕ)

-- The reader that the scheme selects.
unfoldable pub read_fib : DataScheme → Scheme → FibFile → Globals → Option Globals
unfolding read_routeviewfib read_funetfib read_macfib
read_fib data_routeview runscheme file g = read_routeviewfib runscheme file.routes g
read_fib data_funet runscheme file g = read_funetfib runscheme file.funet_rows g
read_fib data_internet2 runscheme file g = read_routeviewfib runscheme file.routes g
read_fib data_mac runscheme file g = some (read_macfib file.macs g)

-- The loop that numbers the next hops.
unfoldable pub index_all : Globals → Globals
unfolding index_nexthops
index_all g = record g { nhindex = index_nexthops g.nhlist 0 g.nhindex }

-- The filters that the scheme asks for.
unfoldable pub create_filters :
    Rand
    → (ℕ → Pointer)
    → (ℕ → ℕ → ℕ)
    → List ℤ
    → DataScheme
    → Globals
    → List BloomFilter
    → Option (List BloomFilter)
unfolding create_mac_table create_bloom_filter_pfxlen_each_out
create_filters R malloc share sizes data_mac g filters = create_mac_table R malloc sizes g filters
create_filters R malloc share sizes data_routeview g filters =
    create_bloom_filter_pfxlen_each_out R malloc share g filters
create_filters R malloc share sizes data_funet g filters =
    create_bloom_filter_pfxlen_each_out R malloc share g filters
create_filters R malloc share sizes data_internet2 g filters =
    create_bloom_filter_pfxlen_each_out R malloc share g filters

-- `main` up to the lookups: the tables and the filters.
unfoldable pub set_up :
    Rand
    → (ℕ → Pointer)
    → (ℕ → ℕ → ℕ)
    → List ℤ
    → DataScheme
    → Scheme
    → FibFile
    → List BloomFilter
    → Option (Globals × List BloomFilter)
unfolding read_fib index_all create_filters
set_up R malloc share sizes datascheme runscheme file filters = do
  read ← read_fib datascheme runscheme file no_tables
  let g = index_all read
  built ← create_filters R malloc share sizes datascheme g filters
  some (g, built)
