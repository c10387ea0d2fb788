-- ===== src/Fib/Main/Program.antt =====
-- BloomFilterTest.cc: `main` with its options.
use buffalo.Bloom.{BloomFilter}
use buffalo.Common.Dict.{value, nat_key}
use buffalo.Common.Int.{ℤ}
use buffalo.Common.{ℕ, ◌*◌, List, [], ◌∷◌, Option, none, some, ◌>>=◌}
use buffalo.EtherAddress.{EtherAddress}
use buffalo.Fib.Globals.{
  DataScheme, data_routeview, data_funet, data_internet2, data_mac, Scheme, scheme_lpm, scheme_flat,
  Globals,
}
use buffalo.Fib.Macs.{perform_mac_lookup}
use buffalo.Fib.Main.{FibFile, set_up}
use buffalo.Fib.Perform.{perform_pfxlen_each_out}
use buffalo.Hashing.{Pointer}
use buffalo.Rand.{Rand}

-- What `getopt` returns: `-r` with what `atoi` makes of the text and what the multiplication by `atof`
-- of it makes of a size; `-m` and `-d` with the name that `strcmp` knows, `none` for any other; `-f`
-- with a name; another character.
pub data Argument : Type 0 where
  r_option : ℕ → (ℕ → ℕ) → Argument
  m_option : Option Scheme → Argument
  f_option : List ℕ → Argument
  d_option : Option DataScheme → Argument
  other_option : Argument

pub record Options : Type 0 where
  pub spacerate : ℕ
  pub mem_size : ℕ
  pub runscheme : Scheme
  pub filename : List ℕ
  pub datascheme : DataScheme

unfoldable pub set_option : Argument → Options → Options
set_option (r_option rate scaled) o = record o { spacerate = rate; mem_size = scaled o.mem_size }
set_option (m_option none) o = o
set_option (m_option (some scheme)) o = record o { runscheme = scheme }
set_option (f_option name) o = record o { filename = name }
set_option (d_option none) o = o
set_option (d_option (some data_routeview)) o = record o { datascheme = data_routeview }
set_option (d_option (some data_funet)) o = record o { datascheme = data_funet }
set_option (d_option (some data_internet2)) o = record o { datascheme = data_internet2 }
set_option (d_option (some data_mac)) o = record o {
  datascheme = data_mac;
  runscheme = scheme_flat;
}
set_option other_option o = o

unfoldable pub set_options : List Argument → Options → Options
unfolding set_option
set_options [] o = o
set_options (arg ∷ args) o = set_options args (set_option arg o)

-- The globals before the options; "fib.txt" is a parameter.
unfoldable pub first_options : List ℕ → Options
first_options fib = record {
  spacerate = 32;
  mem_size = 1024 * 1024 * 8;
  runscheme = scheme_lpm;
  filename = fib;
  datascheme = data_funet;
}

-- What the lookups read: the packets of packet.txt as numbers and as addresses.
pub record Packets : Type 0 where
  pub addrs : List ℕ
  pub macs : List EtherAddress

module _ (R : Rand) (mixed : ℕ → ℕ → ℕ) where
  -- The two numbers of the rate of false positives, by the lookups that the scheme asks for.
  unfoldable pub test_false_positive :
      ℕ → DataScheme → Packets → ℕ → Globals → List BloomFilter → Option (ℕ × ℕ)
  unfolding perform_mac_lookup perform_pfxlen_each_out
  test_false_positive fuel data_mac packets xseed g built =
      perform_mac_lookup R (value g.nhindex) built g.nhlist packets.macs 0
  test_false_positive fuel data_routeview packets xseed g built =
      perform_pfxlen_each_out R mixed g built fuel data_routeview packets.addrs xseed 0
  test_false_positive fuel data_funet packets xseed g built =
      perform_pfxlen_each_out R mixed g built fuel data_funet packets.addrs xseed 0
  test_false_positive fuel data_internet2 packets xseed g built =
      perform_pfxlen_each_out R mixed g built fuel data_internet2 packets.addrs xseed 0

  -- `share mem_size n total` is `(int)((double)MEM_SIZE*n/total_n)`.
  unfoldable pub main :
      (ℕ → Pointer)
      → (ℕ → ℕ → ℕ → ℕ)
      → List ℤ
      → (List ℕ → FibFile)
      → List BloomFilter
      → Packets
      → ℕ
      → ℕ
      → Options
      → Option (ℕ × ℕ)
  unfolding set_up test_false_positive
  main malloc share sizes files filters packets fuel xseed o = do
    ready ←
        set_up R malloc (share o.mem_size) sizes o.datascheme o.runscheme (files o.filename) filters
    test_false_positive fuel o.datascheme packets xseed ready.0 ready.1
