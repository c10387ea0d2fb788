-- ===== src/HashSwitch.antt =====
-- bfclick/ip/myhashswitch.cc: the Click element that keeps its routes in a hash table.
use buffalo.BfSwitch.{Outcome, output}
use buffalo.Common.Int.{ℤ}
use buffalo.EtherAddress.{EtherAddress}

-- Click's `HashTable<EtherAddress, int>`. Reading `_table[a]` inserts a default value where the
-- table has no entry; assigning to `_table[a]` sets the entry.
pub record HashTable : Type 1 where
  pub Table : Type 0
  pub get : EtherAddress → Table → ℤ × Table
  pub put : EtherAddress → ℤ → Table → Table

module _ (h : HashTable) where
  open h use {Table, get, put}

  -- `push`: the port that is looked up is not used.
  unfoldable pub push : EtherAddress → Table → Outcome × Table
  push dst t = let (outport, after) = get dst t in (output 0, after)
