-- ===== src/Fib/Build.antt =====
-- BloomFilterTest.cc: the filters that are made from the tables.
-- The conversions of a count to `int` and on to `unsigned long` are exact below 2^31; a larger
-- count stops the model. The sizes are double arithmetic, which is a parameter; the output, and
-- the numbers that only it uses, are left out.
pub mod Filled
pub mod Inserts
pub mod MacTable
pub mod PfxTables
pub mod PfxTable
pub mod PfxBuilt
use buffalo.Bloom
use buffalo.Bloom.{BloomFilter, bloom_filter_init}
use buffalo.Common.Dict.{Dict, value, nat_key}
use buffalo.Common.Int.{ℤ, pos, negsuc}
use buffalo.Common.{
  ℕ, ◌+◌, ◌-◌, ◌*◌, ◌^◌, ◌==◌, ltb, if◌then◌else◌, List, [], ◌∷◌, Option, none, some, get_elem?,
  set, length, for, each, ◌>>=◌,
}
use buffalo.EtherAddress.Equal.{address_key}
use buffalo.EtherAddress.{EtherAddress}
use buffalo.Fib.Globals.{Globals, pfxlen_count}
use buffalo.FilterBank.{as_int}
use buffalo.Hashing.{Pointer}
use buffalo.Prefix.Equal.{prefix_key}
use buffalo.Prefix.{Prefix}
use buffalo.Rand.{Rand}

-- A method of `nh_pfxlen_filter[i]`; an index out of range is undefined.
unfoldable pub on_filter :
    ℕ → (BloomFilter → Option BloomFilter) → List BloomFilter → Option (List BloomFilter)
on_filter i method filters = do f ← get_elem? filters i; g ← method f; some (set filters i g)

-- An `int` as an `unsigned long`.
unfoldable pub as_unsigned_long : ℤ → ℕ
as_unsigned_long (pos n) = n
as_unsigned_long (negsuc n) = 2 ^ 64 - 1 - n

-- `sizeinfile >> size`: the next number of the file, or 0 at its end.
unfoldable pub next_size : List ℤ → ℤ × List ℤ
next_size [] = (pos 0, [])
next_size (size ∷ sizes) = (size, sizes)

-- `nh_pfxlen_count[j][nexthop]`
unfoldable pub pfx_count : Globals → ℕ → ℕ → Option ℕ
pfx_count g j nexthop = do counts ← get_elem? g.nh_pfxlen_count j; as_int (value counts nexthop)

-- `nhindex[nexthop]*PFXLEN_COUNT+j`
unfoldable pub pfx_index : Globals → ℕ → ℕ → ℕ
pfx_index g j nexthop = value g.nhindex nexthop * pfxlen_count + j

-- The first loop of `create_bloom_filter_pfxlen_each_out`: `total_n`, a double with the exact sum.
unfoldable pub total_count : Globals → Option ℕ
unfolding pfx_count
total_count g =
    each g.nhlist
      (λ nexthop total. for 32 1 (λ j t. do n ← pfx_count g j nexthop; some (t + n)) total) 0

module _ (malloc : ℕ → Pointer) where
  -- A round of the inner loop; `share n total_n` is `(int)((double)MEM_SIZE*n/total_n)`.
  unfoldable pub init_pfx :
      (ℕ → ℕ → ℕ) → Globals → ℕ → ℕ → ℕ → List BloomFilter → Option (List BloomFilter)
  unfolding pfx_count pfx_index on_filter
  init_pfx share g total_n nexthop j filters = do
    n ← pfx_count g j nexthop
    let size = if ltb 0 n then share n total_n else 1
    on_filter (pfx_index g j nexthop) (bloom_filter_init malloc size n 10) filters

  unfoldable pub init_pfx_filters :
      (ℕ → ℕ → ℕ) → Globals → ℕ → List BloomFilter → Option (List BloomFilter)
  unfolding init_pfx
  init_pfx_filters share g total_n =
      each g.nhlist λ nexthop. for 32 1 (init_pfx share g total_n nexthop)

  unfoldable pub init_mac :
      Globals → ℕ → List BloomFilter × List ℤ → Option (List BloomFilter × List ℤ)
  unfolding on_filter next_size as_unsigned_long
  init_mac g nexthop (filters, sizes) = do
    n ← as_int (value g.nhcount nexthop)
    let (size, left) = next_size sizes
    inited ←
        on_filter (value g.nhindex nexthop) (bloom_filter_init malloc (as_unsigned_long size) n 10)
          filters
    some (inited, left)

  unfoldable pub init_mac_filters :
      Globals → List BloomFilter × List ℤ → Option (List BloomFilter × List ℤ)
  unfolding init_mac
  init_mac_filters g = each g.nhlist (init_mac g)

-- `table_size /= (nhlist.size()*32)` divides by 0 without next hops.
unfoldable pub divided {ℓ} : {A : Type ℓ} → Globals → A → Option A
divided g a = if length g.nhlist == 0 then none else some a

module _ (R : Rand) where
  unfoldable pub insert_pfx : Globals → Prefix → List BloomFilter → Option (List BloomFilter)
  unfolding pfx_index on_filter
  insert_pfx g p = on_filter (pfx_index g p.len (value g.pmap p)) (Bloom.insert_prefix R p)

  unfoldable pub insert_pfx_list : Globals → List BloomFilter → Option (List BloomFilter)
  unfolding insert_pfx
  insert_pfx_list g = each g.pfxlist (insert_pfx g)

  unfoldable pub create_bloom_filter_pfxlen_each_out :
      (ℕ → Pointer) → (ℕ → ℕ → ℕ) → Globals → List BloomFilter → Option (List BloomFilter)
  unfolding total_count init_pfx_filters insert_pfx_list divided
  create_bloom_filter_pfxlen_each_out malloc share g filters = do
    total_n ← total_count g
    inited ← init_pfx_filters malloc share g total_n filters
    counted ← divided g inited
    insert_pfx_list g counted

  unfoldable pub insert_mac : Globals → EtherAddress → List BloomFilter → Option (List BloomFilter)
  unfolding on_filter
  insert_mac g p = on_filter (value g.nhindex (value g.macmap p)) (Bloom.insert R p)

  unfoldable pub insert_mac_list : Globals → List BloomFilter → Option (List BloomFilter)
  unfolding insert_mac
  insert_mac_list g = each g.maclist (insert_mac g)

  -- `sizes` are the numbers of size.txt.
  unfoldable pub create_mac_table :
      (ℕ → Pointer) → List ℤ → Globals → List BloomFilter → Option (List BloomFilter)
  unfolding init_mac_filters insert_mac_list divided
  create_mac_table malloc sizes g filters = do
    inited ← init_mac_filters malloc g (filters, sizes)
    counted ← divided g inited.0
    insert_mac_list g counted
