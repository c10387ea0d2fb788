-- ===== src/Lib.antt =====
-- A model of BUFFALO, forwarding by Bloom filters, and the proofs about it.
--
-- The program keeps, for each next hop, a Bloom filter of the addresses that go there. Counting
-- filters take the updates of the routes, and the plain filters that the lookups read are made
-- from them. A lookup asks the filter of every next hop. Both kinds of filters draw their cells
-- with `srand` and `rand`; the Click prototype packs ten filters into bits, and hashes with
-- linear functions.
--
-- Files, with paths from the root of the repository:
--   Common: shared names, lists and tests over the native numbers, loops whose body may stop
--   (`for` and `each`, with their invariant rules), `std::map` (Dict), `std::set` (OrdSet), bit
--   masks (Bits), integers (Int).
--   Rand: `srand`, `rand`, `RAND_MAX` and the scaling of a draw in double arithmetic, as a
--   parameter with the documented laws.
--   Hashing: the loops that all methods of BloomFilter.h and CountingBloomFilter.h share, as
--   passes over the list of drawn indices.
--   EtherAddress: etheraddress.h. Prefix: prefix.h.
--   Bloom: BloomFilter.h (`bloom_filter`, `bloom_filter_init`, `insert`, `insert_prefix` for the
--   overload on prefixes, `remove`, `contains`, `contains_prefix`, `check`).
--   Counting: CountingBloomFilter.h, with the same names.
--   ShortestPath: `calc_shortest_path` of util.c, with the classes of util.h.
--   FilterBank: `class bloom_filter` of bfclick/ip/bloomfilter.hh (`initialize`, `etherinsert`,
--   `etherlookup`), and its `counting_bloom_filter` in FilterBank/Counters. The sizes that
--   `initialize` computes overflow an `int`, so no bank of the program is one that the lemmas of
--   this part call ready.
--   BfSwitch: bfclick/ip/bfswitch.cc (`push`, `broadcast`), over FilterBank.
--   HashSwitch: bfclick/ip/myhashswitch.cc (`push`), over a parameter for the hash table of Click;
--   its `broadcast` is that of BfSwitch.
--   Cbf: cbf.cc (`route_update`, `update_bf`, the loops of `main`), over Bloom and Counting.
--   Fib: BloomFilterTest.cc. Fib: `linear_lookup`; Fib/Globals: the tables and their readers;
--   Fib/Build: `create_bloom_filter_pfxlen_each_out` and `create_mac_table`, over Bloom; Fib/Main:
--   `main`, from the reading to the filters, and in Fib/Main/Program with its options and the
--   lookups; Fib/Search: the lookup in the filters;
--   Fib/Perform: `randomip`, `fetchip` and the loop of `perform_pfxlen_each_out`; Fib/Macs:
--   `fetchmac` and `perform_mac_lookup`; Fib/Diversity: `test_prefix_nexthop`; Fib/Bits: the branch
--   of `perform_pfxlen_each_out` for HASH_BIT 0.
--   Flat: flat.cc, of which ip2mac.cc is a copy. Overlap: overlap.cc, with its branch for
--   Internet2 in Overlap/Internet2. Packet: packet.cc, with its branch for FUNET in Packet/Funet.
--   Click: click.cc. These readers number next hops and take FUNET rows as Flat does.
--   Lsfib: lsfib.cc, over ShortestPath. Lsfib: the choices of false positives; Lsfib/Latency:
--   `calc_latency`; Lsfib/Main: `main`. Double arithmetic is the parameter `Double`, and the
--   record `IsDouble` states what the proofs rely on of it.
--   Prefix/Text: `str2ip` of util.c, over the numbers that `sscanf` finds in a text.
--   Tests: concrete parameters and inputs, and the theorems applied to them.
--
-- Conventions. A pointer to a block is an optional list of bytes. An operation returns `none`
-- where the source has undefined behaviour (a read or write out of bounds or through NULL, signed
-- overflow, a division by 0) or does not end; every theorem that an operation works says that it
-- returns a result. Unsigned arithmetic is written out with its modulus. The state of an object
-- is a record, and a method takes it and returns the new one. What uninitialised memory holds is
-- an argument. A loop of the source is structural recursion on its number of rounds, which the
-- code fixes before the loop, or on the list that it goes through; only `sample_loop` and
-- `calc_latency` have fuel. One more than the packets of the file is enough for the first, and any
-- bound of the lengths of the paths for the second, where no false positive is followed. A reader
-- takes the rows that the file yields. A length of a path is a double that holds a natural number,
-- as the weights in conext/1239.bof are; a sum of 2^53 or more, which may be rounded, is `none`.
--
-- Not modelled: of lsfib.cc the branch without CALC_EXP, which is not compiled; the fragment
-- old.cc; text: the stream operators of prefix.h and etheraddress.h, `ip2str`, and the parsing of
-- configuration lines in the two switches (`cp_ether_route`, `my_cp_ether_route`, `configure`),
-- whose every good line writes 6 bytes into an array of 3; output to the terminal and timing; the
-- handlers of the Click elements; the rest of bfclick/ip, which is a copy of Click's own elements.
pub mod Common
pub mod Rand
pub mod Hashing
pub mod EtherAddress
pub mod Prefix
pub mod Bloom
pub mod Counting
pub mod ShortestPath
pub mod FilterBank
pub mod BfSwitch
pub mod Cbf
pub mod Fib
pub mod Flat
pub mod Packet
pub mod Click
pub mod Lsfib
pub mod Overlap
pub mod HashSwitch
pub mod Tests
