-- ===== src/Lib.antt =====
-- TieredOMap keeps key-value pairs in oblivious maps. The maps stand on tree ORAMs: a tree of
-- buckets of encrypted blocks, a stash, and a leaf for each key; an access fetches the path of the
-- key's leaf into the stash, draws a new leaf, and evicts the stash back onto the path. A tiered map
-- has a hot and a cold map and moves keys between them by access counts, through a small cache.
-- This library models the storage, the Path ORAM, the counters of the DA-ORAM, the encodings of
-- values, the manager that decides what moves, and the tiered map over two given maps.
--
-- The modules and the code they are about:
--   Prelude       names of the standard libraries, integers over the native numbers, lists, counts
--   Common        include/tiered_omap/common.h: `Block`, `BandwidthStats`, `ceil_log2`. Common.Errors
--                 is the result type for code that throws; Common.Environment is the `Host`, what the
--                 program takes from outside: random draws and IVs, OpenSSL's AES-CTR, and the
--                 iteration order of an unordered map. Common.Codec is the encoding of `int` and of
--                 the epoch metadata, Common.Codec.RoundTrip what reading back gives.
--   Storage       src/oram/binary_tree_storage.cpp, `BinaryTreeStorage`: a record with the list of
--                 buckets; one function per member function. Storage.Paths, Merged and OnePath are
--                 about paths and merged paths, Fill and Deepest about the placement of a block on a
--                 path, Write about reading and writing nodes, Load and Fresh about the bulk load
--                 of a new tree.
--   Oram          src/oram/path_oram.cpp, `PathORAM`: a record of the fields, functions that pass it
--                 on and return a `Result`; include/tiered_omap/crypto.h. Oram.Init has the
--                 constructor and `init`. Oram.Crypt, Fetch, Evict, Stash and Room are about the
--                 parts of an access, Fetched and Written about the state amid one, Valid states
--                 the invariant `Holds`, Access and Dummy are about
--                 the operations. `Holds` says that the state holds a table: one block for each key,
--                 in the stash or on the path of the leaf that the position map gives.
--   DaOram        src/oram/da_oram.cpp: the counter blocks, the leaf function and the sizes of the
--                 position maps of `DAOram`. DaOram.Levels is about these sizes and the keys within.
--                 DaOram.Counters.Pending counts the offsets that await a reset, Positions and Keys
--                 are about the leaves that the counters stand for. `Paced` says that while resets
--                 are pending no counter is so high that the group counter goes on.
--   Maintenance   include/tiered_omap/maintenance.h, `MaintenanceManager`: Epochs is about the
--                 counters of a key, Phases about the triggers, Cache about the migration cache.
--   Omap          include/tiered_omap/omap/omap_interface.h, `OmapInterface`: the operations of a map
--                 as a record over the type of its states. They are any functions: nothing is asked
--                 of what a map answers, keeps or throws.
--   Tiered        src/tiered_omap.cpp and include/tiered_omap/tiered_omap.h, `TieredOMap`, a client of
--                 Omap, Oram and Maintenance: Tiered.Steps has the maintenance steps, `promote` and
--                 `demote`, Tiered.Access the branches of `access`, Tiered.Init the constructor,
--                 `init` and `enable_maintenance`. The maps, `data_oram_` and `maint_` are fields of
--                 the state; the maps hold references to blocks of the data ORAM. Tiered.Kept
--                 states that the keys are in order, Tiered.Placed the same beside references that
--                 are at hand, Tiered.Stores which value the block of a reference has. Touch is
--                 about accesses to the blocks, Sorted about `hot_key_list_`, Admit about the entry
--                 that leaves the cache, Swap and Settle about the sets of keys when a key moves;
--                 Kept.Steps and Kept.Access are about the operations, Kept.Serve and Kept.Values
--                 about the values in the data ORAM, Kept.Loss about states in which the operations
--                 lose something.
--   Tee           include/tiered_omap/tee and src/tee. Tee.Oblivious has the moves, exchanges and tests
--                 without branches of oblivious.h and its compaction, Oblivious.Bits what the bit
--                 patterns of the tests say, Moves those of the moves, Compact is about the
--                 compaction. Tee.Directory is src/tee/packed_directory.cpp, `PackedDirectory`,
--                 Directory.Labels about its loops, Valid, Demote and Updates about its operations.
--                 Tee.Enclave is src/tee/enclave_oram.cpp, `EnclaveOram`: Enclave.Evict has
--                 `evict_path`, Access the accesses, Init the initialisation. Paths is about the nodes
--                 of a path, Slots, Nodes and Keep about the steps of an eviction, Table states the
--                 invariant `Holds`, Eviction, Scan and Serve are about the parts of an access, Rows
--                 about the table, Refines, Dummy and Init.Start about whole operations, Extract,
--                 Fetch and PutBack about the operations for accesses to several blocks.
--   Tests         runs on small inputs; Tests.ListMap is a map for the runs of the tiered map.
--
-- Conventions. A buffer is a list of bytes; a key or a leaf is an integer, where -1 is the invalid
-- one; indices and sizes are natural numbers. Counters of accesses and epochs are unbounded here and
-- `int` in the code. The 64-bit group counter and the 8-bit counters of a counter block wrap, and so
-- does the arithmetic of the leaf function. An exception is a `throw` of the result type. The n-th
-- random draw is a function of n, and a state counts its draws. The position map is an association
-- list; a path that is fetched or evicted is a list of nodes with their buckets, which is passed
-- through `order` wherever the code iterates the unordered map.
--
-- Loops are recursions on lists, or on fuel where they climb a tree or search an exponent: a climb
-- from node n has fuel n + 1, and each step at least halves the number; the search for the
-- logarithm of n has fuel n, and 2 ^ n exceeds n. The loop over the position map sizes has fuel
-- num_data + 1, and each size is below the one before.
--
-- The enclave's ORAM takes the leaf of a key from its caller. Its masks, which are all ones or all
-- zeros, are a choice between a word and 0; the state after a thrown overflow is not kept. The climb
-- to the root has the number of levels as fuel, as the loop in the code has.
--
-- The tiered map is modelled without a channel: its rounds are not interleaved, and
-- `interleaved_access` and `interleaved_da_piggyback` do not run. A set of keys is its membership test.
-- The map of cached references gives the empty buffer for a missing key, as its `operator[]` does.
--
-- Not modelled: the trees over the ORAMs (AVL, B+ and order-statistic maps), which stand behind the
-- interface of Omap and may drop a key beyond their height, so that no theorem rests on what they
-- answer; the choice among them in `make_omap`, which gives the maps as parameters, the
-- interleaved accesses of the tiered map, the accesses of the DA-ORAM to its position maps and data,
-- the maps and the server over the enclave's ORAM, the network and its message formats, state export,
-- and all timing. The benchmarks and tests are not part of the library.
mod Prelude
mod Common
mod Storage
mod Oram
mod Maintenance
mod DaOram
mod Omap
mod Tiered
mod Tee
mod Tests
