-- ===== src/Lib.antt =====
-- fast-repo: a repository of NDN data packets. It stores packets in RocksDB under the URI of their
-- names, answers Interests from the store, and fetches packets into it when a command asks for them.
--
-- Parts and how they interact. `FastRepo` (src/repo/fast-repo.cpp) owns the storage engine and the
-- handles and sets their filters. A command reaches the write handle (fetch one packet) or the pattern
-- handle (run a fetching pattern); what they fetch is put into the storage engine, and the signal
-- `onDataInsertion` has the repository register the prefix if no data prefix covers it. The read
-- handle answers all other Interests from the engine, and the status handle publishes what the
-- repository and the pattern handle report of themselves.
--
-- Files:
--   Prelude            shared names, Boolean tests, lists, byte strings, signed integers, std::map
--   Ndn                ndn-cpp and RocksDB as records of operations, with the laws relied on
--   Storage/Trie       NameTrie of src/storage/storage-engine.cpp
--   Storage/Engine     StorageEngineImpl of the same file: put, get, read, buildKeyTrie, the scan
--   Storage/Read, Written, Histories, Scan, Prefixes, Sound
--                      about read, put with get, sequences of put, buildKeyTrie, and
--                      getLongestPrefixes (the last two)
--   Storage/Facade     StorageEngine of src/storage/storage-engine.hpp, with its signal
--   Handles/Base       src/handles/base-handle.hpp and .cpp, and the messages of the two .proto files
--   Handles/Write      the compiled part of src/handles/write-handle.cpp: Defs (the callbacks), Runs
--                      (histories), Pending (its processes), Tallies and Counts (stored against
--                      fetched)
--   Handles/Read       src/handles/read-handle.cpp
--   Patterns/Fetch     src/handles/patterns: the patterns and PatternFactory; Decimal is about the numbers
--                      in the names that a counter pattern asks for, Objects is the callback of
--                      gobj-pattern.cpp, and Factory is about PatternFactory
--   Patterns/Handle    src/handles/pattern-handle.cpp, the pattern objects on a heap, and the
--                      function that ndnrtc's recorder stores packets with; Cases, Replies, Cancels,
--                      Linked, Rounds and Lifetime are about it; Histories, Trace, Counted, Gone,
--                      Counting and Completes are about sequences of what reaches it
--   Repo/Prefixes      enableListening, onDataInsertion and initializeStorage of src/repo/fast-repo.cpp
--   Repo/System        FastRepoImpl with its handles as one state: Defs (the callbacks and the signals'
--                      slots), Runs, Sound and Faults, Kept and Stays (what a step leaves alone),
--                      Served, Announced, Lost, Stored and Provenance; Boot is the start and the
--                      initial scan, Main is main and terminate of src/main.cpp
--   Repo/Config        parseConfig of that file, and the options of src/main.cpp; Parsed and
--                      Described are about it
--   Status             src/handles/status-handle.cpp and getStatusReport of FastRepoImpl, PatternHandle
--                      and the patterns: Json (the library), Words, Reports, Publish, Broken,
--                      Listen (its state, and the prefixes that it listens to)
--   Clients            examples/pattern-fetch.cpp and examples/pattern-cancel.cpp: Commands, Wire (their
--                      commands read back) and Session (with the pattern handle)
--   Legacy/Segmented   segmented insertion, between `#if 0` and `#endif` of src/handles/write-handle.cpp;
--                      Dispatch is all that comes to the handle; Window, Retries, Ranges, Going, Sends,
--                      Initial, Kept, Late and Complete (a whole fetch) are about it
--   Legacy/Watch       src/handles/watch-handle.cpp, which is not compiled either: Defs, Dispatch, Runs
--   Legacy/Delete      src/handles/delete-handle.cpp, which is not compiled either; Deleted is about it
--   Tests              a store and names that meet the laws, and the theorems at concrete inputs
--
-- Conventions. State is passed explicitly; what a handler asks of the face, of a timer or of a
-- signal is a list of effects in the order of the calls. An exception is a value of a result type,
-- a failed assertion too (`none` in segmented insertion). A history ends at an exception of a callback:
-- what ndn-cpp then makes of it is not in the repository. When ndnrtc's recorder calls the function
-- that it was given, and with which packets, is up to ndnrtc, so that this is an event that may come
-- at any point of a history. Random process ids, uninitialised memory, the clock and the
-- answers of ndn-cpp, RocksDB, ndnrtc, protobuf, nlohmann's JSON, boost and docopt are parameters.
-- A validator's verdict is which of its two callbacks is called. `size_t` and `uint64_t`
-- arithmetic is taken modulo 2^64 in the storage's counters and in segmented insertion, `int`
-- differences of sizes are read in two's complement; the `int64_t` counters of the watch handle
-- and the protobuf counters are not wrapped. A std::map is its entries with a decision for
-- equality of keys.
--
-- Fuel: `digits` of Patterns/Fetch has the number and one more, which Patterns/Decimal proves enough; the rounds of the two segment loops are computed from their bounds, and the one bound at which
-- the deletion loop does not end gives `none`.
--
-- Not modelled: logging, signing and encoding of packets (ndn-cpp), the face's event loop, the
-- namespace object that publishes the status, the parsing of the command line (docopt), onDataDeleted
-- of src/handles/read-handle.cpp (between `#if 0` and `#endif`, over members that are commented out),
-- tests/test_prefix_match.cc.
mod Prelude
pub mod Ndn
pub mod Storage
pub mod Handles
pub mod Patterns
pub mod Repo
pub mod Status
pub mod Clients
pub mod Legacy
mod Tests
