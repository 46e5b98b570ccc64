-- ===== src/Lib.antt =====
-- StructureDB: the storage side of the server (src/server of the repository).
--
-- The program. A session's operations on a table go to a transactional table
-- (src/server/table/transactional_table.cpp), which marks each row with its transaction and decides
-- what a reader sees from the statuses in the transaction storage (src/server/transaction). Rows are
-- kept by a storage engine (src/server/table/storage/lsm_storage.cpp): a log-structured merge tree
-- (src/server/lsm) with a write-ahead log (src/server/wal), which recovery replays after a restart. A
-- leader streams the pages of its log to followers (src/server/replication), and a cleaner removes the
-- segments that neither recovery nor a follower needs.
--
-- The files.
--   Base: the libraries' names passed on, lists over native numbers, strings (std::string as its bytes)
--     and association lists (std::unordered_map).
--   Sdb: src/server/sdb, BufferWriter and BufferReader, with the faults of a read.
--   Wal/Event: src/server/wal/events, the layout of the events. Wal/Segment: the names of the segments.
--   Wal/Files: the directory of the log, as src/server/io/manager.cpp gives it.
--   Wal/Writer, Wal/Reader, Wal/Cleaner, Wal/Tail: writer.cpp, reader.cpp with the loop of OnPage,
--     cleaner.cpp and tail.cpp of src/server/wal.
--   Replication/Registry: src/server/replication/follower_registry.cpp. Replication/Pump: the reactor of
--     src/server/services/replication_service. Replication/Follower: src/server/replication/follower.cpp.
--   Database/Recovery: src/server/wal/recovery.cpp. Database/Catalog, Database/Session: catalog.cpp and
--     session.cpp of src/server/database, over any storage engine.
--   Io/SharedMutex: src/server/io/shared_mutex.cpp, as steps of coroutines.
--   Cli/Split, Cli/Trie: src/cli/utils/split.cpp and src/cli/trie, the pieces of a line and completions.
--   Transaction: src/server/transaction/storage.cpp. Transaction/Reach has its calls, those that Init and
--     recovery make too, as a step relation, in which an id that is committed or rolled back has a status,
--     as the one of a session has.
--   Lsm/Types, Lsm/Codec: src/server/lsm/types.cpp and the headers of src/server/lsm/disk.
--   Lsm/MemTable, Lsm/Page, Lsm/SsTable: the tables and the iterators over one table.
--   Lsm/Iterator: the interface of src/server/lsm/iterators/iterator.hpp, as operations with laws.
--   Lsm/Merge, Lsm/KeyIterator: the iterators over several tables.
--   Lsm/Disk: the builders of pages and table files, and loading them.
--   Lsm/Tree: src/server/lsm/lsm.cpp, every operation of the tree.
--   Table: transactional_table.cpp over any engine; Table/Engine: the engine over a tree, its log, and
--     src/server/wal/recovery.cpp. Table/Engine/Compaction has the adapters of a compaction.
--   Cache: src/server/cache/lru_cache.hpp, over any type of keys with a Boolean equality.
--   Tests: the theorems at concrete inputs.
--
-- How code is modelled. A method that changes its object returns the new object; a failed assertion,
-- an exception or a read of a missing element is `none` or an error value. A coroutine runs from its
-- start to its end, and AcquireRowLock is cut where it suspends; the coroutines of the shared mutex are cut
-- there too. A machine integer of 64 bits is carried as
-- its bit pattern where it is written to or read from bytes; sequence numbers start at 0 and only grow. A
-- file is its bytes, and a write or read of it is taken to move all its bytes. A table
-- reads its pages without the page cache, which stands by itself in Cache: a table file never changes once
-- it is open, so a cached page is what a read gives.
--
-- Bounds and fuel. The binary search has as many rounds as the table has pages, plus one; `Advance` as many as
-- there are tables left, plus two; a drained iterator more than it has records. The theorems that say
-- that these operations succeed show that this is enough. The loop over the events of a page has more
-- rounds than the page has bytes, the loop over pages more than the segment has bytes, and the search
-- for the segment to fetch needs more than there are files. A record has to fit into a page by
-- itself, as options.hpp demands, and lengths and counts into their 64-bit fields.
--
-- Not modelled. The checksum of Boost (src/server/utils/crc.hpp) is a parameter, a function from bytes to a 64-bit
-- pattern. The ids that utils/uuid makes and the answers of gRPC are arguments. The coroutines' interleavings
-- inside one operation, the jobs (timers around modelled operations), Init and Flush of a database, the table
-- service, the executor, the commands of the cli, the client library and the viewer have no file yet or are input
-- and output. The names of segments
-- are read as the program writes them: std::stoll would also read a sign or spaces in front.
pub mod Base
pub mod Sdb
pub mod Wal
pub mod Transaction
pub mod Lsm
pub mod Table
pub mod Cache
pub mod Tests
pub mod Replication
pub mod Database
pub mod Io
pub mod Cli
