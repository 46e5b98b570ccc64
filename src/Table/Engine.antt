-- ===== src/Table/Engine.antt =====
-- table/storage/lsm_storage.cpp: the engine that keeps a table in a tree and logs its writes, and the
-- methods `Apply` and `IsPersistent` of wal/events with the storages of database/database.cpp that they
-- find. The storages of the database are a map from their ids.
pub mod Recovery
pub mod Contract
pub mod Compaction
use structuredb.Base.{
  ℕ, ◌+◌, ◌≡◌, Bool, true, false, Option, none, some, List, [], ◌∷◌, ◌++◌, map, length,
  if◌then◌else◌, leb,
}
use structuredb.Base.Str.{Str}
use structuredb.Base.Assoc.{str_key, lookup, assign}
use structuredb.Wal.Event.{Event, lsm_storage_upsert, tx_storage_commit}
use structuredb.Transaction.{Storage}
use structuredb.Transaction as Tx
use structuredb.Lsm.Types.{Record, ScanRange}
use structuredb.Lsm.Iterator.{drain}
use structuredb.Lsm.Source.{source_ops}
use structuredb.Lsm.Merge.Laws.{merge_ops}
use structuredb.Lsm.KeyIterator.Laws.{key_ops}
use structuredb.Lsm.Tree.{Lsm, Options, new_lsm, put, put_at, scan_key, scan_range}
use structuredb.Lsm.Tree.Versions.{versions_of}
use structuredb.Lsm.Tree.Ranges.{records}
use structuredb.Table.{Row}

pub record LsmEngine : Type 0 where
  pub lsm : Lsm
  pub id : Str
  -- whether `wal_writer_` is set
  pub has_wal_writer : Bool

unfoldable pub start_log_into : LsmEngine → LsmEngine
start_log_into e = record e { has_wal_writer = true }

unfoldable pub recover_from_log : ℕ → Str → Str → LsmEngine → LsmEngine
recover_from_log seq_no key value e = record e { lsm = (put_at seq_no key value e.lsm).1 }

-- The engine after `Upsert`, and the events handed to the log.
unfoldable pub upsert : Row → LsmEngine → LsmEngine × List Event
upsert row e =
    let after = put row.key row.value e.lsm in
    (
      record e { lsm = after.1 },
      if e.has_wal_writer then lsm_storage_upsert e.id after.0 row.key row.value ∷ [] else [],
    )

unfoldable pub is_persistent : ℕ → LsmEngine → Bool
is_persistent seq_no e = leb seq_no e.lsm.max_persistent_seq_no

-- `LsmEngineIterator::Next`
abbrev pub row_of : Record → Row
row_of r = record { key = r.key; value = r.value }

-- The rows of `Scan(key)`, read to the end; the fuel is more than the versions of the key.
unfoldable pub scan_key_rows : Str → LsmEngine → Option (List Row)
scan_key_rows key e = elim (scan_key key e.lsm) [
  | none ↦ none
  | some it ↦ elim (drain key_ops (length (versions_of key e.lsm) + 1) it) [
    | none ↦ none
    | some found ↦ some (map row_of found)
  ]
]

-- The rows of a scan of a range, read to the end; the fuel is more than the records of the tree.
unfoldable pub scan_rows : Option Str → Option Str → LsmEngine → Option (List Row)
scan_rows lower upper e =
    let range : ScanRange = record { lower_bound = lower; upper_bound = upper } in
    elim (scan_range range e.lsm) [
      | none ↦ none
      | some it ↦ elim (drain (merge_ops source_ops) (length (records e.lsm) + 1) it) [
        | none ↦ none
        | some found ↦ some (map row_of found)
      ]
    ]

-- `Context`: what recovery and sessions work on.
pub record Database : Type 0 where
  pub lsm_options : Options
  -- whether `wal_writer` is set
  pub has_wal_writer : Bool
  pub tx_storage : Storage
  pub engines : List (Str × LsmEngine)

-- An engine over a directory that was just made, after `Init`: the sequence numbers begin at 1.
unfoldable pub new_engine : Options → Str → Bool → LsmEngine
unfolding new_lsm
new_engine options id logs = record {
  lsm = record (new_lsm options []) { next_seq_no = 1 };
  id = id;
  has_wal_writer = logs;
}

-- `Database::EnsureStorageForRecover`: the engine, and the database that has it.
unfoldable pub ensure_storage_for_recover : Str → Database → LsmEngine × Database
unfolding new_engine
ensure_storage_for_recover id db = elim (lookup id db.engines) [
  | some e ↦ (e, db)
  | none ↦
      let e = new_engine db.lsm_options id db.has_wal_writer in
      (e, record db { engines = assign id e db.engines })
]

-- `Database::GetStorageForRecover`, whose `at` throws at an id that is not there.
unfoldable pub get_storage_for_recover : Str → Database → Option LsmEngine
get_storage_for_recover id db = lookup id db.engines

-- `Event::Apply`
unfoldable pub apply : Event → Database → Database
unfolding recover_from_log ensure_storage_for_recover
apply (lsm_storage_upsert id seq_no key value) db =
    let (e, db') = ensure_storage_for_recover id db in
    record db' { engines = assign id (recover_from_log seq_no key value e) db'.engines }
apply (tx_storage_commit tx) db = record db { tx_storage = Tx.recover_from_log tx db.tx_storage }

-- `Event::IsPersistent`, which throws where the engine is missing.
unfoldable pub is_event_persistent : Event → Database → Option Bool
unfolding is_persistent get_storage_for_recover
is_event_persistent (lsm_storage_upsert id seq_no key value) db =
    elim (get_storage_for_recover id db) [ none ↦ none | some e ↦ some (is_persistent seq_no e) ]
is_event_persistent (tx_storage_commit tx) db = some true

-- The loop of `OnPage` over the events of the log.
unfoldable pub replay : List Event → Database → Database
unfolding apply
replay [] db = db
replay (e ∷ es) db = replay es (apply e db)
