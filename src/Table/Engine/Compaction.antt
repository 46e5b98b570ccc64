-- ===== src/Table/Engine/Compaction.antt =====
-- Compaction of a table: the adapters of table/storage/lsm_storage.cpp between the rows of
-- `CompactRows` and the records of the tree. A row that is written takes the sequence number of the
-- record that was read last, which is the one that the row was made of.
use structuredb.Base.{ℕ, ◌+◌, true, false, Option, none, some, List, [], ◌∷◌, length}
use structuredb.Base.Str.{Str}
use structuredb.Transaction.{Storage}
use structuredb.Lsm.Types.{Record}
use structuredb.Lsm.Iterator.{drain}
use structuredb.Lsm.SsTable.Walk.{ss_table_ops}
use structuredb.Lsm.Merge.Laws.{merge_ops, pool}
use structuredb.Lsm.Disk.{add_all}
use structuredb.Lsm.Tree.{Lsm, CompactionStrategy}
use structuredb.Lsm.Tree as Tree
use structuredb.Table.{Row, parse_value, frozen_row, last_is}
use structuredb.Table.Engine.{LsmEngine, row_of}

-- `LsmOutputIterator::Write`
abbrev record_of : ℕ → Row → Record
record_of last_seq_no row = record { key = row.key; seq_no = last_seq_no; value = row.value }

-- The loop of `CompactRows` between the two adapters.
unfoldable pub compact_records : Storage → Option Str → List Record → Option (List Record)
compact_records st last [] = some []
compact_records st last (r ∷ rs) = elim (parse_value r.value) [
  | none ↦ none
  | some v ↦ elim (frozen_row st (row_of r) v) [
    | none ↦ compact_records st last rs
    | some kept ↦ elim (last_is last r.key) [
      | true ↦ compact_records st last rs
      | false ↦ elim (compact_records st (some r.key) rs) [
        | none ↦ none
        | some result ↦ some (record_of r.seq_no kept ∷ result)
      ]
    ]
  ]
]

-- `LsmEngineCompactStrategy::CompactRecords`; the fuel is more than the records to merge.
unfoldable pub compact_strategy : (Str → ℕ) → Storage → CompactionStrategy
unfolding compact_records
compact_strategy crc st merged builder =
    elim (drain (merge_ops ss_table_ops) (length (pool ss_table_ops merged) + 1) merged) [
      | none ↦ none
      | some found ↦ elim (compact_records st none found) [
        | none ↦ none
        | some kept ↦ add_all crc kept builder
      ]
    ]

-- The engine with the tree that an operation leaves.
abbrev with_lsm : LsmEngine → Option Lsm → Option LsmEngine
with_lsm e none = none
with_lsm e (some t) = some (record e { lsm = t })

-- `TransactionalTable::Compact` and `LsmEngine::Compact`
unfoldable pub compact : (Str → ℕ) → Storage → LsmEngine → Option LsmEngine
unfolding compact_strategy
compact crc st e = with_lsm e (Tree.compact crc (compact_strategy crc st) e.lsm)

unfoldable pub flush : (Str → ℕ) → LsmEngine → Option LsmEngine
flush crc e = with_lsm e (Tree.flush crc e.lsm)

unfoldable pub count_ss_tables : LsmEngine → ℕ
count_ss_tables e = length e.lsm.ss_tables
