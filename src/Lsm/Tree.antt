-- ===== src/Lsm/Tree.antt =====
-- lsm/lsm.cpp, lsm/options.hpp and lsm/iterators/lsm_range_iterator.cpp: the tree. An operation runs
-- from its first statement to its last; `none` is a failed assertion, an exception, or fuel that ran
-- out in one of its parts. The directory maps the number in a file's name to the file's bytes.
pub mod Versions
pub mod Invariant
pub mod Publish
pub mod Flush
pub mod Reads
pub mod History
pub mod Ranges
use structuredb.Base.{
  ℕ, zero, suc, ◌+◌, max, Bool, true, false, Option, none, some, List, [], ◌∷◌, ◌++◌, length, map,
  ltb, ◌==◌, if◌then◌else◌,
}
use structuredb.Base.Str.{Str}
use structuredb.Base.Assoc.{nat_key, assign, erase}
use structuredb.Lsm.Types.{Record, ScanRange, full_scan}
use structuredb.Lsm.MemTable.{MemTable}
use structuredb.Lsm.MemTable as Mem
use structuredb.Lsm.SsTable.{SsTable, SsTableIterator}
use structuredb.Lsm.SsTable as Sst
use structuredb.Lsm.SsTable.Walk.{ss_table_ops}
use structuredb.Lsm.Disk.{SsTableBuilder, create_builder, new_file, finish, write_table, open_table}
use structuredb.Lsm.Source.{Source, in_mem_table, in_ss_table, source_ops}
use structuredb.Lsm.Merge as Merge
use structuredb.Lsm.Merge.{Item}
use structuredb.Lsm.KeyIterator as Key
use structuredb.Lsm.KeyIterator.{KeyIterator}
use mathlib.Core.List.{reverse}

pub record Options : Type 0 where
  pub max_records_in_mem_table : ℕ
  pub max_ro_mem_tables : ℕ
  pub page_size : ℕ
  pub page_cache_capacity : ℕ

abbrev pub default_options : Options
default_options = record {
  max_records_in_mem_table = 10000;
  max_ro_mem_tables = 1;
  page_size = 4096;
  page_cache_capacity = 1024;
}

pub record Lsm : Type 0 where
  pub options : Options
  pub mem_table : MemTable
  -- the oldest in front, in both lists
  pub ro_mem_tables : List MemTable
  pub ss_tables : List SsTable
  pub max_persistent_seq_no : ℕ
  pub next_seq_no : ℕ
  pub files : List (ℕ × Str)

-- The constructor.
unfoldable pub new_lsm : Options → List (ℕ × Str) → Lsm
new_lsm options files = record {
  options = options;
  mem_table = [];
  ro_mem_tables = [];
  ss_tables = [];
  max_persistent_seq_no = 0;
  next_seq_no = 0;
  files = files;
}

-- The loop of `Init` over the sorted names.
unfoldable pub init_loop : (Str → ℕ) → List (ℕ × Str) → Lsm → Option Lsm
init_loop crc [] t = some t
init_loop crc ((n, bytes) ∷ names) t = elim (open_table crc n bytes) [
  | none ↦ none
  | some ss_table ↦ init_loop crc names (record t {
    ss_tables = t.ss_tables ++ (ss_table ∷ []);
    max_persistent_seq_no = max t.max_persistent_seq_no ss_table.max_seq_no;
  })
]

-- `Init` of a tree over a directory whose names, sorted, are those of `files`.
unfoldable pub init : (Str → ℕ) → Options → List (ℕ × Str) → Option Lsm
unfolding new_lsm
init crc options files = elim (init_loop crc files (new_lsm options files)) [
  | none ↦ none
  | some t ↦ some (record t { next_seq_no = t.max_persistent_seq_no + 1 })
]

-- The freezing of a full mem table.
unfoldable pub freeze : Lsm → Lsm
freeze t =
    if ltb t.options.max_records_in_mem_table (length t.mem_table)
    then record t { mem_table = []; ro_mem_tables = t.ro_mem_tables ++ (t.mem_table ∷ []) }
    else t

unfoldable pub do_put : ℕ → Str → Str → Lsm → Lsm
unfolding freeze
do_put seq_no key value t =
    let r : Record = record { key = key; seq_no = seq_no; value = value } in
    freeze (record t { mem_table = Mem.put r t.mem_table })

-- `Put(key, value)`
unfoldable pub put : Str → Str → Lsm → ℕ × Lsm
unfolding do_put
put key value t =
    let seq_no = t.next_seq_no in
    (seq_no, do_put seq_no key value (record t { next_seq_no = seq_no + 1 }))

-- `Put(seq_no, key, value)`, which recovery uses.
unfoldable pub put_at : ℕ → Str → Str → Lsm → Bool × Lsm
unfolding do_put
put_at seq_no key value t =
    if seq_no == t.next_seq_no
    then (let t' = do_put seq_no key value t in
        (true, record t' { next_seq_no = t'.next_seq_no + 1 }))
    else (false, t)

-- What one round of `Flush` does with the new table.
abbrev pub publish : SsTable → Str → List MemTable → Lsm → Lsm
publish ss_table bytes frozen t = record t {
  ro_mem_tables = frozen;
  ss_tables = t.ss_tables ++ (ss_table ∷ []);
  max_persistent_seq_no = max t.max_persistent_seq_no ss_table.max_seq_no;
  files = assign (length t.ss_tables) bytes t.files;
}

-- One round of the loop of `Flush`: the front mem table goes into the file whose number is the
-- number of tables.
unfoldable pub flush_front : (Str → ℕ) → Lsm → Option Lsm
flush_front crc t = elim t.ro_mem_tables [
  | [] ↦ none
  | front ∷ frozen ↦ elim (write_table crc t.options.page_size front) [
    | none ↦ none
    | some bytes ↦ elim (open_table crc (length t.ss_tables) bytes) [
      | none ↦ none
      | some ss_table ↦ some (publish ss_table bytes frozen t)
    ]
  ]
]

unfoldable pub flush_loop : (Str → ℕ) → ℕ → Lsm → Option Lsm
flush_loop crc zero t = some t
flush_loop crc (suc pending) t = elim (flush_front crc t) [
  | none ↦ none
  | some t' ↦ flush_loop crc pending t'
]

unfoldable pub flush : (Str → ℕ) → Lsm → Option Lsm
flush crc t = flush_loop crc (length t.ro_mem_tables) t

-- `Scan(key)`
unfoldable pub scan_key : Str → Lsm → Option KeyIterator
scan_key key t = Key.create key t.mem_table (reverse t.ro_mem_tables) (reverse t.ss_tables)

-- `Get`: the first record of the scan, if there is one.
unfoldable pub get : Str → Lsm → Option (Option Str)
unfolding scan_key
get key t = elim (scan_key key t) [
  | none ↦ none
  | some it ↦
      if Key.has_more it
      then elim (Key.next it) [ none ↦ none | some (r, it') ↦ some (some r.value) ]
      else some none
]

unfoldable pub scan_ss_tables : ScanRange → List SsTable → Option (List SsTableIterator)
scan_ss_tables range [] = some []
scan_ss_tables range (t ∷ ts) = elim (Sst.scan range t) [
  | none ↦ none
  | some i ↦ elim (scan_ss_tables range ts) [ none ↦ none | some is ↦ some (i ∷ is) ]
]

-- `Scan(range)`: `LsmRangeIterator::Create`.
unfoldable pub scan_range : ScanRange → Lsm → Option (List (Item Source))
unfolding scan_ss_tables
scan_range range t = elim (scan_ss_tables range t.ss_tables) [
  | none ↦ none
  | some is ↦ Merge.create source_ops (
      map (λ m. in_mem_table (Mem.scan range m)) (t.mem_table ∷ t.ro_mem_tables)
      ++ map in_ss_table is)
]

-- `GetSSTableNo` of the last table, plus one.
unfoldable pub new_file_no : List SsTable → ℕ
new_file_no [] = 0
new_file_no (t ∷ []) = t.file_no + 1
new_file_no (t ∷ u ∷ ts) = new_file_no (u ∷ ts)

unfoldable pub remove_files : List SsTable → List (ℕ × Str) → List (ℕ × Str)
remove_files [] files = files
remove_files (t ∷ ts) files = remove_files ts (erase t.file_no files)

-- A strategy reads the merge of the tables, and adds records to the builder.
abbrev pub CompactionStrategy : Type 0
CompactionStrategy = List (Item SsTableIterator) → SsTableBuilder → Option SsTableBuilder

-- The bytes that the strategy leaves in the new file.
unfoldable pub compact_file : (Str → ℕ) → CompactionStrategy → Lsm → Option Str
compact_file crc strategy t = elim (scan_ss_tables full_scan t.ss_tables) [
  | none ↦ none
  | some is ↦ elim (Merge.create ss_table_ops is) [
    | none ↦ none
    | some merged ↦ elim (strategy merged (create_builder new_file t.options.page_size)) [
      | none ↦ none
      | some b ↦ elim (finish crc b) [ none ↦ none | some w ↦ some w.content ]
    ]
  ]
]

unfoldable pub compact : (Str → ℕ) → CompactionStrategy → Lsm → Option Lsm
unfolding compact_file new_file_no remove_files
compact crc strategy t = elim (compact_file crc strategy t) [
  | none ↦ none
  | some bytes ↦
      let n = new_file_no t.ss_tables in
      elim (open_table crc n bytes) [
        | none ↦ none
        | some ss_table ↦ some (record t {
          ss_tables = ss_table ∷ [];
          files = remove_files t.ss_tables (assign n bytes t.files);
        })
      ]
]
