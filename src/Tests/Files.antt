-- ===== src/Tests/Files.antt =====
-- Tables, files and logs: a file of two records on two pages, and what reads of it give.
use structuredb.Base.{
  ℕ, ◌<◌, length, ◌≡◌, refl, none, some, List, [], ◌∷◌, ◌++◌, arith, All, filter,
}
use structuredb.Base.Str.{Str, str_lt, str_eq}
use structuredb.Lsm.Types.{Record, ScanRange, full_scan, record_lt}
use structuredb.Lsm.Order.{IsSorted}
use structuredb.Lsm.Range.{in_range, take_while, IsKeySorted, IsSorted-IsKeySorted}
use structuredb.Lsm.MemTable.{MemTableIterator, scan}
use structuredb.Lsm.MemTable.Scan as MemScan
use structuredb.Lsm.MemTable.Scan.{drain-mem_scan, mem_table_ops}
use structuredb.Lsm.SsTable.{SsTable, SsTableIterator, lower_bound}
use structuredb.Lsm.SsTable as Sst
use structuredb.Lsm.SsTable.Walk.{ss_table_ops}
use structuredb.Lsm.SsTable.Seek.{flat, Filled, pages_below, lower_bound_lem}
use structuredb.Lsm.SsTable.Scan.{IsTable, drain-table_scan}
use structuredb.Lsm.Merge as Merge
use structuredb.Lsm.Merge.{Item}
use structuredb.Lsm.Merge.Laws.{merge_ops}
use structuredb.Lsm.Merge.Drain.{gather, drain-create_merge}
use structuredb.Lsm.KeyIterator as Key
use structuredb.Lsm.KeyIterator.{KeyIterator}
use structuredb.Lsm.KeyIterator.Laws.{in_tables, in_ss_tables, key_range, key_ops, drain-create_key}
use structuredb.Lsm.Iterator.{drain}
use structuredb.Lsm.Disk.{write_table, open_table}
use structuredb.Lsm.Disk.Build.{max_seq}
use structuredb.Lsm.Disk.RoundTrip.{Writable, open_table-write_table}
use structuredb.Tests.Trees.{no_crc, a, b, short-Fits}
use mathlib.Core.List.{Perm}

abbrev first : Record
first = record { key = a; seq_no = 1; value = b }

abbrev second : Record
second = record { key = b; seq_no = 2; value = a }

abbrev both : List Record
both = first ∷ second ∷ []

both-IsSorted : IsSorted both
unfolding record_lt str_lt str_eq
both-IsSorted = ((refl, tt), (tt, tt))

-- Each of the records fills a page of 64 bytes.
both-Writable : Writable no_crc 64 both
both-Writable = record {
  size_fits = omega arith;
  count_fits = omega arith;
  encodable = ((short-Fits 97 98 1 (omega arith)).0, ((short-Fits 98 97 2 (omega arith)).0, tt));
  alone = ((short-Fits 97 98 1 (omega arith)).1, ((short-Fits 98 97 2 (omega arith)).1, tt));
  crc_fits = λ s. omega arith;
}

abbrev table : SsTable
table = record { file_no = 0; pages = (first ∷ []) ∷ (second ∷ []) ∷ []; max_seq_no = 2 }

flat-IsKeySorted : IsKeySorted (flat table.pages)
unfolding flat
flat-IsKeySorted = IsSorted-IsKeySorted both both-IsSorted

table-Filled : Filled table.pages
table-Filled = (omega arith, (omega arith, tt))

table-IsTable : IsTable table
table-IsTable = record { sorted = flat-IsKeySorted; filled = table-Filled }

abbrev from_b : ScanRange
from_b = record { lower_bound = some b; upper_bound = none }

-- One of the two records is in the range, in a mem table and in a file.
one_of_both : length (filter (in_range from_b) both) < 5
unfolding str_lt str_eq
one_of_both = omega arith

one_of_table : length (filter (in_range from_b) (flat table.pages)) < 5
unfolding str_lt str_eq flat
one_of_table = omega arith

two_of_key :
    length (in_tables (key_range b) (both ∷ []) ++ in_ss_tables (key_range b) (table ∷ [])) < 5
unfolding str_lt str_eq flat in_tables in_ss_tables
two_of_key = omega arith

open_table-write_table_example :
    (file : Str) × (t : SsTable) × (write_table no_crc 64 both ≡ some file)
    × (open_table no_crc 7 file ≡ some t)
    × (t.file_no ≡ 7)
    × (flat t.pages ≡ both)
    × Filled t.pages
    × (t.max_seq_no ≡ max_seq both)
open_table-write_table_example = open_table-write_table no_crc 64 7 both (omega arith) both-Writable

drain-table_scan_example :
    (i : SsTableIterator) × (Sst.scan from_b table ≡ some i)
    × (drain ss_table_ops 5 i ≡ some (filter (in_range from_b) (flat table.pages)))
drain-table_scan_example = drain-table_scan from_b table 5 table-IsTable one_of_table

lower_bound_lem_example : lower_bound b table ≡ some (pages_below b table.pages)
lower_bound_lem_example = lower_bound_lem b table flat-IsKeySorted table-Filled

drain-mem_scan_example :
    drain mem_table_ops 5 (scan from_b both) ≡ some (filter (in_range from_b) both)
drain-mem_scan_example =
    drain-mem_scan from_b both 5 both-IsSorted (omega arith, (omega arith, tt)) one_of_both

drain-create_key_example :
    (i : KeyIterator) × (Key.create b both [] (table ∷ []) ≡ some i)
    × (drain key_ops 5 i
        ≡ some (in_tables (key_range b) (both ∷ []) ++ in_ss_tables (key_range b) (table ∷ [])))
drain-create_key_example =
    drain-create_key b both [] (table ∷ []) 5
      (record { sorted = both-IsSorted; bounded = (omega arith, (omega arith, tt)) }, tt)
      (table-IsTable, tt) two_of_key

-- Two mem table iterators to merge.
abbrev iterators : List MemTableIterator
iterators = scan full_scan both ∷ scan full_scan (second ∷ []) ∷ []

iterators-IsSorted : All (λ i. MemScan.IsValid i × IsSorted (MemScan.contents i)) iterators
unfolding record_lt str_lt str_eq MemScan.contents scan take_while
iterators-IsSorted = ((tt, both-IsSorted), ((tt, (tt, tt)), tt))

drain-create_merge_example :
    (heap : List (Item MemTableIterator)) × (found : List Record) × (Merge.create mem_table_ops
        iterators
      ≡ some heap)
    × ((fuel : ℕ) → length found < fuel → drain (merge_ops mem_table_ops) fuel heap ≡ some found)
    × IsSorted found
    × Perm found (gather mem_table_ops iterators)
drain-create_merge_example = drain-create_merge mem_table_ops iterators iterators-IsSorted
