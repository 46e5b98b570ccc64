-- ===== src/Lsm/Tree/Ranges.antt =====
-- A scan of a range of keys: the merge of all tables.
use structuredb.Base.{
  ℕ, ◌+◌, ◌≡◌, refl, sym, ap, ◌∙◌, subst, Bool, false, some, List, [], ◌∷◌, ◌++◌, length, arith,
  All, All-append, filter, filter-append, map, Bool-cases, inl, inr,
}
use structuredb.Base.Str.{Str}
use structuredb.Lsm.Types.{Record, ScanRange, record_lt}
use structuredb.Lsm.Order.{IsSorted}
use structuredb.Lsm.Range.{in_range}
use structuredb.Lsm.Iterator.{drain, drain-contents}
use structuredb.Lsm.MemTable.{MemTable}
use structuredb.Lsm.MemTable as Mem
use structuredb.Lsm.MemTable.Scan.{mem_scan-range}
use structuredb.Lsm.SsTable.{SsTable, SsTableIterator}
use structuredb.Lsm.SsTable.Seek.{flat}
use structuredb.Lsm.SsTable.Walk.{ss_table_ops}
use structuredb.Lsm.SsTable.Walk as SstWalk
use structuredb.Lsm.SsTable.Scan.{IsFull, IsFull-IsTable, table_scan-range}
use structuredb.Lsm.Source.{Source, in_mem_table, in_ss_table, source_ops}
use structuredb.Lsm.Source as Source
use structuredb.Lsm.Merge as Merge
use structuredb.Lsm.Merge.{Item}
use structuredb.Lsm.Merge.Laws.{pool, merge_ops}
use structuredb.Lsm.Merge.Drain.{gather, create_lem}
use structuredb.Lsm.KeyIterator.Laws.{IsMemTable}
use structuredb.Lsm.Tree.Invariant.{TableOk, Inv, All-reverse}
use structuredb.Lsm.Tree.Reads.{TablesOk-IsMemTable}
use structuredb.Lsm.Tree.{Lsm, scan_ss_tables, scan_range}
use mathlib.Core.List.{Perm, append_assoc}

-- All records of the tree: the mem table, the frozen ones, the files.
unfoldable pub mem_records : List MemTable → List Record
mem_records [] = []
mem_records (m ∷ ms) = m ++ mem_records ms

unfoldable pub file_records : List SsTable → List Record
file_records [] = []
file_records (t ∷ ts) = flat t.pages ++ file_records ts

All-filter :
    (P : Record → Type 0) (p : Record → Bool) (xs : List Record) → All P xs → All P (filter p xs)
All-filter P p [] h = tt
All-filter P p (x ∷ xs) h = elim (Bool-cases (p x)) [
  | inl e ↦ rw e (h.0, All-filter P p xs h.1)
  | inr e ↦ rw e (All-filter P p xs h.1)
]

pub filter-IsSorted : (p : Record → Bool) (xs : List Record) → IsSorted xs → IsSorted (filter p xs)
filter-IsSorted p [] h = tt
filter-IsSorted p (x ∷ xs) h = elim (Bool-cases (p x)) [
  | inl e ↦ rw e (All-filter (λ y. record_lt y x ≡ false) p xs h.0, filter-IsSorted p xs h.1)
  | inr e ↦ rw e (filter-IsSorted p xs h.1)
]

-- Scans of the table files succeed one after the other.
abbrev Placed : SsTableIterator → Type 0
Placed i = SstWalk.IsValid i × IsSorted (SstWalk.contents i)

pub scan_ss_tables_lem :
    (range : ScanRange) (ts : List SsTable)
    → All IsFull ts
    → (is : List SsTableIterator) × (scan_ss_tables range ts ≡ some is)
      × All Placed is
      × (gather ss_table_ops is ≡ filter (in_range range) (file_records ts))
unfolding scan_ss_tables gather file_records
scan_ss_tables_lem range [] h = ([], refl, tt, refl)
scan_ss_tables_lem range (t ∷ ts) h =
    let (i, e, v, c) = table_scan-range range t (IsFull-IsTable t h.0) in
    let (is, es, vs, cs) = scan_ss_tables_lem range ts h.1 in
    (
      i ∷ is,
      rw (e, es, scan_ss_tables),
      (
        (v, subst IsSorted (sym c) (filter-IsSorted (in_range range) (flat t.pages) h.0.in_order)),
        vs,
      ),
      rw (c, cs) (sym (filter-append (in_range range) (flat t.pages) (file_records ts))),
    )

abbrev IsPlaced : Source → Type 0
IsPlaced s = Source.IsValid s × IsSorted (Source.contents s)

file_sources : (is : List SsTableIterator) → All Placed is → All IsPlaced (map in_ss_table is)
file_sources [] h = tt
file_sources (i ∷ is) h = (h.0, file_sources is h.1)

gather-files :
    (is : List SsTableIterator) → gather source_ops (map in_ss_table is) ≡ gather ss_table_ops is
unfolding gather
gather-files [] = refl
gather-files (i ∷ is) = ap (λ l. SstWalk.contents i ++ l) (gather-files is)

abbrev mem_source : ScanRange → MemTable → Source
mem_source range m = in_mem_table (Mem.scan range m)

mem_sources :
    (range : ScanRange) (ms : List MemTable)
    → All IsMemTable ms
    → All IsPlaced (map (mem_source range) ms)
mem_sources range [] h = tt
mem_sources range (m ∷ ms) h = (
  (
    tt,
    subst IsSorted (sym (mem_scan-range range m h.0.sorted h.0.bounded))
        (filter-IsSorted (in_range range) m h.0.sorted),
  ),
  mem_sources range ms h.1,
)

gather-mem :
    (range : ScanRange) (ms : List MemTable) (ss : List Source)
    → All IsMemTable ms
    → gather source_ops (map (mem_source range) ms ++ ss)
      ≡ filter (in_range range) (mem_records ms) ++ gather source_ops ss
unfolding gather mem_records
gather-mem range [] ss h = refl
gather-mem range (m ∷ ms) ss h =
    rw
      (
        mem_scan-range range m h.0.sorted h.0.bounded,
        gather-mem range ms ss h.1,
        filter-append (in_range range) m (mem_records ms),
      )
      (sym (
        append_assoc (filter (in_range range) m) (filter (in_range range) (mem_records ms))
          (gather source_ops ss)))

-- All records that a tree holds.
unfoldable pub records : Lsm → List Record
records t = mem_records (t.mem_table ∷ t.ro_mem_tables) ++ file_records t.ss_tables

scan_range_eq_of :
    (range : ScanRange) (t : Lsm) (is : List SsTableIterator) (heap : List (Item Source))
    → scan_ss_tables range t.ss_tables ≡ some is
    → Merge.create source_ops
        (map (mem_source range) (t.mem_table ∷ t.ro_mem_tables) ++ map in_ss_table is)
      ≡ some heap
    → scan_range range t ≡ some heap
unfolding scan_range
scan_range_eq_of range t is heap e c = rw (e, scan_range) c

tables_of :
    (crc : Str → ℕ) (t : Lsm)
    → Inv crc t
    → All IsMemTable (t.mem_table ∷ t.ro_mem_tables) × All IsFull t.ss_tables
tables_of crc t v =
    let oks = v.parts.mem_tables in
    (
      TablesOk-IsMemTable crc t.options (t.mem_table ∷ t.ro_mem_tables)
          (oks.0, All-reverse (TableOk crc t.options) t.ro_mem_tables oks.1),
      All-reverse IsFull t.ss_tables v.parts.ss_tables,
    )

-- In a tree that keeps the invariant, `Scan(range)` succeeds. Reading it to its end returns the
-- records of the tree whose keys lie in the range, both ends included, each as often as the tree
-- holds it, ordered by key and, for one key, from the newest version to the oldest.
pub scan_range_lem :
    (crc : Str → ℕ) (range : ScanRange) (t : Lsm)
    → Inv crc t
    → (it : List (Item Source)) × (found : List Record) × (scan_range range t ≡ some it)
      × (drain (merge_ops source_ops) (length found + 1) it ≡ some found)
      × IsSorted found
      × Perm found (filter (in_range range) (records t))
unfolding records
scan_range_lem crc range t v =
    let (vm, vs) = tables_of crc t v in
    let (is, e, placed, c) = scan_ss_tables_lem range t.ss_tables vs in
    let ms = t.mem_table ∷ t.ro_mem_tables in
    let (heap, created, ready, sorted, perm) =
      create_lem source_ops (map (mem_source range) ms ++ map in_ss_table is) (
        All-append IsPlaced (map (mem_source range) ms) (map in_ss_table is)
          (mem_sources range ms vm) (file_sources is placed)) in
    (
      heap,
      pool source_ops heap,
      scan_range_eq_of range t is heap e created,
      drain-contents (merge_ops source_ops) _ heap ready (omega arith),
      sorted,
      subst (Perm (pool source_ops heap))
          (gather-mem range ms (map in_ss_table is) vm
            ∙ ap (λ l. filter (in_range range) (mem_records ms) ++ l) (gather-files is ∙ c)
            ∙ sym (filter-append (in_range range) (mem_records ms) (file_records t.ss_tables)))
          perm,
    )
