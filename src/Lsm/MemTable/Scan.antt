-- ===== src/Lsm/MemTable/Scan.antt =====
-- Scanning a mem table.
use structuredb.Base.{
  ℕ, ◌<◌, length, ◌≤◌, ◌≡◌, refl, ap, ◌∙◌, true, false, Option, none, some, List, [], ◌∷◌, arith,
  All, filter, drop,
}
use structuredb.Base.Str.{Str, str_lt, str_eq_iff, str_lt_irrefl}
use structuredb.Lsm.Types.{Record, record_lt, ScanRange, max_sequence}
use structuredb.Lsm.Order.{IsSorted}
use structuredb.Lsm.Range.{
  drop_until, take_while, below_upper, above_lower, in_range, cut-range, IsSorted-IsKeySorted,
}
use structuredb.Lsm.Iterator.{IteratorOps, NextIs, drain, drain-list}
use structuredb.Lsm.MemTable.{MemTable, MemTableIterator, start_record, start, scan, has_more, next}

unfoldable pub contents : MemTableIterator → List Record
contents i = take_while (below_upper i.range.upper_bound) i.it

abbrev pub IsValid : MemTableIterator → Type 0
IsValid i = Unit

pub more_lem :
    (i : MemTableIterator) (r : Record) (rest : List Record)
    → IsValid i
    → contents i ≡ r ∷ rest
    → has_more i ≡ true
unfolding contents take_while has_more
more_lem i r rest v e = ground arith

pub done_lem : (i : MemTableIterator) → IsValid i → contents i ≡ [] → has_more i ≡ false
unfolding contents take_while has_more
done_lem i v e = ground arith

pub next_lem :
    (i : MemTableIterator) (r : Record) (rest : List Record)
    → IsValid i
    → contents i ≡ r ∷ rest
    → NextIs next contents IsValid i r rest
unfolding contents take_while next
next_lem i r rest v e = record {
  after = record i { it = drop 1 i.it };
  next_eq = ground arith;
  after_eq = ground arith;
  after_valid = tt;
}

abbrev pub mem_table_ops : IteratorOps MemTableIterator
mem_table_ops = record {
  has_more = has_more;
  next = next;
  contents = contents;
  valid = IsValid;
  more_lem = more_lem;
  done_lem = done_lem;
  next_lem = next_lem;
}

-- Sequence numbers fit their signed 64-bit field.
abbrev pub SeqBounded : List Record → Type 0
SeqBounded = All (λ r. r.seq_no ≤ max_sequence)

-- The position that `lower_bound` finds for the record made of a key is the first record whose
-- key is not below it.
before_start :
    (key : Str) (x : Record)
    → x.seq_no ≤ max_sequence
    → record_lt x (start_record key) ≡ str_lt x.key key
unfolding record_lt str_lt
before_start key x h = ground (arith, str_eq_iff x.key key, str_lt_irrefl key)

start-drop_until :
    (lower : Option Str) (table : MemTable)
    → SeqBounded table
    → start lower table ≡ drop_until (above_lower lower) table
unfolding start drop_until
start-drop_until none [] h = refl
start-drop_until none (x ∷ xs) h = refl
start-drop_until (some key) [] h = refl
start-drop_until (some key) (x ∷ xs) h =
    ground (arith, before_start key x, start-drop_until (some key) xs h.1)

-- What the iterator of a scan is to return.
pub mem_scan-range :
    (range : ScanRange) (table : MemTable)
    → IsSorted table
    → SeqBounded table
    → contents (scan range table) ≡ filter (in_range range) table
unfolding contents scan
mem_scan-range range table s b =
    ap (take_while (below_upper range.upper_bound)) (start-drop_until range.lower_bound table b)
    ∙ cut-range range table (IsSorted-IsKeySorted table s)

-- The loop over a scan of a mem table that is sorted, with sequence numbers in their field, ends by its test
-- and reads exactly the records whose keys lie in the range, both ends included, in the order of the table.
pub drain-mem_scan :
    (range : ScanRange) (table : MemTable) (fuel : ℕ)
    → IsSorted table
    → SeqBounded table
    → length (filter (in_range range) table) < fuel
    → drain mem_table_ops fuel (scan range table) ≡ some (filter (in_range range) table)
drain-mem_scan range table fuel s b h =
    drain-list mem_table_ops fuel (scan range table) (filter (in_range range) table) tt
      (mem_scan-range range table s b) h
