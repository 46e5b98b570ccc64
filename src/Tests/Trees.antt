-- ===== src/Tests/Trees.antt =====
-- Trees: two keys put into a tree whose mem table is frozen from the second record on.
use structuredb.Base.{
  ℕ, ◌+◌, ◌^◌, ◌<◌, ◌≡◌, true, false, some, List, [], ◌∷◌, arith, length, if◌then◌else◌, filter,
  ◌==◌,
}
use structuredb.Base.Str.{Str, str_eq}
use structuredb.Base.Assoc.{str_key, lookup}
use structuredb.Sdb.Bytes.{le_bytes}
use structuredb.Sdb.{write, write_int, write_string}
use structuredb.Lsm.Types.{Record, full_scan}
use structuredb.Lsm.Order.{IsSorted}
use structuredb.Lsm.Range.{in_range}
use structuredb.Lsm.Codec.{write_record}
use structuredb.Lsm.MemTable as Mem
use structuredb.Lsm.Iterator.{drain}
use structuredb.Lsm.Merge.{Item}
use structuredb.Lsm.Merge.Laws.{merge_ops}
use structuredb.Lsm.Source.{Source, source_ops}
use structuredb.Lsm.KeyIterator.{KeyIterator}
use structuredb.Lsm.KeyIterator.Laws.{key_ops}
use structuredb.Lsm.Tree.{
  Lsm, Options, new_lsm, put, put_at, do_put, freeze, flush, get, scan_key, scan_range,
}
use structuredb.Lsm.Tree.Versions.{versions_of, new_record}
use structuredb.Lsm.Tree.Invariant.{Setup, Fits, Inv, put-Inv}
use structuredb.Lsm.Tree.Flush.{Stored, flush_lem}
use structuredb.Lsm.Tree.Reads.{scan_key_lem, get-put}
use structuredb.Lsm.Tree.Ranges.{scan_range_lem, records}
use structuredb.Lsm.Tree.History.{
  empty_tree, empty_tree-Inv, init-empty, put_at_lem, Step, Run, get-Run,
}
use mathlib.Core.List.{Perm}

abbrev pub small_options : Options
small_options = record {
  max_records_in_mem_table = 1;
  max_ro_mem_tables = 1;
  page_size = 64;
  page_cache_capacity = 4;
}

abbrev pub no_crc : Str → ℕ
no_crc s = 0

pub small_Setup : Setup no_crc small_options
small_Setup = record {
  size_fits = omega arith;
  header_fits = omega arith;
  count_fits = omega arith;
  crc_fits = λ s. omega arith;
}

abbrev pub a : Str
a = 97 ∷ []

abbrev pub b : Str
b = 98 ∷ []

abbrev pub empty : Lsm
empty = empty_tree small_options

pub empty-Inv : Inv no_crc empty
empty-Inv = empty_tree-Inv no_crc small_options small_Setup

-- A record of a key and a value of one byte each fits into a page of 64 bytes.
pub short-Fits :
    (k v n : ℕ)
    → n < 2 ^ 63
    → Fits no_crc small_options (record { key = k ∷ []; seq_no = n; value = v ∷ [] })
unfolding write_record write_string write_int write le_bytes
short-Fits k v n h =
    (record { key_fits = omega arith; seq_no_fits = h; value_fits = omega arith }, omega arith)

empty-Fits : Fits no_crc empty.options (new_record a b empty)
unfolding empty_tree new_lsm
empty-Fits = short-Fits 97 98 1 (omega arith)

-- With the key "a".
abbrev one : Lsm
one = (put a b empty).1

one-Inv : Inv no_crc one
one-Inv = put-Inv no_crc a b empty empty-Inv empty-Fits

one-Fits : Fits no_crc one.options (new_record b a one)
unfolding empty_tree new_lsm put do_put freeze Mem.put
one-Fits = short-Fits 98 97 2 (omega arith)

-- With the keys "a" and "b", in a frozen table.
abbrev two : Lsm
two = (put b a one).1

two-Inv : Inv no_crc two
two-Inv = put-Inv no_crc b a one one-Inv one-Fits

put-Inv_example : Inv no_crc (put b a one).1
put-Inv_example = put-Inv no_crc b a one one-Inv one-Fits

get-put_example : get a (put b a one).1 ≡ (if str_eq b a then some (some a) else get a one)
get-put_example = get-put no_crc b a a one one-Inv one-Fits

flush_lem_example :
    (t : Lsm) × (flush no_crc two ≡ some t)
    × Inv no_crc t
    × (t.ro_mem_tables ≡ [])
    × Stored no_crc two.ro_mem_tables two t
    × ((key : Str) → versions_of key t ≡ versions_of key two)
flush_lem_example = flush_lem no_crc two two-Inv

scan_key_lem_example :
    (i : KeyIterator) × (scan_key a two ≡ some i)
    × (drain key_ops (length (versions_of a two) + 1) i ≡ some (versions_of a two))
scan_key_lem_example = scan_key_lem no_crc a two two-Inv

scan_range_lem_example :
    (it : List (Item Source)) × (found : List Record) × (scan_range full_scan two ≡ some it)
    × (drain (merge_ops source_ops) (length found + 1) it ≡ some found)
    × IsSorted found
    × Perm found (filter (in_range full_scan) (records two))
scan_range_lem_example = scan_range_lem no_crc full_scan two two-Inv

put_at_lem_example :
    put_at 5 a b one ≡ (if 5 == one.next_seq_no then (true, (put a b one).1) else (false, one))
put_at_lem_example = put_at_lem 5 a b one

two_writes : Run no_crc empty ((b, a) ∷ (a, b) ∷ []) two
two_writes = Run.next (Run.next Run.here (Step.puts a b empty-Fits)) (Step.puts b a one-Fits)

get-Run_example : get a two ≡ some (lookup a ((b, a) ∷ (a, b) ∷ []))
get-Run_example = get-Run no_crc a small_Setup (init-empty no_crc small_options) two_writes
