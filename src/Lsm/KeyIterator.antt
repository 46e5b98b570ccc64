-- ===== src/Lsm/KeyIterator.antt =====
-- lsm/iterators/lsm_key_iterator.cpp: the versions of one key, table by table, the newest table
-- first. The indices that count down are the tables still to visit, the next one first.
pub mod Advance
pub mod Laws
use structuredb.Base.{
  ℕ, zero, suc, ◌+◌, Bool, true, false, not, Option, none, some, List, [], ◌∷◌, length,
}
use structuredb.Base.Str.{Str}
use structuredb.Lsm.Types.{Record, ScanRange}
use structuredb.Lsm.MemTable.{MemTable}
use structuredb.Lsm.MemTable as Mem
use structuredb.Lsm.SsTable.{SsTable}
use structuredb.Lsm.SsTable as Sst
use structuredb.Lsm.Source as Source
use structuredb.Lsm.Source.{Source, in_mem_table, in_ss_table}

pub record KeyIterator : Type 0 where
  pub range : ScanRange
  -- from `ro_mem_tables_[ro_mem_table_idx_]` down
  pub ro_left : List MemTable
  -- from `ss_tables_[ss_table_idx_]` down
  pub ss_left : List SsTable
  pub current : Option Source

-- `current_iterator_ = GetNextIterator()`; a null pointer is `none`.
unfoldable pub get_next : KeyIterator → Option KeyIterator
get_next i = elim i.ro_left [
  | t ∷ ts ↦ some (record i { ro_left = ts; current = some (in_mem_table (Mem.scan i.range t)) })
  | [] ↦ elim i.ss_left [
    | t ∷ ts ↦ elim (Sst.scan i.range t) [
      | none ↦ none
      | some s ↦ some (record i { ss_left = ts; current = some (in_ss_table s) })
    ]
    | [] ↦ some (record i { current = none })
  ]
]

unfoldable pub has_more : KeyIterator → Bool
has_more i = elim i.current [ none ↦ false | some s ↦ Source.has_more s ]

-- The test of the loop of `Advance`.
unfoldable pub is_exhausted : KeyIterator → Bool
is_exhausted i = elim i.current [ none ↦ false | some s ↦ not (Source.has_more s) ]

unfoldable pub advance_loop : ℕ → KeyIterator → Option KeyIterator
advance_loop zero i = none
advance_loop (suc fuel) i = elim (is_exhausted i) [
  | false ↦ some i
  | true ↦ elim (get_next i) [ none ↦ none | some i' ↦ advance_loop fuel i' ]
]

-- Each round visits a table or ends the iteration.
unfoldable pub advance : KeyIterator → Option KeyIterator
advance i = advance_loop (length i.ro_left + length i.ss_left + 2) i

-- `Create`, with the mem table and the two lists from their backs.
unfoldable pub create : Str → MemTable → List MemTable → List SsTable → Option KeyIterator
create key mem ro ss =
    let range : ScanRange = record { lower_bound = some key; upper_bound = some key } in
    advance (record {
      range = range;
      ro_left = ro;
      ss_left = ss;
      current = some (in_mem_table (Mem.scan range mem));
    })

abbrev pub set_current : Source → KeyIterator → KeyIterator
set_current s i = record i { current = some s }

unfoldable pub next : KeyIterator → Option (Record × KeyIterator)
next i = elim i.current [
  | none ↦ none
  | some s ↦ elim (Source.next s) [
    | none ↦ none
    | some (r, s') ↦ elim (advance (set_current s' i)) [ none ↦ none | some i' ↦ some (r, i') ]
  ]
]
