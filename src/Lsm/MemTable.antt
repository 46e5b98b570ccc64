-- ===== src/Lsm/MemTable.antt =====
-- lsm/mem_table.cpp and lsm/iterators/mem_table_iterator.cpp. The `std::multiset<Record>` is the
-- list of its records in order; an iterator into it is the list from its position on.
pub mod Scan
pub mod Laws
use structuredb.Base.{
  ℕ, Bool, true, false, Option, none, some, List, [], ◌∷◌, if◌then◌else◌, length, not,
}
use structuredb.Base.Str.{Str}
use structuredb.Lsm.Types.{Record, record_lt, ScanRange, max_sequence}
use structuredb.Lsm.Range.{drop_until, below_upper}

abbrev pub MemTable : Type 0
MemTable = List Record

-- `std::multiset::insert`: behind every record that is not above the new one.
unfoldable pub put : Record → MemTable → MemTable
put record_ [] = record_ ∷ []
put record_ (x ∷ xs) = if record_lt record_ x then record_ ∷ x ∷ xs else x ∷ put record_ xs

abbrev pub size : MemTable → ℕ
size = length

-- `Record{.key = key}`, with the default members.
abbrev pub start_record : Str → Record
start_record key = record { key = key; seq_no = max_sequence; value = [] }

pub record MemTableIterator : Type 0 where
  pub range : ScanRange
  pub it : List Record

-- `lower_bound` of the multiset, or `begin`.
start : Option Str → MemTable → List Record
start none table = table
start (some key) table = drop_until (λ x. not (record_lt x (start_record key))) table

unfoldable pub scan : ScanRange → MemTable → MemTableIterator
unfolding start
scan range table = record { range = range; it = start range.lower_bound table }

unfoldable pub has_more : MemTableIterator → Bool
has_more i = elim i.it [ [] ↦ false | x ∷ _ ↦ below_upper i.range.upper_bound x ]

-- Behind the last record the iterator may not be read: `none`.
unfoldable pub next : MemTableIterator → Option (Record × MemTableIterator)
next i = elim i.it [ [] ↦ none | x ∷ rest ↦ some (x, record i { it = rest }) ]
