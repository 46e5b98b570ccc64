-- ===== src/Lsm/Types.antt =====
-- lsm/types.hpp, types.cpp: the records of the tree, their order, and scan ranges.
use structuredb.Base.{ℕ, ◌-◌, ◌^◌, Bool, Option, none, if◌then◌else◌, ltb, ◌==◌}
use structuredb.Base.Str.{Str, str_lt, str_eq}

abbrev pub max_sequence : ℕ
max_sequence = 2 ^ 63 - 1

-- Sequence numbers are never negative: they start at 0 and only grow.
pub record Record : Type 0 where
  pub key : Str
  pub seq_no : ℕ
  pub value : Str

-- `Record::operator<`: by key, then the newest first, then by value.
unfoldable pub record_lt : Record → Record → Bool
record_lt a b =
    if str_eq a.key b.key
    then (if a.seq_no == b.seq_no then str_lt a.value b.value else ltb b.seq_no a.seq_no)
    else str_lt a.key b.key

pub record ScanRange : Type 0 where
  pub lower_bound : Option Str
  pub upper_bound : Option Str

abbrev pub full_scan : ScanRange
full_scan = record { lower_bound = none; upper_bound = none }
