-- ===== src/Wal/Cleaner.antt =====
-- wal/cleaner.cpp: the removal of the segments whose events are all in table files. A segment number
-- that is `none` is the -1 of a name that has no number.
pub mod Marks
pub mod Deletion
pub mod Safety
use structuredb.Base.{ℕ, Bool, true, false, ◌&&◌, not, Option, none, some, List, [], ◌∷◌, ◌++◌, leb}
use structuredb.Base.Str.{Str}
use structuredb.Base.Assoc.{option_key, lookup, assign}
use structuredb.Wal.Event.{Event}
use structuredb.Wal.Segment.{segment_name, extension}
use structuredb.Wal.Files.{Directory, remove}
use structuredb.Wal.Reader.{Position, read}
use structuredb.Table.Engine.{Database, is_event_persistent}

-- `segment_persistence_`
abbrev pub Persistence : Type 0
Persistence = List (Option ℕ × Bool)

unfoldable pub accumutae_persistence : Option ℕ → Bool → Persistence → Persistence
accumutae_persistence segment_no is_persistent m = elim (lookup segment_no m) [
  | none ↦ assign segment_no is_persistent m
  | some before ↦ assign segment_no (before && is_persistent) m
]

-- What `OnPage` does with an event.
unfoldable pub on_event : Database → Position → Event → Persistence → Option Persistence
unfolding accumutae_persistence
on_event db pos event m = elim (is_event_persistent event db) [
  | none ↦ none
  | some is_persistent ↦ some (accumutae_persistence pos.segment_no is_persistent m)
]

-- `segment_no >= retain_from_segment`, where -1 is the least number and no follower retains nothing.
unfoldable pub is_retained : Option (Option ℕ) → Option ℕ → Bool
is_retained none segment_no = false
is_retained (some none) segment_no = true
is_retained (some (some from)) none = false
is_retained (some (some from)) (some segment_no) = leb from segment_no

-- `std::format("{:04d}.wal.sdb", segment_no)`; -1 makes "-001".
unfoldable pub segment_file : Option ℕ → Str
segment_file none = (45 ∷ 48 ∷ 48 ∷ 49 ∷ []) ++ extension
segment_file (some n) = segment_name n

unfoldable pub delete_obsolete_segments : Option (Option ℕ) → Persistence → Directory → Directory
unfolding is_retained segment_file
delete_obsolete_segments retain [] d = d
delete_obsolete_segments retain ((segment_no, is_persistent) ∷ m) d =
    delete_obsolete_segments retain m (elim (is_persistent && not (is_retained retain segment_no)) [
      | true ↦ remove (segment_file segment_no) d
      | false ↦ d
    ])

unfoldable pub clean : Database → Option (Option ℕ) → Directory → Directory
unfolding on_event delete_obsolete_segments
clean db retain d = delete_obsolete_segments retain (read (on_event db) d []) d
