-- ===== src/Wal/Writer.antt =====
-- wal/writer.cpp: the log writer, with the directory that it writes to. `fsync` has no effect on what
-- a directory holds.
pub mod Page
pub mod Numbers
pub mod Reading
use structuredb.Base.{
  ℕ, zero, suc, ◌+◌, ◌-◌, ◌≡◌, Bool, true, false, Option, none, some, List, [], ◌∷◌, ◌++◌, length,
  replicate, if◌then◌else◌, ltb, leb, ◌==◌,
}
use structuredb.Base.Str.{Str}
use structuredb.Wal.{wal_page_size, max_pages_in_segment}
use structuredb.Wal.Event.{Event, flush_event}
use structuredb.Wal.Segment.{segment_name, get_segment_no_from_name}
use structuredb.Wal.Files.{Directory, list_directory, sort, create_file_appender, append_to}

pub record Writer : Type 0 where
  -- the file that `current_segment_writer_` is open on
  pub current_segment : Str
  pub current_page_size : ℕ
  pub pages_in_current_segment : ℕ
  pub current_segment_no : ℕ

-- The writer and its directory.
abbrev pub Log : Type 0
Log = Writer × Directory

abbrev write_file : Str → Log → Log
write_file bytes (w, d) = (w, append_to w.current_segment bytes d)

unfoldable pub open_segment : Log → Log
open_segment (w, d) =
    let name = segment_name w.current_segment_no in
    (record w { current_segment = name; pages_in_current_segment = 0 }, create_file_appender name d)

unfoldable pub flush_segment : Log → Log
unfolding open_segment
flush_segment (w, d) = open_segment (record w { current_segment_no = w.current_segment_no + 1 }, d)

-- The zeros that fill the page.
unfoldable pub pad : Log → Log
pad (w, d) =
    if ltb w.current_page_size wal_page_size
    then write_file (replicate (wal_page_size - w.current_page_size) 0) (w, d)
    else (w, d)

unfoldable pub close_page : Log → Log
close_page (w, d) = (
  record w { current_page_size = 0; pages_in_current_segment = w.pages_in_current_segment + 1 },
  d,
)

unfoldable pub flush_page : Log → Log
unfolding pad close_page flush_segment
flush_page (w, d) =
    if w.current_page_size == 0
    then (w, d)
    else (let closed = close_page (pad (w, d)) in
        if leb max_pages_in_segment closed.0.pages_in_current_segment
        then flush_segment closed
        else closed)

-- The bytes of an event behind those of the page.
unfoldable pub write_bytes : Str → Log → Log
write_bytes bytes (w, d) =
    let (w', d') = write_file bytes (w, d) in
    (record w' { current_page_size = w'.current_page_size + length bytes }, d')

unfoldable pub write : Event → Log → Log
unfolding flush_page write_bytes
write event (w, d) =
    let bytes = flush_event event [] in
    write_bytes bytes
      (if ltb wal_page_size (w.current_page_size + length bytes) then flush_page (w, d) else (w, d))

unfoldable pub write_all : List Event → Log → Log
unfolding write
write_all [] log = log
write_all (e ∷ es) log = write_all es (write e log)

-- The number after that of the last segment; the number of a name that has none is -1.
unfoldable pub next_segment_no : List Str → ℕ
next_segment_no [] = 0
next_segment_no (name ∷ []) = elim (get_segment_no_from_name name) [ none ↦ 0 | some n ↦ n + 1 ]
next_segment_no (name ∷ next ∷ names) = next_segment_no (next ∷ names)

-- `Writer::Open`
unfoldable pub init : Directory → Log
unfolding open_segment next_segment_no
init d = open_segment (
  record {
    current_segment = [];
    current_page_size = 0;
    pages_in_current_segment = 0;
    current_segment_no = next_segment_no (sort (list_directory d));
  },
  d,
)
