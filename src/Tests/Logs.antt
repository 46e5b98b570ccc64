-- ===== src/Tests/Logs.antt =====
-- Logs: two upserts that share no page, a restart, a cleaning, and the streaming of a segment.
use structuredb.Base.{
  ℕ, ◌+◌, ◌<◌, ◌≡◌, refl, some, List, [], ◌∷◌, ◌++◌, length, replicate, length-replicate,
  length-append, arith, All, ◌≢◌,
}
use structuredb.Base.Str.{Str}
use structuredb.Base.Assoc.{str_key, nat_key, option_key, lookup}
use structuredb.Sdb.Bytes.{le_bytes, length-le_bytes}
use structuredb.Sdb.{write, write_int, write_string}
use structuredb.Wal.Event.{Event, lsm_storage_upsert, tx_storage_commit, flush_event, flush_fields}
use structuredb.Wal.Segment.{segment_name, four_digits, get_segment_no_from_name, digits_value}
use structuredb.Wal.Files.{Directory, list_directory, insert, sort}
use structuredb.Wal.Files.Sorted.{IsSegment}
use structuredb.Wal.Reader as Log
use structuredb.Wal.Reader.{
  each, read_events, on_page, read_pages, read_segment, read_segments, out_of_fuel,
}
use structuredb.Wal.Reader.Parse.{run, read_events-ends}
use structuredb.Wal.Writer.{
  open_segment, flush_segment, pad, close_page, flush_page, write_bytes, write_all, init,
  next_segment_no,
}
use structuredb.Wal.Writer as Writer
use structuredb.Wal.Writer.Reading.{IsLoggable, read-write_all}
use structuredb.Lsm.MemTable as Mem
use structuredb.Lsm.Tree.{put, do_put, freeze, new_lsm}
use structuredb.Lsm.Tree.History.{empty_tree}
use structuredb.Table.{Row}
use structuredb.Table.Engine as Engine
use structuredb.Table.Engine.Recovery.{upsert_all}
use structuredb.Database.Recovery.{recover, recover-upsert_all}
use structuredb.Tests.Trees.{a, b}
use structuredb.Tests.Tables.{
  engine, found_engine, found_database, is_found, found_next, empty_next,
}

-- What is collected of the events.
abbrev note : Event → List Event → List Event
note e seen = seen ++ e ∷ []

abbrev first_event : Event
first_event = lsm_storage_upsert [] 1 a (replicate 3000 97)

abbrev second_event : Event
second_event = lsm_storage_upsert [] 2 b (replicate 3000 98)

event-length :
    (seq_no : ℕ) (key value : Str)
    → length (flush_event (lsm_storage_upsert [] seq_no key value) [])
      ≡ 40 + length key + length value
unfolding flush_event flush_fields write_string write_int write le_bytes
event-length seq_no key value = omega (
  arith,
  length-append (key ++ le_bytes 8 (length value)) value,
  length-append key (le_bytes 8 (length value)),
  length-le_bytes 8 (length value),
)

first-IsLoggable : IsLoggable first_event
first-IsLoggable = (
  (omega arith, omega arith, omega arith, omega (arith, length-replicate {A = ℕ} 3000 97)),
  omega (arith, event-length 1 a (replicate 3000 97), length-replicate {A = ℕ} 3000 97),
)

second-IsLoggable : IsLoggable second_event
second-IsLoggable = (
  (omega arith, omega arith, omega arith, omega (arith, length-replicate {A = ℕ} 3000 98)),
  omega (arith, event-length 2 b (replicate 3000 98), length-replicate {A = ℕ} 3000 98),
)

abbrev old_log : Directory
old_log = (segment_name 0, flush_event (tx_storage_commit 10) []) ∷ []

old_named : All IsSegment (list_directory old_log)
unfolding list_directory IsSegment
old_named = ((0, omega arith, refl), tt)

-- The two events are in the segments 1 and 2.
last_number : (write_all (first_event ∷ second_event ∷ []) (init old_log)).0.current_segment_no ≡ 2
unfolding write_all Writer.write write_bytes flush_page flush_segment pad close_page open_segment
    init next_segment_no list_directory sort insert get_segment_no_from_name digits_value
    segment_name four_digits flush_event flush_fields write_string write_int write le_bytes
last_number = refl

read-write_all_example :
    Log.read (each note) (write_all (first_event ∷ second_event ∷ []) (init old_log)).1 []
    ≡ run note (first_event ∷ second_event ∷ []) (Log.read (each note) old_log [])
read-write_all_example =
    read-write_all note (first_event ∷ second_event ∷ []) old_log [] old_named
      (first-IsLoggable, (second-IsLoggable, tt)) (omega (arith, last_number))

read_events-ends_example :
    (read_events 20
      (each note (record { segment_no = some 0; page_no = 0 }))
      (flush_event (tx_storage_commit 10) [])
      []).1
    ≢ out_of_fuel
read_events-ends_example =
    read_events-ends (each note (record { segment_no = some 0; page_no = 0 })) 20
      (flush_event (tx_storage_commit 10) []) [] sixteen
  where
    sixteen : length (flush_event (tx_storage_commit 10) []) < 20
    sixteen = unfold flush_event flush_fields write_int le_bytes in omega arith

abbrev before_rows : List Row
before_rows = record { key = a; value = b } ∷ []

abbrev new_rows : List Row
new_rows = record { key = b; value = a } ∷ []

rows_logged : All IsLoggable (upsert_all (before_rows ++ new_rows) engine).1
unfolding upsert_all Engine.upsert put do_put freeze empty_tree new_lsm Mem.put flush_event
    flush_fields write_string write_int write le_bytes
rows_logged = (
  ((omega arith, omega arith, omega arith, omega arith), omega arith),
  (((omega arith, omega arith, omega arith, omega arith), omega arith), tt),
)

same_segment :
    (write_all (upsert_all (before_rows ++ new_rows) engine).1 (init [])).0.current_segment_no ≡ 0
unfolding upsert_all Engine.upsert put do_put freeze empty_tree new_lsm Mem.put write_all
    Writer.write write_bytes flush_page flush_segment pad close_page open_segment init
    next_segment_no list_directory sort insert segment_name four_digits flush_event flush_fields
    write_string write_int write le_bytes
same_segment = refl

nothing_recovered : lookup engine.id (recover [] found_database).engines ≡ some found_engine
unfolding recover Log.read read_segments list_directory sort
nothing_recovered = is_found

recover-upsert_all_example :
    lookup engine.id
      (recover
        (write_all (upsert_all (before_rows ++ new_rows) engine).1 (init [])).1
        found_database).engines
    ≡ some (upsert_all new_rows found_engine).0
unfolding list_directory
recover-upsert_all_example =
    recover-upsert_all before_rows new_rows engine found_engine [] found_database tt rows_logged
      (omega (arith, same_segment)) refl nothing_recovered (omega (arith, found_next, empty_next))
