-- ===== src/Tests/Followers.antt =====
-- Followers: registration, the pages that are collected and sent, and the mirrored log.
use structuredb.Base.{
  ℕ, ◌≤◌, ◌<◌, ◌≡◌, refl, true, false, none, some, [], ◌∷◌, ◌++◌, length, replicate, arith, All,
}
use structuredb.Base.Str.{Str, str_eq, str_lt}
use structuredb.Base.Assoc.{str_key, nat_key, option_key, lookup, erase, assign}
use structuredb.Sdb.Bytes.{le_bytes, le_value}
use structuredb.Sdb.{write, write_int, write_string, read, read_int, read_string, has_more}
use structuredb.Wal.Event.{
  lsm_storage_upsert, tx_storage_commit, flush_event, flush_fields, parse_event, parser_of,
  parse_lsm_storage_upsert, parse_tx_storage_commit,
}
use structuredb.Wal.Segment.{segment_name, four_digits, get_segment_no_from_name, digits_value}
use structuredb.Wal.Files.{
  Directory, Below, list_directory, insert, sort, create_file_reader, remove, file_size,
}
use structuredb.Wal.Reader.{Position, read_events, on_page, read_pages, read_segment, read_segments}
use structuredb.Wal.Reader as Log
use structuredb.Wal.Reader.Runs.{page_events, pages_events, segment_events}
use structuredb.Wal.Cleaner.{
  is_retained, accumutae_persistence, on_event, segment_file, delete_obsolete_segments, clean,
}
use structuredb.Wal.Cleaner.Marks.{IsKnown}
use structuredb.Wal.Cleaner.Safety.{IsSaved, clean-safe}
use structuredb.Wal.Tail.{
  WalPageData, position_lt, read_segment_loop, read_segment_pages, collect_loop, collect_pages_from,
}
use structuredb.Table.Engine.{
  Database, LsmEngine, is_event_persistent, is_persistent, get_storage_for_recover,
}
use structuredb.Database.Recovery.{recover}
use structuredb.Replication.Registry.{
  FollowerRegistry, empty_registry, register, min_retained_segment,
}
use structuredb.Replication.Registry.Retention.{clean-registered}
use structuredb.Replication.Pump.{
  Reactor, get_events, is_already_sent_tail, poll, completed_page, pump,
}
use structuredb.Replication.Pump.Streaming.{accepted, completed_pages, poll-sends}
use structuredb.Replication.Pump.Stall.{pump-stalls}
use structuredb.Replication.Follower.{process_page}
use structuredb.Replication.Follower.Mirror.{
  is_complete, recover-process_page, next_segment_to_fetch-least,
}
use structuredb.Wal.Tail.{next_segment_to_fetch}
use structuredb.Tests.Trees.{a, b}
use structuredb.Tests.Tables.{found_database, found_engine}

-- A log whose first segment is whole.
abbrev whole_page : Str
whole_page = replicate 4096 7

abbrev two_segments : Directory
two_segments = (segment_name 1, 1 ∷ 2 ∷ []) ∷ (segment_name 0, whole_page) ∷ []

abbrev second : Position
second = record { segment_no = some 1; page_no = 0 }

abbrev first_page : WalPageData
first_page = record { position = record { segment_no = some 0; page_no = 0 }; content = whole_page }

abbrev tail_page : WalPageData
tail_page = record { position = second; content = 1 ∷ 2 ∷ [] }

abbrev new_stream : Reactor
new_stream = get_events (record { segment_no = some 0; page_no = 0 }) empty_registry

both_pages :
    collect_pages_from two_segments new_stream.next_pos ≡ some ((first_page ∷ []) ++ tail_page ∷ [])
unfolding collect_pages_from collect_loop read_segment_pages read_segment_loop position_lt
    create_file_reader list_directory sort insert segment_name four_digits get_segment_no_from_name
    digits_value lookup str_eq str_lt get_events
both_pages = refl

unsent : is_already_sent_tail tail_page (completed_pages (first_page ∷ []) new_stream) ≡ false
unfolding is_already_sent_tail completed_pages completed_page get_events
unsent = refl

open_stream :
    (new_stream.cancelled ≡ false)
    × (new_stream.write_ok ≡ true)
    × (new_stream.write_pending ≡ false)
unfolding get_events
open_stream = (refl, refl, refl)

poll-sends_example :
    ((poll accepted two_segments new_stream).1 ≡ (first_page ∷ []) ++ tail_page ∷ [])
    × ((poll accepted two_segments new_stream).0.0.next_pos ≡ tail_page.position)
    × ((poll accepted two_segments new_stream).0.0.tail_sent_size ≡ some (length tail_page.content))
poll-sends_example =
    poll-sends two_segments new_stream (first_page ∷ []) tail_page open_stream both_pages (refl, tt)
      refl unsent

-- A leader that was restarted: the segment 0 stays short, and the segment 1 is behind it.
abbrev restarted_log : Directory
restarted_log = (segment_name 1, whole_page) ∷ (segment_name 0, 1 ∷ 2 ∷ []) ∷ []

abbrev short_page : WalPageData
short_page = record { position = record { segment_no = some 0; page_no = 0 }; content = 1 ∷ 2 ∷ [] }

abbrev later_page : WalPageData
later_page = record { position = second; content = whole_page }

short_first :
    collect_pages_from restarted_log short_page.position ≡ some (short_page ∷ later_page ∷ [])
unfolding collect_pages_from collect_loop read_segment_pages read_segment_loop position_lt
    create_file_reader list_directory sort insert segment_name four_digits get_segment_no_from_name
    digits_value lookup str_eq str_lt
short_first = refl

stream_first :
    collect_pages_from restarted_log new_stream.next_pos ≡ some (short_page ∷ later_page ∷ [])
unfolding get_events
stream_first = short_first

not_yet_sent : is_already_sent_tail short_page (completed_pages [] new_stream) ≡ false
unfolding is_already_sent_tail completed_pages get_events
not_yet_sent = refl

pump-stalls_example :
    (pump accepted ((restarted_log, []) ∷ (restarted_log, []) ∷ []) new_stream).1
    ≡ [] ++ short_page ∷ []
pump-stalls_example =
    pump-stalls restarted_log ((restarted_log, []) ∷ []) new_stream [] short_page (later_page ∷ [])
      open_stream stream_first tt refl not_yet_sent ((refl, later_page ∷ [], short_first), tt)

-- One follower, at the segment 2.
abbrev one_follower : FollowerRegistry
one_follower = (register (record { segment_no = some 2; page_no = 0 }) empty_registry).1

is_registered : lookup 0 one_follower.positions ≡ some (record { segment_no = some 2; page_no = 0 })
unfolding register lookup assign erase
is_registered = refl

clean-registered_example :
    lookup (segment_name 3) (clean found_database (min_retained_segment one_follower) two_segments)
    ≡ lookup (segment_name 3) two_segments
clean-registered_example =
    clean-registered found_database two_segments one_follower 0
      (record { segment_no = some 2; page_no = 0 }) 3 (omega arith) is_registered refl

complete_first : is_complete 1 two_segments ≡ false
unfolding file_size segment_name four_digits lookup str_eq
complete_first = refl

next_segment_to_fetch-least_example :
    (is_complete (next_segment_to_fetch 3 two_segments 0) two_segments ≡ false)
    × (0 ≤ next_segment_to_fetch 3 two_segments 0)
    × (next_segment_to_fetch 3 two_segments 0 ≤ 1)
    × ((k : ℕ)
        → 0 ≤ k
        → k < next_segment_to_fetch 3 two_segments 0
        → is_complete k two_segments ≡ true)
next_segment_to_fetch-least_example =
    next_segment_to_fetch-least 3 two_segments 0 1 (omega arith) (omega arith) complete_first

abbrev one_before : Directory
one_before = (segment_name 0, flush_event (tx_storage_commit 10) []) ∷ []

before_one : Below (segment_name 1) one_before
unfolding list_directory segment_name four_digits str_lt
before_one = (refl, tt)

sixteen_bytes : length (flush_event (tx_storage_commit 11) []) ≤ 4096
unfolding flush_event flush_fields write_int le_bytes
sixteen_bytes = omega arith

recover-process_page_example :
    (recover
        (process_page 1 (flush_event (tx_storage_commit 11) []) (one_before, found_database)).0
        found_database
      ≡ (process_page 1
          (flush_event (tx_storage_commit 11) [])
          (one_before, recover one_before found_database)).1)
    × ((process_page 1
          (flush_event (tx_storage_commit 11) [])
          (assign (segment_name 1) [] one_before, found_database)).0
        ≡ (process_page 1 (flush_event (tx_storage_commit 11) []) (one_before, found_database)).0)
recover-process_page_example =
    recover-process_page 1 [] (flush_event (tx_storage_commit 11) []) one_before found_database
      found_database before_one sixteen_bytes

-- A database that has the row of the log in a file.
abbrev flushed_engine : LsmEngine
flushed_engine = record found_engine { lsm = record found_engine.lsm { max_persistent_seq_no = 1 } }

abbrev flushed_database : Database
flushed_database = record found_database { engines = (116 ∷ [], flushed_engine) ∷ [] }

abbrev row_event : Str
row_event = flush_event (lsm_storage_upsert (116 ∷ []) 1 a b) []

abbrev row_log : Directory
row_log = (segment_name 0, row_event) ∷ []

row_there : lookup (segment_name 0) row_log ≡ some row_event
unfolding segment_name four_digits lookup str_eq
row_there = refl

row-IsKnown : All (IsKnown flushed_database) (segment_events row_event)
unfolding segment_events pages_events page_events has_more parse_event parser_of
    parse_lsm_storage_upsert parse_tx_storage_commit read_int read_string read le_value flush_event
    flush_fields write_string write_int write le_bytes is_event_persistent get_storage_for_recover
    is_persistent lookup str_eq
row-IsKnown = ((λ h. cc), tt)

row_gone : lookup (segment_name 0) (clean flushed_database none row_log) ≡ none
unfolding clean delete_obsolete_segments on_event accumutae_persistence is_retained segment_file
    remove Log.read read_segments read_segment read_pages on_page read_events list_directory sort
    insert create_file_reader segment_name four_digits get_segment_no_from_name digits_value
    has_more parse_event parser_of parse_lsm_storage_upsert parse_tx_storage_commit read_int
    read_string read le_value flush_event flush_fields write_string write_int write le_bytes
    is_event_persistent get_storage_for_recover is_persistent lookup assign erase str_eq str_lt
row_gone = refl

clean-safe_example :
    All (IsSaved flushed_database) (segment_events row_event) × (is_retained none (some 0) ≡ false)
clean-safe_example =
    clean-safe flushed_database none row_log 0 row_event (omega arith) row_there row-IsKnown
      row_gone
