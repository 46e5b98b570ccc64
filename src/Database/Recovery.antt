-- ===== src/Database/Recovery.antt =====
-- wal/recovery.cpp: what a restart finds behind a log writer.
use structuredb.Base.{◌+◌, ◌<◌, ◌≡◌, refl, ◌∙◌, ap, true, some, List, [], ◌∷◌, ◌++◌, length, All}
use structuredb.Base.Assoc.{str_key, lookup}
use structuredb.Wal.Event.{Event}
use structuredb.Wal.Files.{Directory, list_directory}
use structuredb.Wal.Files.Sorted.{IsSegment}
use structuredb.Wal.Reader.{read, each}
use structuredb.Wal.Reader.Parse.{run}
use structuredb.Wal.Writer.{write_all, init}
use structuredb.Wal.Writer.Reading.{IsLoggable, read-write_all}
use structuredb.Table.{Row}
use structuredb.Table.Engine.{LsmEngine, Database, apply, replay}
use structuredb.Table.Engine.Recovery.{upsert_all, replay-upsert_all}

-- `Recover`
unfoldable pub recover : Directory → Database → Database
recover d db = read (each apply) d db

run-replay : (es : List Event) (db : Database) → run apply es db ≡ replay es db
unfolding run replay
run-replay [] db = refl
run-replay (e ∷ es) db = run-replay es (apply e db)

-- Let a log be opened on a directory of segments that the program named, and let an engine that logs its
-- writes make the upserts `old` and then `new`, whose events the layout has room for and fit a page, as
-- long as the segment numbers have four digits. If the older part of the log leaves a restarted database
-- with an engine of the same id that has the upserts `old` in its files (its next sequence number is
-- the one after them), then recovery from the whole directory gives that engine the upserts `new`, each
-- once and in order.
pub recover-upsert_all :
    (old new : List Row) (before found : LsmEngine) (d : Directory) (db : Database)
    → All IsSegment (list_directory d)
    → All IsLoggable (upsert_all (old ++ new) before).1
    → (write_all (upsert_all (old ++ new) before).1 (init d)).0.current_segment_no < 10000
    → before.has_wal_writer ≡ true
    → lookup before.id (recover d db).engines ≡ some found
    → found.lsm.next_seq_no ≡ before.lsm.next_seq_no + length old
    → lookup before.id
        (recover (write_all (upsert_all (old ++ new) before).1 (init d)).1 db).engines
      ≡ some (upsert_all new found).0
unfolding recover
recover-upsert_all old new before found d db h k l w f n =
    let events = (upsert_all (old ++ new) before).1 in
    ap (λ b. lookup before.id b.engines)
      (read-write_all apply events d db h k l ∙ run-replay events (recover d db))
    ∙ replay-upsert_all old new before found (recover d db) w f n
