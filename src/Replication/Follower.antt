-- ===== src/Replication/Follower.antt =====
-- replication/follower.cpp: what a follower does with a page that the leader sends. The stream of gRPC
-- and the threads are not modelled; `RunSync` makes a page one step.
pub mod Mirror
use structuredb.Base.{ℕ, suc, Option, some, length}
use structuredb.Base.Str.{Str}
use structuredb.Wal.Files.{Directory}
use structuredb.Wal.Reader.{Position, read_events}
use structuredb.Wal.Tail.{write_received_page, next_segment_to_fetch}
use structuredb.Table.Engine.{Database, apply}

-- `ProcessPage`: a parser that throws ends the page.
unfoldable pub process_page : ℕ → Str → Directory × Database → Directory × Database
process_page segment_no bytes (d, db) = (
  write_received_page segment_no bytes d,
  (read_events (suc (length bytes)) (λ event db. some (apply event db)) bytes db).0,
)

-- The position that `Run` asks for after a start, for a fuel above the number of files.
unfoldable pub requested_position : ℕ → Directory → Position
requested_position fuel d = record {
  segment_no = some (next_segment_to_fetch fuel d 0);
  page_no = 0;
}
