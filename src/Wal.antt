-- ===== src/Wal.antt =====
-- The write-ahead log (src/server/wal): the sizes of wal/wal.hpp. A segment is a file that holds at
-- most so many pages.
pub mod Event
pub mod Segment
pub mod Files
pub mod Reader
pub mod Writer
pub mod Cleaner
pub mod Tail
use structuredb.Base.{ℕ}

abbrev pub wal_page_size : ℕ
wal_page_size = 4096

abbrev pub max_pages_in_segment : ℕ
max_pages_in_segment = 1
