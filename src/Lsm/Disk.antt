-- ===== src/Lsm/Disk.antt =====
-- Writing and reading table files: lsm/disk/page_builder.cpp, page_checksum.cpp,
-- ss_table_builder.cpp, page.cpp (`Load`) and the reads of lsm/ss_table.cpp. A file is its bytes. A
-- write or a read of the file is taken to move all its bytes. The checksum of Boost is a parameter:
-- the 64-bit pattern that the cast of its result gives.
pub mod Layout
pub mod Load
pub mod Build
pub mod RoundTrip
use structuredb.Base.{
  ℕ, zero, suc, ◌+◌, ◌-◌, ◌*◌, max, Bool, true, false, Option, none, some, List, [], ◌∷◌, ◌++◌,
  length, take, drop, replicate, if◌then◌else◌, ltb, leb, ◌==◌,
}
use structuredb.Base.Str.{Str}
use structuredb.Sdb.{Result, ok, err, Reader, ◌>>=◌, return, read_int, read_string}
use structuredb.Lsm.Types.{Record}
use structuredb.Lsm.Codec.{
  write_record, read_record, PageHeader, page_header_size, write_page_header, read_page_header,
  SsTableHeader, ss_table_header_size, write_ss_table_header, read_ss_table_header,
}
use structuredb.Lsm.Page.{Page}
use structuredb.Lsm.SsTable.{SsTable}

-- io::FileWriter: the bytes of the file and the position of the next write.
pub record FileWriter : Type 0 where
  pub content : Str
  pub offset : ℕ

abbrev pub new_file : FileWriter
new_file = record { content = []; offset = 0 }

unfoldable pub file_write : Str → FileWriter → FileWriter
file_write bytes w = record {
  content = take w.offset w.content ++ (bytes ++ drop (w.offset + length bytes) w.content);
  offset = w.offset + length bytes;
}

unfoldable pub rewind : FileWriter → FileWriter
rewind w = record w { offset = 0 }

pub record PageBuilder : Type 0 where
  pub page_size : ℕ
  pub current_page : Str
  pub header : PageHeader

unfoldable pub clear : PageBuilder → PageBuilder
clear b = record b {
  current_page = replicate page_header_size 0;
  header = record { count = 0; checksum = 0 };
}

unfoldable pub new_page_builder : ℕ → PageBuilder
unfolding clear
new_page_builder page_size = clear (record {
  page_size = page_size;
  current_page = [];
  header = record { count = 0; checksum = 0 };
})

unfoldable pub is_enough_space : ℕ → PageBuilder → Bool
is_enough_space record_size b = leb (length b.current_page + record_size) b.page_size

unfoldable pub add_record : Str → PageBuilder → PageBuilder
add_record raw b = record b {
  current_page = b.current_page ++ raw;
  header = record { count = b.header.count + 1; checksum = b.header.checksum };
}

abbrev pub is_empty : PageBuilder → Bool
is_empty b = b.header.count == 0

-- `resize(page_size, 0)` of a shorter page
unfoldable pub pad_page : ℕ → Str → Str
pad_page page_size page =
    if ltb (length page) page_size then page ++ replicate (page_size - length page) 0 else page

-- `FlushHeader`: the header's bytes over the first of the page
unfoldable pub put_header : PageHeader → Str → Str
put_header h page = write_page_header h [] ++ drop page_header_size page

-- `GetPageChecksum`: over what follows the header.
abbrev pub page_checksum : (Str → ℕ) → Str → ℕ
page_checksum crc page = crc (drop page_header_size page)

unfoldable pub extract : (Str → ℕ) → PageBuilder → Str
unfolding pad_page put_header
extract crc b =
    let page = pad_page b.page_size b.current_page in
    put_header (record { count = b.header.count; checksum = page_checksum crc page }) page

pub record SsTableBuilder : Type 0 where
  pub header : SsTableHeader
  pub page_builder : PageBuilder
  pub file_writer : FileWriter

unfoldable pub flush_header : SsTableBuilder → SsTableBuilder
unfolding file_write
flush_header b = record b {
  file_writer = file_write (write_ss_table_header b.header []) b.file_writer;
}

-- `SSTableBuilder::Create`
unfoldable pub create_builder : FileWriter → ℕ → SsTableBuilder
unfolding flush_header new_page_builder
create_builder writer page_size = flush_header (record {
  header = record { page_size = page_size; page_count = 0; max_seq_no = 0 };
  page_builder = new_page_builder page_size;
  file_writer = writer;
})

-- An empty page fails the assertion: `none`.
unfoldable pub flush_page : (Str → ℕ) → SsTableBuilder → Option SsTableBuilder
unfolding extract clear file_write
flush_page crc b =
    if is_empty b.page_builder
    then none
    else some (record {
      header = record {
        page_size = b.header.page_size;
        page_count = b.header.page_count + 1;
        max_seq_no = b.header.max_seq_no;
      };
      page_builder = clear b.page_builder;
      file_writer = file_write (extract crc b.page_builder) b.file_writer;
    })

-- The page is extended by the bytes of the record.
abbrev pub append_record : Record → SsTableBuilder → SsTableBuilder
append_record r b = record b {
  header = record {
    page_size = b.header.page_size;
    page_count = b.header.page_count;
    max_seq_no = max b.header.max_seq_no r.seq_no;
  };
  page_builder = add_record (write_record r []) b.page_builder;
}

-- `SSTableBuilder::Add`
unfoldable pub add : (Str → ℕ) → Record → SsTableBuilder → Option SsTableBuilder
unfolding is_enough_space flush_page add_record
add crc r b =
    if is_enough_space (length (write_record r [])) b.page_builder
    then some (append_record r b)
    else elim (flush_page crc b) [ none ↦ none | some b' ↦ some (append_record r b') ]

unfoldable pub finish : (Str → ℕ) → SsTableBuilder → Option FileWriter
unfolding rewind flush_header
finish crc b = elim (if is_empty b.page_builder then some b else flush_page crc b) [
  | none ↦ none
  | some b' ↦ some (flush_header (record b' { file_writer = rewind b'.file_writer })).file_writer
]

unfoldable pub add_all : (Str → ℕ) → List Record → SsTableBuilder → Option SsTableBuilder
add_all crc [] b = some b
add_all crc (r ∷ rs) b = elim (add crc r b) [ none ↦ none | some b' ↦ add_all crc rs b' ]

-- The writing block of `MemTable::Flush`: the bytes of the finished file.
unfoldable pub write_table : (Str → ℕ) → ℕ → List Record → Option Str
unfolding create_builder add_all finish
write_table crc page_size rs = elim (add_all crc rs (create_builder new_file page_size)) [
  | none ↦ none
  | some b ↦ elim (finish crc b) [ none ↦ none | some w ↦ some w.content ]
]

-- The loop of `Page::Load` over the records.
unfoldable pub read_records : ℕ → Reader (List Record)
read_records zero = return []
read_records (suc n) = do r ← read_record; rs ← read_records n; return (r ∷ rs)

-- `Page::Load`: `none` stands for the exception on a wrong checksum, and for reading from beyond
-- the buffer.
unfoldable pub load : (Str → ℕ) → Str → Option Page
unfolding read_records
load crc buffer = elim (read_page_header buffer) [
  | err e ↦ none
  | ok (header, rest) ↦
      if page_checksum crc buffer == header.checksum
      then elim (read_records header.count rest) [ err e ↦ none | ok (rs, unread) ↦ some rs ]
      else none
]

-- `Seek`, and `Read` into a buffer of zeros of the given size.
unfoldable pub read_at : ℕ → ℕ → Str → Str
unfolding pad_page
read_at offset size file = pad_page size (take size (drop offset file))

-- The branch of `SSTable::GetPage` that goes to the file.
unfoldable pub read_page : (Str → ℕ) → SsTableHeader → Str → ℕ → Option Page
unfolding read_at load
read_page crc header file page_num =
    load crc (read_at (ss_table_header_size + page_num * header.page_size) header.page_size file)

-- The pages from a number on, as many as are left.
unfoldable pub read_pages : (Str → ℕ) → SsTableHeader → Str → ℕ → ℕ → Option (List Page)
read_pages crc header file zero page_num = some []
read_pages crc header file (suc left) page_num = elim (read_page crc header file page_num) [
  | none ↦ none
  | some p ↦ elim (read_pages crc header file left (page_num + 1)) [
    | none ↦ none
    | some ps ↦ some (p ∷ ps)
  ]
]

-- `SSTable::Init`, with every page that `GetPage` can be asked for.
unfoldable pub open_table : (Str → ℕ) → ℕ → Str → Option SsTable
unfolding read_at read_pages read_page
open_table crc file_no file = elim (read_ss_table_header (read_at 0 ss_table_header_size file)) [
  | err e ↦ none
  | ok (header, rest) ↦ elim (read_pages crc header file header.page_count 0) [
    | none ↦ none
    | some pages ↦
        some (record { file_no = file_no; pages = pages; max_seq_no = header.max_seq_no })
  ]
]
