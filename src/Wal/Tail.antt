-- ===== src/Wal/Tail.antt =====
-- wal/tail.cpp: the pages of the log from a position on, the segment that a follower fetches next, and
-- the mirroring of a page.
pub mod Pages
pub mod Whole
use structuredb.Base.{
  ℕ, zero, suc, ◌+◌, Bool, true, false, ◌&&◌, not, Option, none, some, List, [], ◌∷◌, ◌++◌, length,
  take, drop, ltb, ◌==◌, if◌then◌else◌,
}
use structuredb.Base.Str.{Str}
use structuredb.Base.Assoc.{str_key, option_eq, assign}
use structuredb.Wal.{wal_page_size}
use structuredb.Wal.Segment.{segment_name, get_segment_no_from_name}
use structuredb.Wal.Files.{Directory, list_directory, sort, create_file_reader, file_size}
use structuredb.Wal.Reader.{Position}

pub record WalPageData : Type 0 where
  pub position : Position
  pub content : Str

-- `a < b` on segment numbers.
abbrev pub no_lt : Option ℕ → Option ℕ → Bool
no_lt a none = false
no_lt none (some b) = true
no_lt (some a) (some b) = ltb a b

-- `operator<`
unfoldable pub position_lt : Position → Position → Bool
position_lt lhs rhs =
    if not (option_eq lhs.segment_no rhs.segment_no)
    then no_lt lhs.segment_no rhs.segment_no
    else ltb lhs.page_no rhs.page_no

-- The loop of `ReadSegmentPages`, behind the pages in `out`.
unfoldable pub read_segment_loop :
    ℕ → Option ℕ → ℕ → Position → Str → List WalPageData → List WalPageData
unfolding position_lt
read_segment_loop zero segment_no page_no from content out = out
read_segment_loop (suc fuel) segment_no page_no from [] out = out
read_segment_loop (suc fuel) segment_no page_no from (b ∷ content) out =
    let pos : Position = record { segment_no = segment_no; page_no = page_no } in
    let page : WalPageData = record {
      position = pos;
      content = take wal_page_size (b ∷ content);
    } in
    read_segment_loop fuel segment_no (page_no + 1) from (drop wal_page_size (b ∷ content))
      (if not (position_lt pos from) then out ++ page ∷ [] else out)

unfoldable pub read_segment_pages : Option ℕ → Position → Str → List WalPageData → List WalPageData
unfolding read_segment_loop
read_segment_pages segment_no from content out =
    read_segment_loop (suc (length content)) segment_no 0 from content out

-- The loop of `CollectPagesFrom`; a segment that is gone when it is opened ends the collection by a
-- throw.
unfoldable pub collect_loop :
    Directory → Position → List Str → List WalPageData → Option (List WalPageData)
unfolding read_segment_pages
collect_loop d from [] out = some out
collect_loop d from (segment ∷ segments) out =
    let segment_no = get_segment_no_from_name segment in
    elim (no_lt segment_no from.segment_no) [
      | true ↦ collect_loop d from segments out
      | false ↦ elim (create_file_reader segment d) [
        | none ↦ none
        | some content ↦
            collect_loop d from segments (read_segment_pages segment_no from content out)
      ]
    ]

unfoldable pub collect_pages_from : Directory → Position → Option (List WalPageData)
unfolding collect_loop
collect_pages_from d from = collect_loop d from (sort (list_directory d)) []

-- `NextSegmentToFetch`, for a fuel above the number of files.
unfoldable pub next_segment_to_fetch : ℕ → Directory → ℕ → ℕ
next_segment_to_fetch zero d segment_no = segment_no
next_segment_to_fetch (suc fuel) d segment_no = elim (file_size (segment_name segment_no) d) [
  | none ↦ segment_no
  | some size ↦ elim (ltb size wal_page_size) [
    | true ↦ segment_no
    | false ↦ next_segment_to_fetch fuel d (segment_no + 1)
  ]
]

-- `WriteReceivedPage`: the file is made again with the page.
unfoldable pub write_received_page : ℕ → Str → Directory → Directory
write_received_page segment_no bytes d = assign (segment_name segment_no) bytes d
