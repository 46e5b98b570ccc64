-- ===== src/Wal/Tail/Whole.antt =====
-- The pages of a log, apart from the code that collects them (wal/tail.cpp).
use structuredb.Base.{
  ℕ, zero, suc, ◌+◌, ◌*◌, ◌≡◌, Bool, Option, none, some, List, [], ◌∷◌, ◌++◌, length, take, drop,
  get_elem?, ltb, if◌then◌else◌,
}
use structuredb.Base.Str.{Str}
use structuredb.Base.Assoc.{str_key, lookup}
use structuredb.Wal.{wal_page_size}
use structuredb.Wal.Segment.{get_segment_no_from_name}
use structuredb.Wal.Files.{Directory}
use structuredb.Wal.Tail.{WalPageData}

-- The page of a segment with a number: its bytes from a multiple of the page size on, as long as there
-- are any.
abbrev page_if : Option ℕ → Bool → ℕ → Str → Option WalPageData
page_if segment_no is_there n bytes =
    if is_there
    then some
        (record { position = record { segment_no = segment_no; page_no = n }; content = bytes })
    else none

unfoldable pub page_at : ℕ → Option ℕ → ℕ → ℕ → Str → Option WalPageData
page_at size segment_no first i content =
    page_if segment_no (ltb (i * size) (length content)) (first + i)
      (take size (drop (i * size) content))

-- The pages of one segment, each once and in order: the list has at each index the page of that number.
abbrev pub IsPaged : ℕ → Option ℕ → ℕ → Str → List WalPageData → Type 0
IsPaged size segment_no first content pages =
    (i : ℕ) → get_elem? pages i ≡ page_at size segment_no first i content

-- The pages of a log: those of its segments, one segment behind the other.
pub data LogPages (d : Directory) : List Str → List WalPageData → Type 0 where
  no_segment : LogPages d [] []
  segment_pages :
      {name content : Str} {names : List Str} (pages later : List WalPageData)
      → lookup name d ≡ some content
      → IsPaged wal_page_size (get_segment_no_from_name name) 0 content pages
      → LogPages d names later
      → LogPages d (name ∷ names) (pages ++ later)

chunks : ℕ → ℕ → Option ℕ → ℕ → Str → List WalPageData
chunks size zero segment_no n content = []
chunks size (suc fuel) segment_no n [] = []
chunks size (suc fuel) segment_no n (b ∷ content) =
    record {
      position = record { segment_no = segment_no; page_no = n };
      content = take size (b ∷ content);
    }
    ∷ chunks size fuel segment_no (n + 1) (drop size (b ∷ content))
