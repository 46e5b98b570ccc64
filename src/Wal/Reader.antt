-- ===== src/Wal/Reader.antt =====
-- wal/reader.cpp: reading every segment in the order of the names, page by page, and the loop over the
-- events of a page that the strategies of wal/recovery.cpp and wal/cleaner.cpp share. A parser that
-- copies from beyond the page is taken to throw; a page is only read so far in its padding, where
-- every continuation throws (`Reader.Parse.padding-throws`).
pub mod Takes
pub mod Parse
pub mod Pages
pub mod Runs
use structuredb.Base.{
  ℕ, zero, suc, ◌≡◌, Bool, true, false, Option, none, some, List, [], ◌∷◌, length, take, drop,
  if◌then◌else◌,
}
use structuredb.Base.Str.{Str}
use structuredb.Sdb.{ok, err, has_more}
use structuredb.Wal.{wal_page_size}
use structuredb.Wal.Event.{Event, parse_event}
use structuredb.Wal.Segment.{get_segment_no_from_name}
use structuredb.Wal.Files.{Directory, list_directory, sort, create_file_reader}

-- `none` is the segment number -1 of a name that has no number.
pub record Position : Type 0 where
  pub segment_no : Option ℕ
  pub page_no : ℕ

-- How the loop over the events of a page ends.
pub data End : Type 0 where
  finished : End
  thrown : End
  out_of_fuel : End

-- An `OnPage` whose work on an event does not throw.
abbrev pub each {ℓ} : {S : Type ℓ} → (Event → S → S) → Position → Event → S → Option S
each f pos event s = some (f event s)

module _ {ℓ} {S : Type ℓ} where
  -- `while (HasMore()) { event = ParseEvent(..); on_event(event); }`, where `on_event` may throw.
  unfoldable pub read_events : ℕ → (Event → S → Option S) → Str → S → S × End
  read_events zero on_event bytes s = (s, out_of_fuel)
  read_events (suc fuel) on_event bytes s = elim (has_more bytes) [
    | false ↦ (s, finished)
    | true ↦ elim (parse_event bytes) [
      | err e ↦ (s, thrown)
      | ok (event, rest) ↦ elim (on_event event s) [
        | none ↦ (s, thrown)
        | some s' ↦ read_events fuel on_event rest s'
      ]
    ]
  ]

  -- `OnPage` of a strategy, with more fuel than the page has bytes.
  unfoldable pub on_page : (Position → Event → S → Option S) → Position → Str → S → S × End
  unfolding read_events
  on_page on_event pos page s = read_events (suc (length page)) (on_event pos) page s

  -- The loop of `ReadSegment`, which counts no pages and stops at an exception.
  unfoldable pub read_pages : ℕ → (Position → Event → S → Option S) → Option ℕ → Str → S → S
  unfolding on_page
  read_pages zero on_event segment_no content s = s
  read_pages (suc fuel) on_event segment_no [] s = s
  read_pages (suc fuel) on_event segment_no (b ∷ content) s =
      let after =
        on_page on_event (record { segment_no = segment_no; page_no = 0 })
          (take wal_page_size (b ∷ content)) s in
      elim after.1 [
        | finished ↦ read_pages fuel on_event segment_no (drop wal_page_size (b ∷ content)) after.0
        | _ ↦ after.0
      ]

  unfoldable pub read_segment : (Position → Event → S → Option S) → Option ℕ → Str → S → S
  unfolding read_pages
  read_segment on_event segment_no content s =
      read_pages (suc (length content)) on_event segment_no content s

  unfoldable pub read_segments : (Position → Event → S → Option S) → Directory → List Str → S → S
  unfolding read_segment
  read_segments on_event d [] s = s
  read_segments on_event d (name ∷ names) s = elim (create_file_reader name d) [
    | none ↦ s
    | some content ↦
        read_segments on_event d names
          (read_segment on_event (get_segment_no_from_name name) content s)
  ]

  -- `Reader::Read`
  unfoldable pub read : (Position → Event → S → Option S) → Directory → S → S
  unfolding read_segments
  read on_event d s = read_segments on_event d (sort (list_directory d)) s
