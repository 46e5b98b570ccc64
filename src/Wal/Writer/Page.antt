-- ===== src/Wal/Writer/Page.antt =====
-- The open page of the log writer, operation by operation (wal/writer.cpp).
use structuredb.Base.{
  ℕ, ◌+◌, ◌-◌, ◌≤◌, ◌<◌, ◌≡◌, sym, ap, ◌∙◌, true, false, [], ◌++◌, length, replicate, arith,
  length-append, ltb, leb, ◌==◌, if◌then◌else◌, Bool-cases, inl, inr,
}
use structuredb.Base.Str.{Str}
use structuredb.Base.Assoc.{str_key, assign}
use structuredb.Wal.{wal_page_size}
use structuredb.Wal.Event.{Event, flush_event}
use structuredb.Wal.Segment.{segment_name}
use structuredb.Wal.Files.{Directory, append_to, Below, append_to-assign, create_file_appender-new}
use structuredb.Wal.Writer.{
  Writer, Log, open_segment, flush_segment, pad, close_page, flush_page, write_bytes, write,
}
use mathlib.Core.List.{append-nil}

-- The log whose last segment is a new file with one open page of bytes.
abbrev pub at_page : ℕ → Str → Directory → Log
at_page n content front = (
  record {
    current_segment = segment_name n;
    current_page_size = length content;
    pages_in_current_segment = 0;
    current_segment_no = n;
  },
  assign (segment_name n) content front,
)

pub open_segment-new :
    (name : Str) (pages n : ℕ) (d : Directory)
    → Below (segment_name n) d
    → open_segment (
      record {
        current_segment = name;
        current_page_size = 0;
        pages_in_current_segment = pages;
        current_segment_no = n;
      },
      d,
    )
      ≡ at_page n [] d
unfolding open_segment
open_segment-new name pages n d b =
    λ i. ((at_page n [] d).0, create_file_appender-new (segment_name n) d b i)

pub write_bytes-page :
    (n : ℕ) (content bytes : Str) (front : Directory)
    → write_bytes bytes (at_page n content front) ≡ at_page n (content ++ bytes) front
unfolding write_bytes
write_bytes-page n content bytes front = λ i. (
  record {
    current_segment = segment_name n;
    current_page_size = sym (length-append content bytes) i;
    pages_in_current_segment = 0;
    current_segment_no = n;
  },
  append_to-assign (segment_name n) content bytes front i,
)

abbrev pub padding : Str → Str
padding content = replicate (wal_page_size - length content) 0

-- The padded page in its file.
abbrev pub closed_front : ℕ → Str → Directory → Directory
closed_front n content front = assign (segment_name n) (content ++ padding content) front

pad-page :
    (n : ℕ) (content : Str) (front : Directory)
    → length content ≤ wal_page_size
    → pad (at_page n content front) ≡ ((at_page n content front).0, closed_front n content front)
unfolding pad
pad-page n content front l = elim (Bool-cases (ltb (length content) wal_page_size)) [
  | inl e ↦
      ap
        (λ b.
          if b
          then (
            (at_page n content front).0,
            append_to (segment_name n) (padding content) (at_page n content front).1,
          )
          else at_page n content front)
        e
      ∙ ap (λ d. ((at_page n content front).0, d))
          (append_to-assign (segment_name n) content (padding content) front)
  | inr e ↦
      ap
        (λ b.
          if b
          then (
            (at_page n content front).0,
            append_to (segment_name n) (padding content) (at_page n content front).1,
          )
          else at_page n content front)
        e
      ∙ ap (λ c. ((at_page n content front).0, assign (segment_name n) c front))
          (sym (append-nil content) ∙ ap (λ k. content ++ replicate k 0) (full e))
]
  where
    full : ltb (length content) wal_page_size ≡ false → 0 ≡ wal_page_size - length content
    full e = ground arith

flush_page-open :
    (w : Writer) (d : Directory)
    → (w.current_page_size == 0) ≡ false
    → flush_page (w, d) ≡ (
        let closed = close_page (pad (w, d)) in
        if leb 1 closed.0.pages_in_current_segment then flush_segment closed else closed)
unfolding flush_page
flush_page-open w d e =
    ap
      (λ b.
        if b
        then (w, d)
        else (let closed = close_page (pad (w, d)) in
            if leb 1 closed.0.pages_in_current_segment then flush_segment closed else closed))
      e

-- Closing a page that has bytes begins a new segment.
pub flush_page-page :
    (n : ℕ) (content : Str) (front : Directory)
    → 0 < length content
    → length content ≤ wal_page_size
    → Below (segment_name (n + 1)) (closed_front n content front)
    → flush_page (at_page n content front) ≡ at_page (n + 1) [] (closed_front n content front)
unfolding close_page flush_segment
flush_page-page n content front p l b =
    flush_page-open (at_page n content front).0 (at_page n content front).1 (ground arith)
    ∙ ap
        (λ log.
          let closed = close_page log in
          if leb 1 closed.0.pages_in_current_segment then flush_segment closed else closed)
        (pad-page n content front l)
    ∙ open_segment-new (segment_name n) 1 (n + 1) (closed_front n content front) b

pub write-fits :
    (e : Event) (n : ℕ) (content : Str) (front : Directory)
    → ltb wal_page_size (length content + length (flush_event e [])) ≡ false
    → write e (at_page n content front) ≡ at_page n (content ++ flush_event e []) front
unfolding write
write-fits e n content front h =
    ap
      (λ b.
        write_bytes (flush_event e [])
          (if b then flush_page (at_page n content front) else at_page n content front))
      h
    ∙ write_bytes-page n content (flush_event e []) front

pub write-full :
    (e : Event) (n : ℕ) (content : Str) (front : Directory)
    → ltb wal_page_size (length content + length (flush_event e [])) ≡ true
    → write e (at_page n content front)
      ≡ write_bytes (flush_event e []) (flush_page (at_page n content front))
unfolding write
write-full e n content front h =
    ap
      (λ b.
        write_bytes (flush_event e [])
          (if b then flush_page (at_page n content front) else at_page n content front))
      h
