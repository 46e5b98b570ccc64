-- ===== src/Wal/Writer/Reading.antt =====
-- What the log reader finds behind the log writer (wal/writer.cpp and wal/reader.cpp).
use structuredb.Base.{
  ℕ, ◌+◌, ◌-◌, ◌≤◌, ◌<◌, ◌≡◌, refl, sym, ap, subst, ◌∙◌, List, [], ◌∷◌, ◌++◌, length, replicate,
  arith, All, All-append, All-map, ltb→lt, length-append, length-replicate, ltb, Bool-cases, inl,
  inr,
}
use structuredb.Base.Str.{Str, str_lt_trans}
use structuredb.Base.Assoc.{str_key, assign}
use structuredb.Wal.{wal_page_size}
use structuredb.Wal.Event.{Event, flush_event, IsEncodable}
use structuredb.Wal.Segment.{segment_name, segment_name-lt}
use structuredb.Wal.Files.{Directory, list_directory, sort, Below, erase-above}
use structuredb.Wal.Files.Sorted.{IsSegment, init-Below}
use structuredb.Wal.Reader.{read, each}
use structuredb.Wal.Reader.Parse.{run, run-append, flush_all, read_events-flush_all}
use structuredb.Wal.Reader.Pages.{read-last}
use structuredb.Wal.Writer.{
  Log, open_segment, flush_page, write_bytes, write, write_all, init, next_segment_no,
}
use structuredb.Wal.Writer.Page.{
  at_page, open_segment-new, write_bytes-page, padding, closed_front, flush_page-page, write-fits,
  write-full,
}
use structuredb.Wal.Writer.Numbers.{
  number-flush_page, number-write_all, number-write_bytes, ltb-false,
}
use mathlib.Core.List.{append_assoc, append-nil}

flush_all-snoc :
    (es : List Event) (e : Event) → flush_all (es ++ e ∷ []) ≡ flush_all es ++ flush_event e []
unfolding flush_all
flush_all-snoc [] e = append-nil (flush_event e [])
flush_all-snoc (x ∷ es) e =
    ap (λ bytes. flush_event x [] ++ bytes) (flush_all-snoc es e)
    ∙ sym (append_assoc (flush_event x []) (flush_all es) (flush_event e []))

-- An event that the layout has room for and that fits a page.
abbrev pub IsLoggable : Event → Type 0
IsLoggable e = IsEncodable e × (length (flush_event e []) ≤ wal_page_size)

Below-next :
    (n : ℕ) (content : Str) (front : Directory)
    → n + 1 < 10000
    → Below (segment_name n) front
    → Below (segment_name (n + 1)) (assign (segment_name n) content front)
unfolding assign list_directory
Below-next n content front h b =
    let next = segment_name-lt n (n + 1) (omega arith) h in
    (
      next,
      rw (erase-above (segment_name n) front b) (
          All-map (λ m k. str_lt_trans m (segment_name n) (segment_name (n + 1)) k next)
            (list_directory front) b),
    )

module _ {S : Type 0} (f : Event → S → S) (base : Directory) (s : S) where
  -- The log after some events: a front that is read as the first of them, and the open page of the rest.
  record Holds (log : Log) (seen : List Event) : Type 0 where
    n : ℕ
    before : List Event
    page : List Event
    front : Directory
    at_state : log ≡ at_page n (flush_all page) front
    encodable : All IsEncodable page
    fits : length (flush_all page) ≤ wal_page_size
    below : Below (segment_name n) front
    front_read : read (each f) front s ≡ run f before (read (each f) base s)
    holds : before ++ page ≡ seen

  read-page :
      (n k : ℕ) (page : List Event) (front : Directory)
      → All IsEncodable page
      → Below (segment_name n) front
      → length (flush_all page ++ replicate k 0) ≤ wal_page_size
      → read (each f) (assign (segment_name n) (flush_all page ++ replicate k 0) front) s
        ≡ run f page (read (each f) front s)
  read-page n k page front h b l =
      read-last (each f) front (segment_name n) (flush_all page ++ replicate k 0) s b l
      ∙ read_events-flush_all f page _ k (read (each f) front s) h (omega arith)

  read-Holds :
      (log : Log) (seen : List Event)
      → Holds log seen
      → read (each f) log.1 s ≡ run f seen (read (each f) base s)
  read-Holds log seen v =
      ap (λ l. read (each f) l.1 s) v.at_state
      ∙ ap (λ c. read (each f) (assign (segment_name v.n) c v.front) s)
          (sym (append-nil (flush_all v.page)))
      ∙ read-page v.n 0 v.page v.front v.encodable v.below
          (omega (arith, v.fits, ap length (append-nil (flush_all v.page))))
      ∙ ap (run f v.page) v.front_read
      ∙ sym (run-append f v.before v.page _)
      ∙ ap (λ l. run f l (read (each f) base s)) v.holds

  write-Holds :
      (log : Log) (seen : List Event) (e : Event)
      → Holds log seen
      → IsLoggable e
      → (write e log).0.current_segment_no < 10000
      → Holds (write e log) (seen ++ e ∷ [])
  unfolding flush_all
  write-Holds log seen e v h l =
      elim (Bool-cases
        (ltb wal_page_size (length (flush_all v.page) + length (flush_event e [])))) [
          | inl full ↦
              let page = flush_all v.page in
              let some_bytes : 0 < length page = omega (arith, ltb→lt _ _ full, h.1) in
              let number =
                number-write_bytes (flush_event e []) (flush_page (at_page v.n page v.front))
                ∙ number-flush_page (at_page v.n page v.front).0 (at_page v.n page v.front).1
                    (ground arith) refl in
              let written = ap (write e) v.at_state ∙ write-full e v.n page v.front full in
              let below =
                Below-next v.n (page ++ padding page) v.front
                  (omega (arith, number, l, ap (λ g. g.0.current_segment_no) written)) v.below in
              record {
                n = v.n + 1;
                before = seen;
                page = e ∷ [];
                front = closed_front v.n page v.front;
                at_state =
                    written
                    ∙ ap (write_bytes (flush_event e []))
                        (flush_page-page v.n page v.front some_bytes v.fits below)
                    ∙ write_bytes-page (v.n + 1) [] (flush_event e [])
                        (closed_front v.n page v.front)
                    ∙ ap (λ c. at_page (v.n + 1) c (closed_front v.n page v.front))
                        (sym (append-nil (flush_event e [])));
                encodable = (h.0, tt);
                fits = omega (arith, h.1, ap length (append-nil (flush_event e [])));
                below = below;
                front_read =
                    read-page v.n (wal_page_size - length page) v.page v.front v.encodable v.below (
                      omega (
                        arith,
                        v.fits,
                        length-append page (padding page),
                        length-replicate {A = ℕ} (wal_page_size - length page) 0,
                      ))
                    ∙ ap (run f v.page) v.front_read
                    ∙ sym (run-append f v.before v.page _)
                    ∙ ap (λ l. run f l (read (each f) base s)) v.holds;
                holds = refl;
              }
          | inr fit ↦ record {
            n = v.n;
            before = v.before;
            page = v.page ++ e ∷ [];
            front = v.front;
            at_state =
                ap (write e) v.at_state
                ∙ write-fits e v.n (flush_all v.page) v.front fit
                ∙ ap (λ c. at_page v.n c v.front) (sym (flush_all-snoc v.page e));
            encodable = All-append IsEncodable v.page (e ∷ []) v.encodable (h.0, tt);
            fits = omega (
              arith,
              ap length (flush_all-snoc v.page e),
              length-append (flush_all v.page) (flush_event e []),
              ltb-false _ _ fit,
            );
            below = v.below;
            front_read = v.front_read;
            holds = sym (append_assoc v.before v.page (e ∷ [])) ∙ ap (λ l. l ++ e ∷ []) v.holds;
          }
        ]

  write_all-Holds :
      (es seen : List Event) (log : Log)
      → Holds log seen
      → All IsLoggable es
      → (write_all es log).0.current_segment_no < 10000
      → Holds (write_all es log) (seen ++ es)
  unfolding write_all
  write_all-Holds [] seen log v h l = subst (Holds log) (sym (append-nil seen)) v
  write_all-Holds (e ∷ es) seen log v h l =
      subst (Holds (write_all es (write e log))) (append_assoc seen (e ∷ []) es) (
        write_all-Holds es (seen ++ e ∷ []) (write e log)
          (write-Holds log seen e v h.0 (omega (arith, number-write_all es (write e log)))) h.1 l)

  init-Holds :
      All IsSegment (list_directory base)
      → (init base).0.current_segment_no < 10000
      → Holds (init base) []
  unfolding init open_segment run flush_all
  init-Holds h l =
      let n = next_segment_no (sort (list_directory base)) in
      let below = init-Below base h l in
      record {
        n = n;
        before = [];
        page = [];
        front = base;
        at_state = open_segment-new [] 0 n base below;
        encodable = tt;
        fits = omega arith;
        below = below;
        front_read = refl;
        holds = refl;
      }

-- Let a log be opened on a directory of segments that the program named, and let events be written that
-- the layout has room for and that fit a page. As long as the number of the last segment has four
-- digits, reading the directory then does what reading it before did, followed by the new events, once
-- each and in the order in which they were written: page ends, padding and new segments do not show.
pub read-write_all :
    {S : Type 0} (f : Event → S → S) (es : List Event) (d : Directory) (s : S)
    → All IsSegment (list_directory d)
    → All IsLoggable es
    → (write_all es (init d)).0.current_segment_no < 10000
    → read (each f) (write_all es (init d)).1 s ≡ run f es (read (each f) d s)
read-write_all f es d s h k l = read-Holds f d s (write_all es (init d)) es (
    write_all-Holds f d s es [] (init d)
      (init-Holds f d s h (omega (arith, number-write_all es (init d)))) k l)
