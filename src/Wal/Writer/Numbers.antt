-- ===== src/Wal/Writer/Numbers.antt =====
-- The numbers of the segments while the log is written (wal/writer.cpp).
use structuredb.Base.{ℕ, ◌+◌, ◌≤◌, ◌≡◌, refl, false, List, [], ◌∷◌, arith, ltb, ◌==◌}
use structuredb.Base.Str.{Str}
use structuredb.Base.Assoc.{str_key}
use structuredb.Wal.Event.{Event}
use structuredb.Wal.Files.{Directory}
use structuredb.Wal.Writer.{
  Writer, Log, open_segment, flush_segment, pad, close_page, flush_page, write_bytes, write,
  write_all,
}

pad-number : (log : Log) → (pad log).0.current_segment_no ≡ log.0.current_segment_no
unfolding pad
pad-number (w, d) = ground arith

pub number-flush_page :
    (w : Writer) (d : Directory)
    → (w.current_page_size == 0) ≡ false
    → w.pages_in_current_segment ≡ 0
    → (flush_page (w, d)).0.current_segment_no ≡ w.current_segment_no + 1
unfolding flush_page pad close_page flush_segment open_segment
number-flush_page w d h z = ground arith

number-flush_page-le :
    (log : Log) → log.0.current_segment_no ≤ (flush_page log).0.current_segment_no
unfolding flush_page pad close_page flush_segment open_segment
number-flush_page-le (w, d) = ground arith

number-write :
    (e : Event) (log : Log) → log.0.current_segment_no ≤ (write e log).0.current_segment_no
unfolding write write_bytes
number-write e (w, d) = ground (arith, number-flush_page-le (w, d))

pub number-write_all :
    (es : List Event) (log : Log)
    → log.0.current_segment_no ≤ (write_all es log).0.current_segment_no
unfolding write_all
number-write_all [] log = omega arith
number-write_all (e ∷ es) log = omega (arith, number-write e log, number-write_all es (write e log))

pub ltb-false : (m n : ℕ) → ltb m n ≡ false → n ≤ m
ltb-false m n h = ground arith

pub number-write_bytes :
    (bytes : Str) (log : Log)
    → (write_bytes bytes log).0.current_segment_no ≡ log.0.current_segment_no
unfolding write_bytes
number-write_bytes bytes (w, d) = refl
