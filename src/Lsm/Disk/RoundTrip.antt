-- ===== src/Lsm/Disk/RoundTrip.antt =====
-- A table that is written to a file and opened again holds the same records.
use structuredb.Base.{
  ℕ, ◌^◌, ◌≤◌, ◌<◌, ◌≡◌, refl, sym, ap, subst, ◌∙◌, List, [], ◌∷◌, ◌++◌, length, arith,
  length-append, All, All-append, All-left, All-right, ◌⊎◌, inl, inr, some, true, false,
}
use structuredb.Base.Str.{Str}
use structuredb.Lsm.Types.{Record}
use structuredb.Lsm.Codec.{
  write_ss_table_header, IsEncodable, ss_table_header_size, page_header_size,
}
use structuredb.Lsm.Page.{Page}
use structuredb.Lsm.SsTable.{SsTable}
use structuredb.Lsm.SsTable.Seek.{flat, Filled}
use structuredb.Lsm.Disk.{
  SsTableBuilder, FileWriter, new_file, create_builder, flush_header, flush_page, finish, add_all,
  write_table, rewind, open_table, is_empty,
}
use structuredb.Lsm.Disk.Layout.{
  raws, encode_pages, FitsPage, file_write-end, file_write-front, length-write_ss_table_header,
}
use structuredb.Lsm.Disk.Load.{Storable, open_table-encode}
use structuredb.Lsm.Disk.Build.{
  max_seq, Built, FitsAlone, add_all_lem, flush_page-state, state, at_end, flat-snoc,
}
use mathlib.Core.List.{append-nil}

module _ (crc : Str → ℕ) (size : ℕ) where
  -- What the finished builder leaves in the file.
  record Finished (seen : List Record) (b : SsTableBuilder) : Type 0 where
    pages : List Page
    writer : FileWriter
    finished : finish crc b ≡ some writer
    content_eq :
        writer.content
        ≡ write_ss_table_header
            (record { page_size = size; page_count = length pages; max_seq_no = max_seq seen })
            []
          ++ encode_pages crc size pages
    holds : flat pages ≡ seen
    fit : All (FitsPage size) pages
    filled : Filled pages

  -- The header's place is rewritten, and the pages behind it stay.
  rewritten :
      (front : Str) (done : List Page) (p : Page) (m : ℕ)
      → length front ≡ ss_table_header_size
      → (flush_header (record (state crc size front done p m) {
        file_writer = rewind (at_end crc size (front ++ encode_pages crc size done));
      })).file_writer.content
        ≡ write_ss_table_header
            (record { page_size = size; page_count = length done; max_seq_no = m })
            []
          ++ encode_pages crc size done
  unfolding flush_header rewind
  rewritten front done p m e =
      file_write-front _ front (encode_pages crc size done)
        (e ∙ sym (length-write_ss_table_header _))

  finish-empty :
      (b : SsTableBuilder)
      → is_empty b.page_builder ≡ true
      → finish crc b
        ≡ some (flush_header (record b { file_writer = rewind b.file_writer })).file_writer
  unfolding finish
  finish-empty b e = rw (e, finish)

  finish-flush :
      (b b' : SsTableBuilder)
      → is_empty b.page_builder ≡ false
      → flush_page crc b ≡ some b'
      → finish crc b
        ≡ some (flush_header (record b' { file_writer = rewind b'.file_writer })).file_writer
  unfolding finish
  finish-flush b b' e f = rw (e, f, finish)

  finish-state :
      (front : Str) (seen : List Record) (done : List Page) (p : Page)
      → length front ≡ ss_table_header_size
      → flat done ++ p ≡ seen
      → FitsPage size p
      → All (FitsPage size) done
      → Filled done
      → Finished seen (state crc size front done p (max_seq seen))
  finish-state front seen done [] l e fits done_fit filled = record {
    pages = done;
    writer = _;
    finished = finish-empty (state crc size front done [] (max_seq seen)) refl;
    content_eq = rewritten front done [] (max_seq seen) l;
    holds = sym (append-nil (flat done)) ∙ e;
    fit = done_fit;
    filled = filled;
  }
  finish-state front seen done (r ∷ p) l e fits done_fit filled = record {
    pages = done ++ (r ∷ p) ∷ [];
    writer = _;
    finished =
        finish-flush (state crc size front done (r ∷ p) (max_seq seen)) _ (ground arith)
          (flush_page-state crc size front done (r ∷ p) (max_seq seen) fits (omega arith));
    content_eq = rewritten front (done ++ (r ∷ p) ∷ []) [] (max_seq seen) l;
    holds = flat-snoc done (r ∷ p) ∙ e;
    fit = All-append _ done ((r ∷ p) ∷ []) done_fit (fits, tt);
    filled = All-append _ done ((r ∷ p) ∷ []) filled (omega arith, tt);
  }

  finish_lem :
      (front : Str) (seen : List Record) (b : SsTableBuilder)
      → length front ≡ ss_table_header_size
      → Built crc size front seen b
      → Finished seen b
  finish_lem front seen b l v =
      subst (Finished seen) (sym v.at_state)
        (finish-state front seen v.done v.open_page l v.holds v.open_fits v.done_fit v.done_filled)

  first_header : Str
  first_header =
      write_ss_table_header (record { page_size = size; page_count = 0; max_seq_no = 0 }) []

  create_builder-state : create_builder new_file size ≡ state crc size first_header [] [] 0
  unfolding create_builder encode_pages raws first_header
  create_builder-state = λ i. record {
    header = record { page_size = size; page_count = 0; max_seq_no = 0 };
    page_builder = (state crc size [] [] [] 0).page_builder;
    file_writer =
        (file_write-end first_header [] ∙ ap (at_end crc size) (sym (append-nil first_header))) i;
  }

  -- What the parts of the program rely on for a table to be written: the page size and the number of
  -- records fit their fields, each record has a valid encoding and fits a page by itself, and the
  -- checksum is a 64-bit pattern.
  pub record Writable (rs : List Record) : Type 0 where
    pub size_fits : size < 2 ^ 64
    pub count_fits : length rs < 2 ^ 64
    pub encodable : All IsEncodable rs
    pub alone : All (FitsAlone crc size) rs
    pub crc_fits : (s : Str) → crc s < 2 ^ 64

  pages-le : (ps : List Page) → Filled ps → length ps ≤ length (flat ps)
  unfolding flat
  pages-le [] h = omega arith
  pages-le (p ∷ ps) h = omega (arith, pages-le ps h.1, length-append p (flat ps))

  max_seq-lt : (rs : List Record) → All IsEncodable rs → max_seq rs < 2 ^ 64
  unfolding max_seq
  max_seq-lt [] h = omega arith
  max_seq-lt (r ∷ rs) h = let s = h.0.seq_no_fits in omega (arith, max_seq-lt rs h.1)

  storable :
      (ps : List Page)
      → ((s : Str) → crc s < 2 ^ 64)
      → length (flat ps) < 2 ^ 64
      → All IsEncodable (flat ps)
      → All (FitsPage size) ps
      → All (Storable crc size) ps
  unfolding flat
  storable [] c n e f = tt
  storable (p ∷ ps) c n e f = (
    record {
      encodable = All-left _ p (flat ps) e;
      fits = f.0;
      count_fits = omega (arith, length-append p (flat ps));
      crc_fits = c;
    },
    storable ps c (omega (arith, length-append p (flat ps))) (All-right _ p (flat ps) e) f.1,
  )

  empty_page_fits : (rs : List Record) → All (FitsAlone crc size) rs → (rs ≡ []) ⊎ FitsPage size []
  unfolding raws
  empty_page_fits [] h = inl refl
  empty_page_fits (r ∷ rs) h = inr (let a = h.0 in omega arith)

  write_eq :
      (rs : List Record) (b : SsTableBuilder) (w : FileWriter)
      → add_all crc rs (create_builder new_file size) ≡ some b
      → finish crc b ≡ some w
      → write_table crc size rs ≡ some w.content
  unfolding write_table
  write_eq rs b w p q = rw (p, q, write_table)

  -- For a page size that leaves room for the page header, and records that can be written (each
  -- fits a page by itself, the lengths and counts fit their fields, the checksum is a 64-bit
  -- pattern), writing succeeds. The file, opened again, is a table that holds exactly these
  -- records in their order and has no empty page, and its header has the largest sequence number.
  pub open_table-write_table :
      (file_no : ℕ) (rs : List Record)
      → page_header_size ≤ size
      → Writable rs
      → (file : Str) × (t : SsTable) × (write_table crc size rs ≡ some file)
        × (open_table crc file_no file ≡ some t)
        × (t.file_no ≡ file_no)
        × (flat t.pages ≡ rs)
        × Filled t.pages
        × (t.max_seq_no ≡ max_seq rs)
  unfolding first_header max_seq flat
  open_table-write_table file_no rs fits v =
      let (b, added, built) =
        add_all_lem crc size first_header [] rs (create_builder new_file size) v.alone start in
      let f = finish_lem first_header rs b (length-write_ss_table_header _) built in
      let same : length (flat f.pages) ≡ length rs = ap length f.holds in
      (
        f.writer.content,
        record { file_no = file_no; pages = f.pages; max_seq_no = max_seq rs },
        write_eq rs b f.writer added f.finished,
        ap (open_table crc file_no) f.content_eq
            ∙ open_table-encode crc file_no
                (record { page_size = size; page_count = length f.pages; max_seq_no = max_seq rs })
                f.pages v.size_fits (omega (arith, pages-le f.pages f.filled, v.count_fits))
                (max_seq-lt rs v.encodable) refl
                (storable f.pages v.crc_fits (omega (arith, same, v.count_fits))
                  (subst (All IsEncodable) (sym f.holds) v.encodable) f.fit),
        refl,
        f.holds,
        f.filled,
        refl,
      )
    where
      start : Built crc size first_header [] (create_builder new_file size)
      start = record {
        done = [];
        open_page = [];
        at_state = create_builder-state;
        holds = refl;
        open_fits = unfold raws in omega arith;
        done_fit = tt;
        done_filled = tt;
      }
