-- ===== src/Lsm/Disk/Load.antt =====
-- Reading a table file of the described layout gives back its pages.
use structuredb.Base.{
  ℕ, ◌+◌, ◌*◌, ◌^◌, ◌<◌, ◌≡◌, refl, sym, ap, subst, ◌∙◌, List, [], ◌∷◌, ◌++◌, length, arith,
  length-append, All, some, ==_iff,
}
use structuredb.Base.Str.{Str}
use structuredb.Sdb.{ok}
use structuredb.Sdb.Laws.{Reads, Reads-bind, Reads-return}
use structuredb.Lsm.Types.{Record}
use structuredb.Lsm.Codec.{
  PageHeader, write_page_header, read_page_header, SsTableHeader, write_ss_table_header,
  read_ss_table_header, ss_table_header_size, IsEncodable, read_record-write_record,
  read_page_header-write_page_header, read_ss_table_header-write_ss_table_header,
}
use structuredb.Lsm.Page.{Page}
use structuredb.Lsm.Disk.{
  read_records, load, read_at, read_page, read_pages, open_table, pad_page, page_checksum,
}
use structuredb.Lsm.Disk.Layout.{
  raws, body, encode_page, encode_pages, FitsPage, length-encode_page, drop-length, take-length,
  length-write_page_header, length-write_ss_table_header,
}
use mathlib.Core.List.{append-nil, append_assoc}

read_records-raws :
    (rs : List Record) → All IsEncodable rs → Reads (read_records (length rs)) rs (raws rs)
unfolding read_records raws
read_records-raws [] h = record { reads = λ rest. refl }
read_records-raws (r ∷ rs) h =
    Reads-bind _ (read_record-write_record h.0) (Reads-return _ (read_records-raws rs h.1))

-- What a page must satisfy to be written and read back.
pub record Storable (crc : Str → ℕ) (page_size : ℕ) (rs : Page) : Type 0 where
  pub encodable : All IsEncodable rs
  pub fits : FitsPage page_size rs
  pub count_fits : length rs < 2 ^ 64
  pub crc_fits : (s : Str) → crc s < 2 ^ 64

checksum_of :
    (crc : Str → ℕ) (h : PageHeader) (s : Str)
    → page_checksum crc (write_page_header h [] ++ s) ≡ crc s
checksum_of crc h s =
    ap crc (rw (← length-write_page_header h) (drop-length (write_page_header h []) s))

load_of :
    (crc : Str → ℕ) (buffer rest unread : Str) (h : PageHeader) (rs : Page)
    → read_page_header buffer ≡ ok (h, rest)
    → page_checksum crc buffer ≡ h.checksum
    → read_records h.count rest ≡ ok (rs, unread)
    → load crc buffer ≡ some rs
unfolding load
load_of crc buffer rest unread h rs p q r = rw (p, (==_iff _ _).1 q, r, load)

-- Loading the bytes of a page checks its checksum and gives its records.
pub load-encode_page :
    (crc : Str → ℕ) (page_size : ℕ) (rs : Page)
    → Storable crc page_size rs
    → load crc (encode_page crc page_size rs) ≡ some rs
unfolding encode_page body
load-encode_page crc page_size rs v =
    load_of crc _ (body page_size rs) _ h rs
      ((read_page_header-write_page_header h v.count_fits (v.crc_fits _)).reads (body page_size rs))
      (checksum_of crc h (body page_size rs)) ((read_records-raws rs v.encodable).reads _)
  where
    h : PageHeader
    h = record { count = length rs; checksum = crc (body page_size rs) }

-- A read within the file is the part of the file at that place.
read_at-append :
    (size offset : ℕ) (before bytes behind : Str)
    → length before ≡ offset
    → length bytes ≡ size
    → read_at offset size (before ++ (bytes ++ behind)) ≡ bytes
unfolding read_at pad_page
read_at-append size offset before bytes behind p q =
    rw (← p, drop-length before (bytes ++ behind), ← q, take-length bytes behind) (ground arith)

read_page-append :
    (crc : Str → ℕ) (header : SsTableHeader) (before behind : Str) (n : ℕ) (p : Page)
    → Storable crc header.page_size p
    → length before ≡ ss_table_header_size + n * header.page_size
    → read_page crc header (before ++ (encode_page crc header.page_size p ++ behind)) n ≡ some p
unfolding read_page
read_page-append crc header before behind n p v e =
    rw
      (read_at-append header.page_size (ss_table_header_size + n * header.page_size) before
        (encode_page crc header.page_size p) behind e
        (length-encode_page crc header.page_size p v.fits))
      (load-encode_page crc header.page_size p v)

read_pages-append :
    (crc : Str → ℕ) (header : SsTableHeader) (before : Str) (n : ℕ) (ps : List Page)
    → All (Storable crc header.page_size) ps
    → length before ≡ ss_table_header_size + n * header.page_size
    → read_pages crc header (before ++ encode_pages crc header.page_size ps) (length ps) n ≡ some ps
unfolding read_pages encode_pages
read_pages-append crc header before n [] v e = refl
read_pages-append crc header before n (p ∷ ps) v e =
    let page = encode_page crc header.page_size p in
    let ih = read_pages-append crc header (before ++ page) (n + 1) ps v.1 (
      omega
        (arith, length-append before page, length-encode_page crc header.page_size p v.0.fits)) in
    let ih' = rw append_assoc at ih in
    rw (
      read_page-append crc header before (encode_pages crc header.page_size ps) n p v.0 e,
      ih',
      read_pages,
    )

open_of :
    (crc : Str → ℕ) (file_no : ℕ) (file unread : Str) (h : SsTableHeader) (ps : List Page)
    → read_ss_table_header (read_at 0 ss_table_header_size file) ≡ ok (h, unread)
    → read_pages crc h file h.page_count 0 ≡ some ps
    → open_table crc file_no file
      ≡ some (record { file_no = file_no; pages = ps; max_seq_no = h.max_seq_no })
unfolding open_table
open_of crc file_no file unread h ps p q = rw (p, q, open_table)

-- Opening a file that holds a header and these pages gives a table with these pages.
pub open_table-encode :
    (crc : Str → ℕ) (file_no : ℕ) (header : SsTableHeader) (ps : List Page)
    → header.page_size < 2 ^ 64
    → header.page_count < 2 ^ 64
    → header.max_seq_no < 2 ^ 64
    → header.page_count ≡ length ps
    → All (Storable crc header.page_size) ps
    → open_table crc file_no
        (write_ss_table_header header [] ++ encode_pages crc header.page_size ps)
      ≡ some (record { file_no = file_no; pages = ps; max_seq_no = header.max_seq_no })
open_table-encode crc file_no header ps a b c n v =
    open_of crc file_no _ [] header ps (rw front read_back) (
      subst (λ k. read_pages crc header file k 0 ≡ some ps) (sym n)
        (read_pages-append crc header (write_ss_table_header header []) 0 ps v
          (omega (arith, length-write_ss_table_header header))))
  where
    file : Str
    file = write_ss_table_header header [] ++ encode_pages crc header.page_size ps

    read_back : read_ss_table_header (write_ss_table_header header []) ≡ ok (header, [])
    read_back =
        ap read_ss_table_header (sym (append-nil (write_ss_table_header header [])))
        ∙ (read_ss_table_header-write_ss_table_header header a b c).reads []

    front :
        read_at 0 ss_table_header_size
          (write_ss_table_header header [] ++ encode_pages crc header.page_size ps)
        ≡ write_ss_table_header header []
    front =
        read_at-append ss_table_header_size 0 [] (write_ss_table_header header [])
          (encode_pages crc header.page_size ps) refl (length-write_ss_table_header header)
