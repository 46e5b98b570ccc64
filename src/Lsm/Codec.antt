-- ===== src/Lsm/Codec.antt =====
-- The byte layout of the tree's files: records (lsm/types.cpp), the page header
-- (lsm/disk/page_header.cpp) and the table header (lsm/disk/ss_table_header.cpp).
use structuredb.Base.{ℕ, ◌+◌, ◌<◌, ◌^◌, ◌≡◌, sym, subst, [], ◌++◌, length, arith}
use structuredb.Base.Str.{Str}
use structuredb.Sdb.{Reader, ◌>>=◌, return, write_int, write_string, read_int, read_string}
use structuredb.Sdb.Laws.{Reads, Reads-bind, Reads-return, read_int-Reads, read_string-Reads}
use structuredb.Lsm.Types.{Record}
use mathlib.Core.List.{append_assoc}

unfoldable pub write_record : Record → Str → Str
write_record r out = write_string r.value (write_int r.seq_no (write_string r.key out))

unfoldable pub read_record : Reader Record
read_record = do
  key ← read_string
  seq_no ← read_int
  value ← read_string
  return (record { key = key; seq_no = seq_no; value = value })

pub record PageHeader : Type 0 where
  pub count : ℕ
  pub checksum : ℕ

abbrev pub page_header_size : ℕ
page_header_size = 8 + 8

unfoldable pub write_page_header : PageHeader → Str → Str
write_page_header h out = write_int h.checksum (write_int h.count out)

unfoldable pub read_page_header : Reader PageHeader
read_page_header = do
  count ← read_int
  checksum ← read_int
  return (record { count = count; checksum = checksum })

pub record SsTableHeader : Type 0 where
  pub page_size : ℕ
  pub page_count : ℕ
  pub max_seq_no : ℕ

abbrev pub ss_table_header_size : ℕ
ss_table_header_size = 8 + 8 + 8

unfoldable pub write_ss_table_header : SsTableHeader → Str → Str
write_ss_table_header h out =
    write_int h.max_seq_no (write_int h.page_count (write_int h.page_size out))

unfoldable pub read_ss_table_header : Reader SsTableHeader
read_ss_table_header = do
  page_size ← read_int
  page_count ← read_int
  max_seq_no ← read_int
  return (record { page_size = page_size; page_count = page_count; max_seq_no = max_seq_no })

-- What fits the layout: lengths and numbers within their 64-bit fields.
pub record IsEncodable (r : Record) : Type 0 where
  pub key_fits : length r.key < 2 ^ 63
  pub seq_no_fits : r.seq_no < 2 ^ 63
  pub value_fits : length r.value < 2 ^ 63

write_record_parts :
    (r : Record)
    → write_record r []
      ≡ write_string r.key [] ++ (write_int r.seq_no [] ++ write_string r.value [])
unfolding write_record write_string write_int
write_record_parts r = simp append_assoc

-- A record whose lengths and sequence number fit their fields is read back from a buffer as it was
-- written, and what follows it stays unread.
pub read_record-write_record :
    {r : Record} → IsEncodable r → Reads read_record r (write_record r [])
unfolding read_record
read_record-write_record {r} h = subst (Reads read_record r) (sym (write_record_parts r)) (
    Reads-bind _ (read_string-Reads h.key_fits) (
      Reads-bind _ (read_int-Reads (omega arith))
        (Reads-return _ (read_string-Reads h.value_fits))))

-- The same for the header of a page and of a table, whose fields are any 64-bit patterns.
pub read_page_header-write_page_header :
    (h : PageHeader)
    → h.count < 2 ^ 64
    → h.checksum < 2 ^ 64
    → Reads read_page_header h (write_page_header h [])
unfolding read_page_header write_page_header write_int
read_page_header-write_page_header h p q =
    Reads-bind _ (read_int-Reads p) (Reads-return _ (read_int-Reads q))

write_ss_table_header_parts :
    (h : SsTableHeader)
    → write_ss_table_header h []
      ≡ write_int h.page_size [] ++ (write_int h.page_count [] ++ write_int h.max_seq_no [])
unfolding write_ss_table_header write_int
write_ss_table_header_parts r = simp append_assoc

pub read_ss_table_header-write_ss_table_header :
    (h : SsTableHeader)
    → h.page_size < 2 ^ 64
    → h.page_count < 2 ^ 64
    → h.max_seq_no < 2 ^ 64
    → Reads read_ss_table_header h (write_ss_table_header h [])
unfolding read_ss_table_header
read_ss_table_header-write_ss_table_header h p q u =
    subst (Reads read_ss_table_header h) (sym (write_ss_table_header_parts h)) (
      Reads-bind _ (read_int-Reads p)
        (Reads-bind _ (read_int-Reads q) (Reads-return _ (read_int-Reads u))))
