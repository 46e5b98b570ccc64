-- ===== src/Wal/Event.antt =====
-- The records of the write-ahead log (wal/events): what a storage engine and the transaction
-- storage hand to the writer, and their byte layout.
use structuredb.Base.{ℕ, ◌<◌, ◌^◌, ◌≡◌, sym, subst, [], ◌++◌, length, arith, if◌then◌else◌, ◌==◌}
use structuredb.Base.Str.{Str}
use structuredb.Sdb.{
  Reader, ◌>>=◌, return, err, unknown_event, write_int, write_string, read_int, read_string,
}
use structuredb.Sdb.Laws.{Reads, Reads-bind, Reads-return, read_int-Reads, read_string-Reads}
use mathlib.Core.List.{append_assoc}

-- The subclasses of `Event`, each with its fields.
pub data Event : Type 0 where
  -- storage_id_, seq_no_, key_, value_
  lsm_storage_upsert : Str → ℕ → Str → Str → Event
  -- tx_id_
  tx_storage_commit : ℕ → Event

-- `GetType`, as the number that is written.
abbrev pub event_type : Event → ℕ
event_type (lsm_storage_upsert id seq_no key value) = 1
event_type (tx_storage_commit tx) = 2

-- The method `Flush` of each class.
unfoldable pub flush_fields : Event → Str → Str
flush_fields (lsm_storage_upsert id seq_no key value) out =
    write_string value (write_string key (write_int seq_no (write_string id out)))
flush_fields (tx_storage_commit tx) out = write_int tx out

unfoldable pub flush_event : Event → Str → Str
unfolding flush_fields
flush_event e out = flush_fields e (write_int (event_type e) out)

-- `LsmStorageUpsertEvent::Parse`. The reads are arguments of one call, whose order C++ leaves to
-- the compiler; this is the order in which they are written.
unfoldable pub parse_lsm_storage_upsert : Reader Event
parse_lsm_storage_upsert = do
  id ← read_string
  seq_no ← read_int
  key ← read_string
  value ← read_string
  return (lsm_storage_upsert id seq_no key value)

unfoldable pub parse_tx_storage_commit : Reader Event
parse_tx_storage_commit = do tx ← read_int; return (tx_storage_commit tx)

-- The table `kParsers`: at any other type `at` throws.
unfoldable pub parser_of : ℕ → Reader Event
unfolding parse_lsm_storage_upsert parse_tx_storage_commit
parser_of type =
    if type == 1
    then parse_lsm_storage_upsert
    else if type == 2
    then parse_tx_storage_commit
    else (λ bytes. err unknown_event)

unfoldable pub parse_event : Reader Event
unfolding parser_of
parse_event = do type ← read_int; parser_of type

abbrev pub IsEncodable : Event → Type 0
IsEncodable (lsm_storage_upsert id seq_no key value) =
    (length id < 2 ^ 63) × (seq_no < 2 ^ 64) × (length key < 2 ^ 63) × (length value < 2 ^ 63)
IsEncodable (tx_storage_commit tx) = tx < 2 ^ 64

upsert_parts :
    (id : Str) (seq_no : ℕ) (key value : Str)
    → flush_event (lsm_storage_upsert id seq_no key value) []
      ≡ write_int 1 []
        ++ (write_string id []
            ++ (write_int seq_no [] ++ (write_string key [] ++ write_string value [])))
unfolding flush_event write_string write_int
upsert_parts id seq_no key value = simp append_assoc

-- Every event whose fields fit the layout, of either kind, is parsed back as it was written, and
-- the bytes that follow stay unread.
pub parse_event-flush_event : (e : Event) → IsEncodable e → Reads parse_event e (flush_event e [])
unfolding parse_event
parse_event-flush_event (lsm_storage_upsert id seq_no key value) h =
    subst (Reads parse_event _) (sym (upsert_parts id seq_no key value)) (
      Reads-bind _ (read_int-Reads (omega arith)) (
        Reads-bind _ (read_string-Reads h.0) (
          Reads-bind _ (read_int-Reads h.1)
            (Reads-bind _ (read_string-Reads h.2) (Reads-return _ (read_string-Reads h.3))))))
parse_event-flush_event (tx_storage_commit tx) h =
    unfold flush_event write_int in
    Reads-bind _ (read_int-Reads {n = 2} (omega arith)) (Reads-return _ (read_int-Reads h))
