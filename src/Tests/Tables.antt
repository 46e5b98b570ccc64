-- ===== src/Tests/Tables.antt =====
-- Tables over a tree: transaction 10 writes and deletes the row "a", and a log is replayed.
use structuredb.Base.{Option, ◌≡◌, refl, ap, true, false, none, some, [], ◌∷◌, ◌++◌, map, arith}
use structuredb.Base.Str.{Str, str_eq}
use structuredb.Base.Assoc.{nat_key, str_key, lookup, erase, assign, member}
use structuredb.Sdb.Bytes.{le_bytes}
use structuredb.Sdb.{write, write_int, write_string, write_bool}
use structuredb.Transaction.{
  Storage, started, commited, init, begin, commit, rollback, acquire_row_lock, is_commited,
  get_status, rows_of, set_insert,
}
use structuredb.Lsm.Codec.{write_record}
use structuredb.Lsm.MemTable as Mem
use structuredb.Lsm.Tree.{put, do_put, freeze, new_lsm, default_options}
use structuredb.Lsm.Tree.Versions.{new_record}
use structuredb.Lsm.Tree.Invariant.{Fits}
use structuredb.Lsm.Tree.History.{empty_tree, no-versions}
use structuredb.Table.{
  TransactionalValue, to_string, write_value, parse_value, live, tombstone, upsert, delete,
  write_row, lookup_rows, is_visible,
}
use structuredb.Table as Table
use structuredb.Table.Visible.{IsStorable, lookup_rows-Sees, Sees, rows_for, first_visible, answer}
use structuredb.Table.Isolation.{
  Stored, row_with, written, write_row_eq, lookup-own_write, lookup-uncommitted, lookup-commited,
  lookup-rolled_back, delete-seen,
}
use structuredb.Table.Engine.{LsmEngine, row_of, Database, replay}
use structuredb.Table.Engine as Engine
use structuredb.Table.Engine.Contract.{lsm_engine}
use structuredb.Table.Engine.Recovery.{upsert_all, replay-upsert_all}
use structuredb.Tests.Trees.{no_crc, small_options, a, b, empty, empty-Inv}
use structuredb.Tests.Transactions.{one_started, one_holds, takes_row}

abbrev pub one_byte : Str
one_byte = 49 ∷ []

abbrev pub engine : LsmEngine
engine = record { lsm = empty; id = 116 ∷ []; has_wal_writer = true }

live-IsStorable : IsStorable (live 10 one_byte)
live-IsStorable = record { tx_fits = omega arith; value_fits = omega arith }

pub nothing-Stored : Stored (lsm_engine no_crc) a [] engine
unfolding lsm_engine rows_for
nothing-Stored = record {
  is_valid = empty-Inv;
  rows = ap (map row_of) (no-versions no_crc small_options a);
  storable = tt;
}

live-Fits : Fits no_crc empty.options (new_record a (to_string (live 10 one_byte)) empty)
unfolding empty_tree new_lsm write_record write_string write_int write write_bool write_value
    to_string le_bytes
live-Fits = (
  record { key_fits = omega arith; seq_no_fits = omega arith; value_fits = omega arith },
  omega arith,
)

accepted : (lsm_engine no_crc).accepts (row_with a (live 10 one_byte)) engine
unfolding lsm_engine
accepted = live-Fits

abbrev written_engine : LsmEngine
written_engine = (Engine.upsert (row_with a (live 10 one_byte)) engine).0

takes_upsert :
    (lsm_engine no_crc).upsert (row_with a (live 10 one_byte)) engine ≡ some written_engine
unfolding lsm_engine
takes_upsert = refl

writes :
    upsert (lsm_engine no_crc) 10 a one_byte one_started engine ≡ some (one_holds, written_engine)
unfolding upsert
writes =
    write_row_eq (lsm_engine no_crc) 10 a (live 10 one_byte) one_started one_holds engine
      written_engine takes_row takes_upsert

not_commited : is_commited 10 one_started ≡ false
unfolding is_commited get_status begin lookup assign erase
not_commited = refl

lookup-own_write_example :
    Table.lookup (lsm_engine no_crc) 10 a one_holds written_engine ≡ some (some one_byte)
lookup-own_write_example =
    lookup-own_write (lsm_engine no_crc) 10 a one_byte [] one_started one_holds engine
      written_engine nothing-Stored live-IsStorable accepted writes

lookup-uncommitted_example :
    Table.lookup (lsm_engine no_crc) 11 a one_holds written_engine
    ≡ Table.lookup (lsm_engine no_crc) 11 a one_started engine
lookup-uncommitted_example =
    lookup-uncommitted (lsm_engine no_crc) 10 11 a one_byte [] one_started one_holds engine
      written_engine nothing-Stored live-IsStorable accepted refl not_commited writes

lookup-commited_example :
    Table.lookup (lsm_engine no_crc) 11 a (commit 10 one_holds).0 written_engine
    ≡ some (some one_byte)
lookup-commited_example =
    lookup-commited (lsm_engine no_crc) 10 11 a one_byte [] one_started one_holds engine
      written_engine nothing-Stored live-IsStorable accepted writes

lookup-rolled_back_example :
    Table.lookup (lsm_engine no_crc) 11 a (rollback 10 one_holds) written_engine
    ≡ Table.lookup (lsm_engine no_crc) 11 a one_started engine
lookup-rolled_back_example =
    lookup-rolled_back (lsm_engine no_crc) 10 11 a one_byte [] one_started one_holds engine
      written_engine nothing-Stored live-IsStorable accepted refl not_commited writes

-- Transaction 11 deletes what transaction 10 wrote and committed.
abbrev ten_commited : Storage
ten_commited = record {
  next_tx_id = 12;
  tx_status = (11, started) ∷ (10, commited) ∷ [];
  has_wal_writer = false;
  row_locks = [];
  tx_locks = [];
}

abbrev eleven_holds : Storage
eleven_holds = record ten_commited { row_locks = (a, 11) ∷ []; tx_locks = (11, a ∷ []) ∷ [] }

eleven_takes_row : acquire_row_lock 11 a ten_commited ≡ some eleven_holds
unfolding acquire_row_lock rows_of set_insert lookup assign erase member str_eq
eleven_takes_row = refl

one-Stored : Stored (lsm_engine no_crc) a (live 10 one_byte ∷ []) written_engine
one-Stored =
    (written (lsm_engine no_crc) 10 a (live 10 one_byte) [] one_started one_holds engine
      written_engine nothing-Stored live-IsStorable accepted (unfold upsert in writes)).stored

tombstone_accepted : (lsm_engine no_crc).accepts (row_with a (tombstone 11)) written_engine
unfolding lsm_engine Engine.upsert put do_put freeze Mem.put empty_tree new_lsm write_record
    write_string write_int write write_bool write_value to_string le_bytes
tombstone_accepted = (
  record { key_fits = omega arith; seq_no_fits = omega arith; value_fits = omega arith },
  omega arith,
)

one_seen : answer (first_visible 11 ten_commited (live 10 one_byte ∷ [])) ≡ some one_byte
unfolding first_visible is_visible is_commited get_status lookup
one_seen = refl

delete-seen_example :
    (s : LsmEngine) × (delete (lsm_engine no_crc) 11 a ten_commited written_engine
      ≡ some (true, (eleven_holds, s)))
    × (Table.lookup (lsm_engine no_crc) 11 a eleven_holds s ≡ some none)
delete-seen_example =
    delete-seen (lsm_engine no_crc) 11 a one_byte (live 10 one_byte ∷ []) ten_commited eleven_holds
      written_engine one-Stored (record { tx_fits = omega arith; value_fits = omega arith })
      tombstone_accepted one_seen eleven_takes_row

lookup_rows-Sees_example :
    (found : Option Str) × (lookup_rows 10 one_started
        (rows_for a (live 11 one_byte ∷ live 10 one_byte ∷ []))
      ≡ some found)
    × Sees 10 one_started (live 11 one_byte ∷ live 10 one_byte ∷ []) found
lookup_rows-Sees_example =
    lookup_rows-Sees 10 one_started a (live 11 one_byte ∷ live 10 one_byte ∷ [])
      (record { tx_fits = omega arith; value_fits = omega arith }, (live-IsStorable, tt))

-- The engine as a restart finds it when the first of two upserts is in a file.
abbrev pub found_engine : LsmEngine
found_engine = (upsert_all (record { key = a; value = b } ∷ []) engine).0

abbrev pub found_database : Database
found_database = record {
  lsm_options = default_options;
  has_wal_writer = false;
  tx_storage = init;
  engines = (116 ∷ [], found_engine) ∷ [];
}

pub is_found : lookup (116 ∷ []) found_database.engines ≡ some found_engine
unfolding lookup str_eq
is_found = refl

pub found_next : found_engine.lsm.next_seq_no ≡ 2
unfolding upsert_all Engine.upsert put do_put freeze empty_tree new_lsm Mem.put
found_next = refl

pub empty_next : empty.next_seq_no ≡ 1
unfolding empty_tree
empty_next = refl

replay-upsert_all_example :
    lookup
      (116 ∷ [])
      (replay
        (upsert_all
          ((record { key = a; value = b } ∷ []) ++ (record { key = b; value = a } ∷ []))
          engine).1
        found_database).engines
    ≡ some (upsert_all (record { key = b; value = a } ∷ []) found_engine).0
replay-upsert_all_example =
    replay-upsert_all (record { key = a; value = b } ∷ []) (record { key = b; value = a } ∷ [])
      engine found_engine found_database refl is_found (omega (arith, found_next, empty_next))
