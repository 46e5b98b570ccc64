-- ===== src/Tests/Sessions.antt =====
-- Sessions and locks: transaction 10 creates the table "a", and two coroutines want a lock.
use structuredb.Base.{ℕ, Bool, ◌≡◌, ◌≢◌, refl, true, false, none, some, [], ◌∷◌, ap, map, arith}
use structuredb.Base.Str.{Str, str_eq}
use structuredb.Base.Assoc.{nat_key, str_key, lookup, assign, member}
use structuredb.Sdb.Bytes.{le_bytes}
use structuredb.Sdb.{write, write_int, write_string, write_bool}
use structuredb.Lsm.Codec.{write_record}
use structuredb.Lsm.Tree.{new_lsm, default_options}
use structuredb.Lsm.Tree.Invariant.{Setup}
use structuredb.Lsm.Tree.History.{empty_tree, empty_tree-Inv, no-versions}
use structuredb.Table.{to_string, write_value, live, upsert, write_row}
use structuredb.Cli.Split.{split, Pieces, split-Pieces}
use structuredb.Table as Table
use structuredb.Table.Isolation.{Stored, row_with, write_row_eq, lookup_lem}
use structuredb.Table.Visible.{IsStorable, first_visible, rows_for}
use structuredb.Table.Engine.{LsmEngine, row_of}
use structuredb.Table.Engine as Engine
use structuredb.Table.Engine.Contract.{lsm_engine}
use structuredb.Database.Catalog.{
  done, database_exception, TableInfo, created, internal_tables, sys_tables, sys_transactions,
}
use structuredb.Database.Catalog as Catalog
use structuredb.Database.Session.{
  Context, Session, transactional, create_table, get_table, try_emplace,
}
use structuredb.Database.Session.Tables.{get_table-create_table}
use structuredb.Io.SharedMutex.{shared, sleeping, ready, holding, move, System, try_lock}
use structuredb.Io.SharedMutex.Exclusion.{Reach, start, step, ask, turn, initial}
use structuredb.Io.SharedMutex.Holders.{exclusive_alone}
use structuredb.Tests.Trees.{no_crc, a}
use structuredb.Tests.Transactions.{one_started, one_holds, takes_row}

abbrev engine : LsmEngine
engine = record { lsm = empty_tree default_options; id = 116 ∷ []; has_wal_writer = true }

default_Setup : Setup no_crc default_options
default_Setup = record {
  size_fits = omega arith;
  header_fits = omega arith;
  count_fits = omega arith;
  crc_fits = λ s. omega arith;
}

nothing-Stored : Stored (lsm_engine no_crc) a [] engine
unfolding lsm_engine rows_for
nothing-Stored = record {
  is_valid = empty_tree-Inv no_crc default_options default_Setup;
  rows = ap (map row_of) (no-versions no_crc default_options a);
  storable = tt;
}

abbrev uuid : Str
uuid = 120 ∷ []

abbrev info : TableInfo
info = record { status = created; id = uuid }

abbrev ten : Session
ten = record { tx = 10; is_autocommit = true }

abbrev before : Context LsmEngine
before = record { tx_storage = one_started; storages = (sys_tables, engine) ∷ [] }

abbrev new_engine : Str → LsmEngine
new_engine id = record engine { id = id }

abbrev catalog_engine : LsmEngine
catalog_engine = (Engine.upsert (row_with a (live 10 (Catalog.to_string info))) engine).0

abbrev after : Context LsmEngine
after = record {
  tx_storage = one_holds;
  storages =
      try_emplace uuid (new_engine uuid) (assign sys_tables catalog_engine (before.storages));
}

nothing_found : Table.lookup (lsm_engine no_crc) 10 a one_started engine ≡ some none
unfolding first_visible
nothing_found = lookup_lem (lsm_engine no_crc) 10 a [] one_started engine nothing-Stored

no_info : Catalog.get_table_info (lsm_engine no_crc) 10 a one_started engine ≡ done none
unfolding Catalog.get_table_info
no_info = rw (nothing_found, Catalog.get_table_info) refl

takes_upsert :
    (lsm_engine no_crc).upsert (row_with a (live 10 (Catalog.to_string info))) engine
    ≡ some catalog_engine
unfolding lsm_engine
takes_upsert = refl

puts :
    Catalog.put_info (lsm_engine no_crc) 10 a info one_started engine
    ≡ done (one_holds, catalog_engine)
unfolding Catalog.put_info upsert
puts =
    rw
      (
        write_row_eq (lsm_engine no_crc) 10 a (live 10 (Catalog.to_string info)) one_started
            one_holds engine catalog_engine takes_row takes_upsert,
        Catalog.put_info,
      )
      refl

is_user_table : member a internal_tables ≡ false
unfolding member str_eq
is_user_table = refl

adds :
    Catalog.add_storage (lsm_engine no_crc) 10 uuid a one_started engine
    ≡ done (uuid, (one_holds, catalog_engine))
unfolding Catalog.add_storage
adds = rw (is_user_table, no_info, puts, Catalog.add_storage) refl

catalog_there : lookup sys_tables before.storages ≡ some engine
unfolding lookup str_eq
catalog_there = refl

creates : create_table (lsm_engine no_crc) new_engine uuid a ten before ≡ done after
unfolding create_table
creates = rw (catalog_there, adds, create_table) refl

new_id : lookup uuid before.storages ≡ none
unfolding lookup str_eq
new_id = refl

names_differ : (str_eq a sys_tables ≡ false) × (str_eq a sys_transactions ≡ false)
unfolding str_eq
names_differ = (refl, refl)

info-IsStorable : IsStorable (live 10 (Catalog.to_string info))
unfolding Catalog.to_string le_bytes
info-IsStorable = record { tx_fits = omega arith; value_fits = omega arith }

info_accepted : (lsm_engine no_crc).accepts (row_with a (live 10 (Catalog.to_string info))) engine
unfolding lsm_engine empty_tree new_lsm write_record write_string write_int write write_bool
    write_value to_string le_bytes Catalog.to_string
info_accepted = (
  record { key_fits = omega arith; seq_no_fits = omega arith; value_fits = omega arith },
  omega arith,
)

get_table-create_table_example :
    (get_table (lsm_engine no_crc) a ten after ≡ done (transactional uuid))
    × (lookup uuid after.storages ≡ some (new_engine uuid))
    × ((other : Str)
        → create_table (lsm_engine no_crc) new_engine other a ten after ≡ database_exception)
get_table-create_table_example =
    get_table-create_table (lsm_engine no_crc) new_engine uuid a [] ten before after engine
      catalog_there new_id names_differ.0 names_differ.1 nothing-Stored info-IsStorable
      info_accepted creates

-- The coroutine 1 takes the lock, and the coroutine 2 sleeps on it.
abbrev first_asks : System
first_asks = record initial { place = move 1 (ready true) initial.place }

abbrev first_holds : System
first_holds = try_lock 1 true first_asks

abbrev second_asks : System
second_asks = record first_holds { place = move 2 (ready false) first_holds.place }

abbrev second_sleeps : System
second_sleeps = try_lock 2 false second_asks

holds_alone : Reach second_sleeps
unfolding try_lock
holds_alone =
    step
      (step (step (step start (ask 1 true initial refl)) (turn 1 true first_asks refl))
        (ask 2 false first_holds refl))
      (turn 2 false second_asks refl)

exclusive_alone_example :
    ((c k : ℕ) (mode : Bool)
      → second_sleeps.place c ≡ holding true
      → second_sleeps.place k ≡ holding mode
      → c ≡ k)
    × (second_sleeps.mutex.state_ ≡ shared 0
        → (c : ℕ) (mode : Bool) → second_sleeps.place c ≢ sleeping mode)
exclusive_alone_example = exclusive_alone holds_alone

-- The line "a b", split at spaces.
split-Pieces_example : Pieces 32 (97 ∷ 32 ∷ 98 ∷ []) (split (97 ∷ 32 ∷ 98 ∷ []) 32)
split-Pieces_example = split-Pieces 32 (97 ∷ 32 ∷ 98 ∷ [])
