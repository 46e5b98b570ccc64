-- ===== src/Database/Session.antt =====
-- database/session.cpp, with `StartSession` of database/database.cpp: a session's transaction and what it
-- does with tables. The storages are over a given engine; what `Init` of a new storage makes, and the
-- ids that are generated, are arguments.
pub mod Tables
use structuredb.Base.{ℕ, Bool, true, false, Option, none, some, List, [], ◌∷◌, if◌then◌else◌}
use structuredb.Base.Str.{Str, str_eq}
use structuredb.Base.Assoc.{str_key, lookup, assign}
use structuredb.Wal.Event.{Event}
use structuredb.Transaction.{Storage, begin, commit, is_started}
use structuredb.Table.{StorageEngine}
use structuredb.Database.Catalog.{
  Outcome, done, database_exception, no_result, sys_tables, sys_transactions, add_storage,
  delete_storage, get_storage_id,
}

pub record Context (S : Type 0) : Type 0 where
  pub tx_storage : Storage
  pub storages : List (Str × S)

pub record Session : Type 0 where
  pub tx : ℕ
  pub is_autocommit : Bool

-- What `GetTable` returns.
pub data Table : Type 0 where
  sys_tables_view : Table
  sys_transactions_view : Table
  transactional : Str → Table
  nullptr : Table

module _ {S : Type 0} where
  -- `Start`
  unfoldable pub start : Option ℕ → Context S → Outcome (Session × Context S)
  start none c =
      let (st, tx) = begin c.tx_storage in
      done (record { tx = tx; is_autocommit = true }, record c { tx_storage = st })
  start (some tx) c =
      if is_started tx c.tx_storage
      then done (record { tx = tx; is_autocommit = false }, c)
      else database_exception

  -- `Database::StartSession`
  unfoldable pub start_session : Bool → Option ℕ → Context S → Outcome (Session × Context S)
  unfolding start
  start_session is_initialized tx c = if is_initialized then start tx c else database_exception

  -- `Commit`, with the events for the log.
  unfoldable pub commit_session : Session → Context S → Context S × List Event
  commit_session session c =
      let (st, events) = commit session.tx c.tx_storage in (record c { tx_storage = st }, events)

  unfoldable pub finish : Session → Context S → ℕ × (Context S × List Event)
  unfolding commit_session
  finish session c =
      (session.tx, if session.is_autocommit then commit_session session c else (c, []))

  -- `storages.try_emplace`
  unfoldable pub try_emplace : Str → S → List (Str × S) → List (Str × S)
  try_emplace id storage m = elim (lookup id m) [ none ↦ assign id storage m | some s ↦ m ]

module _ {S : Type 0} (engine : StorageEngine S) where
  -- The storage of the catalog, which `at` throws without.
  unfoldable pub create_table : (Str → S) → Str → Str → Session → Context S → Outcome (Context S)
  unfolding try_emplace
  create_table new_storage uuid name session c = elim (lookup sys_tables c.storages) [
    | none ↦ no_result
    | some sys ↦ elim (add_storage engine session.tx uuid name c.tx_storage sys) [
      | database_exception ↦ database_exception
      | no_result ↦ no_result
      | done (id, (st, sys')) ↦ done (record {
        tx_storage = st;
        storages = try_emplace id (new_storage id) (assign sys_tables sys' c.storages);
      })
    ]
  ]

  -- `DropTable`, which keeps every exception to itself. `no_result` stands for a wait for a row lock and for
  -- a table that throws; in the second case the source ends here too, of which the model says nothing.
  unfoldable pub drop_table : Str → Session → Context S → Outcome (Context S)
  drop_table name session c = elim (lookup sys_tables c.storages) [
    | none ↦ done c
    | some sys ↦ elim (delete_storage engine session.tx name c.tx_storage sys) [
      | database_exception ↦ done c
      | no_result ↦ no_result
      | done (st, sys') ↦
          done (record { tx_storage = st; storages = assign sys_tables sys' c.storages })
    ]
  ]

  unfoldable pub get_table : Str → Session → Context S → Outcome Table
  get_table name session c = elim (lookup sys_tables c.storages) [
    | none ↦ no_result
    | some sys ↦
        if str_eq name sys_tables
        then done sys_tables_view
        else if str_eq name sys_transactions
        then done sys_transactions_view
        else elim (get_storage_id engine session.tx name c.tx_storage sys) [
          | database_exception ↦ database_exception
          | no_result ↦ no_result
          | done none ↦ done nullptr
          | done (some id) ↦ elim (lookup id c.storages) [
            | none ↦ no_result
            | some storage ↦ done (transactional id)
          ]
        ]
  ]
