-- ===== src/Database/Catalog.antt =====
-- database/catalog.cpp: the names of the tables and the ids of their storages, kept in a table. The id
-- that utils::GenerateUuid makes is an argument.
pub mod Naming
use structuredb.Base.{
  ℕ, ◌+◌, Bool, true, false, Option, none, some, List, [], ◌∷◌, ◌++◌, map, length, take, drop, ltb,
  ◌==◌, ◌&&◌, if◌then◌else◌,
}
use structuredb.Base.Str.{Str}
use structuredb.Base.Assoc.{str_key, member}
use structuredb.Sdb.Bytes.{le_bytes, le_value}
use structuredb.Transaction.{Storage}
use structuredb.Table.{Row, StorageEngine}
use structuredb.Table as Table

-- What an operation comes to: a result, a DatabaseException, or no result, where a coroutine waits or
-- the table fails.
pub data Outcome {ℓ} (A : Type ℓ) : Type ℓ where
  done : A → Outcome A
  database_exception : Outcome A
  no_result : Outcome A

-- kCreated and kDropped
abbrev pub created : ℕ
created = 1

abbrev pub dropped : ℕ
dropped = 2

pub record TableInfo : Type 0 where
  pub status : ℕ
  pub id : Str

-- "sys_transactions", "sys_tables" and "wal"
abbrev pub sys_transactions : Str
sys_transactions =
    115 ∷ 121 ∷ 115 ∷ 95 ∷ 116 ∷ 114 ∷ 97 ∷ 110 ∷ 115 ∷ 97 ∷ 99 ∷ 116 ∷ 105 ∷ 111 ∷ 110 ∷ 115 ∷ []

abbrev pub sys_tables : Str
sys_tables = 115 ∷ 121 ∷ 115 ∷ 95 ∷ 116 ∷ 97 ∷ 98 ∷ 108 ∷ 101 ∷ 115 ∷ []

abbrev pub wal : Str
wal = 119 ∷ 97 ∷ 108 ∷ []

-- `kInternalTables`
abbrev pub internal_tables : List Str
internal_tables = sys_transactions ∷ sys_tables ∷ wal ∷ []

unfoldable pub to_string : TableInfo → Str
to_string info = le_bytes 8 info.status ++ info.id

-- A record of less than 8 bytes, which C++ reads beyond its end, is `none`.
unfoldable pub parse_record : Str → Option TableInfo
parse_record bytes =
    if ltb (length bytes) 8
    then none
    else some (record { status = le_value (take 8 bytes); id = drop 8 bytes })

-- The test of `AddStorage`.
abbrev pub is_created : Option TableInfo → Bool
is_created none = false
is_created (some info) = info.status == created

-- The rows of `Scan`, each with the id of its record, whatever the status.
unfoldable pub id_rows : List Row → Outcome (List Row)
unfolding parse_record
id_rows [] = done []
id_rows (row ∷ rows) = elim (parse_record row.value) [
  | none ↦ no_result
  | some info ↦ elim (id_rows rows) [
    | done rest ↦ done (record { key = row.key; value = info.id } ∷ rest)
    | database_exception ↦ database_exception
    | no_result ↦ no_result
  ]
]

module _ {S : Type 0} (engine : StorageEngine S) (tx : ℕ) where
  unfoldable pub get_table_info : Str → Storage → S → Outcome (Option TableInfo)
  unfolding parse_record
  get_table_info name st s = elim (Table.lookup engine tx name st s) [
    | none ↦ no_result
    | some none ↦ done none
    | some (some raw) ↦ elim (parse_record raw) [ none ↦ no_result | some info ↦ done (some info) ]
  ]

  -- `sys_tables_->Upsert`
  unfoldable pub put_info : Str → TableInfo → Storage → S → Outcome (Storage × S)
  unfolding to_string
  put_info name info st s = elim (Table.upsert engine tx name (to_string info) st s) [
    | none ↦ no_result
    | some after ↦ done after
  ]

  -- With the id that was generated.
  unfoldable pub add_storage : Str → Str → Storage → S → Outcome (Str × (Storage × S))
  unfolding get_table_info put_info
  add_storage uuid name st s = elim (member name internal_tables) [
    | true ↦ database_exception
    | false ↦ elim (get_table_info name st s) [
      | database_exception ↦ database_exception
      | no_result ↦ no_result
      | done info ↦ elim (is_created info) [
        | true ↦ database_exception
        | false ↦ elim (put_info name (record { status = created; id = uuid }) st s) [
          | database_exception ↦ database_exception
          | no_result ↦ no_result
          | done after ↦ done (uuid, after)
        ]
      ]
    ]
  ]

  unfoldable pub delete_storage : Str → Storage → S → Outcome (Storage × S)
  unfolding get_table_info put_info
  delete_storage name st s = elim (member name internal_tables) [
    | true ↦ database_exception
    | false ↦ elim (get_table_info name st s) [
      | database_exception ↦ database_exception
      | no_result ↦ no_result
      | done none ↦ done (st, s)
      | done (some info) ↦ elim (info.status == dropped) [
        | true ↦ done (st, s)
        | false ↦ put_info name (record info { status = dropped }) st s
      ]
    ]
  ]

  unfoldable pub get_storage_id : Str → Storage → S → Outcome (Option Str)
  unfolding get_table_info
  get_storage_id name st s = elim (get_table_info name st s) [
    | database_exception ↦ database_exception
    | no_result ↦ no_result
    | done none ↦ done none
    | done (some info) ↦ done (if info.status == dropped then none else some info.id)
  ]

  unfoldable pub scan : Option Str → Option Str → Storage → S → Outcome (List Row)
  unfolding id_rows
  scan lower upper st s = elim (Table.scan engine tx lower upper st s) [
    | none ↦ no_result
    | some rows ↦ id_rows rows
  ]
