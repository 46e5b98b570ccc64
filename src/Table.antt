-- ===== src/Table.antt =====
-- table/transactional_table.cpp: transactions over a storage engine. A suspended coroutine and a failing
-- engine give `none`. An engine's iterator is the list of the rows that it returns.
pub mod Visible
pub mod Isolation
pub mod Engine
use structuredb.Base.{
  ℕ, ◌≡◌, Bool, true, false, ◌||◌, Option, none, some, List, [], ◌∷◌, if◌then◌else◌, ◌==◌,
}
use structuredb.Base.Str.{Str, str_eq}
use structuredb.Sdb.{
  Result, ok, err, Reader, ◌>>=◌, return, write_int, write_bool, write_string, read_int, read_bool,
  read_string,
}
use structuredb.Transaction.{
  Storage, Status, commited, started, is_commited, get_status, acquire_row_lock,
}

-- table/row.hpp
pub record Row : Type 0 where
  pub key : Str
  pub value : Str

pub record TransactionalValue : Type 0 where
  pub tx : ℕ
  pub is_deleted : Bool
  pub is_frozen : Bool
  pub value : Str

unfoldable pub read_value : Reader TransactionalValue
read_value = do
  tx ← read_int
  is_deleted ← read_bool
  is_frozen ← read_bool
  value ← read_string
  return (record { tx = tx; is_deleted = is_deleted; is_frozen = is_frozen; value = value })

unfoldable pub write_value : TransactionalValue → Str → Str
write_value v out =
    write_string v.value (write_bool v.is_frozen (write_bool v.is_deleted (write_int v.tx out)))

unfoldable pub to_string : TransactionalValue → Str
unfolding write_value
to_string v = write_value v []

unfoldable pub parse_value : Str → Option TransactionalValue
unfolding read_value
parse_value data_ = elim (read_value data_) [ err e ↦ none | ok (v, rest) ↦ some v ]

-- table/storage/storage.hpp: what a table uses of its engine, with the rows of a key, the latest
-- upsert first, as its contract.
pub record StorageEngine (S : Type 0) : Type 1 where
  pub upsert : Row → S → Option S
  pub scan_key : Str → S → Option (List Row)
  pub scan : Option Str → Option Str → S → Option (List Row)
  pub rows_of : Str → S → List Row
  pub valid : S → Type 0
  pub accepts : Row → S → Type 0
  pub scan_key_lem : (key : Str) (s : S) → valid s → scan_key key s ≡ some (rows_of key s)
  pub upsert_lem :
      (row : Row) (s : S)
      → valid s
      → accepts row s
      → (s' : S) × (upsert row s ≡ some s')
        × valid s'
        × ((key : Str)
            → rows_of key s' ≡ (if str_eq row.key key then row ∷ rows_of key s else rows_of key s))

-- The test of `Lookup`.
unfoldable pub is_visible : ℕ → Storage → TransactionalValue → Bool
is_visible tx st v = v.is_frozen || (v.tx == tx || is_commited v.tx st)

-- What `Lookup` returns of a visible candidate.
abbrev pub shown : TransactionalValue → Option Str
shown v = if v.is_deleted then none else some v.value

-- The loop of `Lookup`.
unfoldable pub lookup_rows : ℕ → Storage → List Row → Option (Option Str)
unfolding parse_value is_visible
lookup_rows tx st [] = some none
lookup_rows tx st (row ∷ rows) = elim (parse_value row.value) [
  | none ↦ none
  | some v ↦ elim (is_visible tx st v) [ true ↦ some (shown v) | false ↦ lookup_rows tx st rows ]
]

-- The test of `Scan`, which does not look at `is_frozen`.
unfoldable pub is_scanned : ℕ → Storage → TransactionalValue → Bool
is_scanned tx st v = v.tx == tx || is_commited v.tx st

-- `!result.empty() && result.back().key == record.key`
abbrev pub last_is : Option Str → Str → Bool
last_is none key = false
last_is (some k) key = str_eq k key

-- The loop of `Scan`; the key of `result.back()` is carried along.
unfoldable pub scan_rows : ℕ → Storage → Option Str → List Row → Option (List Row)
unfolding parse_value is_scanned
scan_rows tx st last [] = some []
scan_rows tx st last (row ∷ rows) = elim (parse_value row.value) [
  | none ↦ none
  | some v ↦
      elim (if is_scanned tx st v
        then (if v.is_deleted then true else last_is last row.key)
        else true) [
          | true ↦ scan_rows tx st last rows
          | false ↦ elim (scan_rows tx st (some row.key) rows) [
            | none ↦ none
            | some result ↦ some (record { key = row.key; value = v.value } ∷ result)
          ]
        ]
]

-- The row that `CompactRows` would write for a value, if its transaction is committed or running.
unfoldable pub frozen_row : Storage → Row → TransactionalValue → Option Row
unfolding to_string
frozen_row st row v = if v.is_deleted then none else elim (get_status v.tx st) [
  | some commited ↦
      if v.is_frozen
      then some row
      else some (record { key = row.key; value = to_string (record v { is_frozen = true }) })
  | some started ↦ some row
  | _ ↦ none
]

-- The loop of `CompactRows`; the key of `last_added` is carried along.
unfoldable pub compact_rows : Storage → Option Str → List Row → Option (List Row)
unfolding parse_value frozen_row
compact_rows st last [] = some []
compact_rows st last (row ∷ rows) = elim (parse_value row.value) [
  | none ↦ none
  | some v ↦ elim (frozen_row st row v) [
    | none ↦ compact_rows st last rows
    | some kept ↦ elim (last_is last row.key) [
      | true ↦ compact_rows st last rows
      | false ↦ elim (compact_rows st (some row.key) rows) [
        | none ↦ none
        | some result ↦ some (kept ∷ result)
      ]
    ]
  ]
]

abbrev pub live : ℕ → Str → TransactionalValue
live tx value = record { tx = tx; is_deleted = false; is_frozen = false; value = value }

abbrev pub tombstone : ℕ → TransactionalValue
tombstone tx = record { tx = tx; is_deleted = true; is_frozen = false; value = [] }

module _ {S : Type 0} (engine : StorageEngine S) where
  -- The common end of `Upsert` and `Delete`: the lock, then the row.
  unfoldable pub write_row : ℕ → Str → TransactionalValue → Storage → S → Option (Storage × S)
  unfolding to_string
  write_row tx key v st s = elim (acquire_row_lock tx key st) [
    | none ↦ none
    | some st' ↦ elim (engine.upsert (record { key = key; value = to_string v }) s) [
      | none ↦ none
      | some s' ↦ some (st', s')
    ]
  ]

  unfoldable pub upsert : ℕ → Str → Str → Storage → S → Option (Storage × S)
  unfolding write_row
  upsert tx key value st s = write_row tx key (live tx value) st s

  unfoldable pub lookup : ℕ → Str → Storage → S → Option (Option Str)
  unfolding lookup_rows
  lookup tx key st s = elim (engine.scan_key key s) [
    | none ↦ none
    | some rows ↦ lookup_rows tx st rows
  ]

  unfoldable pub delete : ℕ → Str → Storage → S → Option (Bool × (Storage × S))
  unfolding lookup write_row
  delete tx key st s = elim (lookup tx key st s) [
    | none ↦ none
    | some none ↦ some (false, (st, s))
    | some (some value) ↦ elim (write_row tx key (tombstone tx) st s) [
      | none ↦ none
      | some after ↦ some (true, after)
    ]
  ]

  unfoldable pub scan : ℕ → Option Str → Option Str → Storage → S → Option (List Row)
  unfolding scan_rows
  scan tx lower upper st s = elim (engine.scan lower upper s) [
    | none ↦ none
    | some rows ↦ scan_rows tx st none rows
  ]
