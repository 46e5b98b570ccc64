-- ===== src/Database/Catalog/Naming.antt =====
-- The life of a table's name in the catalog (database/catalog.cpp).
use structuredb.Base.{
  ℕ, suc, ◌^◌, ◌<◌, ◌≡◌, refl, ap, ◌∙◌, true, false, none, some, List, length, arith, ltb, ◌==◌,
  if◌then◌else◌,
}
use structuredb.Base.Str.{Str}
use structuredb.Base.Assoc.{str_key, member}
use structuredb.Sdb.Bytes.{le_bytes, le_value, le_value-le_bytes}
use structuredb.Transaction.{Storage}
use structuredb.Table.{Row, StorageEngine, TransactionalValue, live}
use structuredb.Table as Table
use structuredb.Table.Visible.{IsStorable}
use structuredb.Table.Isolation.{Stored, row_with, lookup-own_write}
use structuredb.Database.Catalog.{
  done, database_exception, TableInfo, created, dropped, internal_tables, to_string, parse_record,
  get_table_info, put_info, add_storage, delete_storage, get_storage_id,
}

parse_record-to_string :
    (info : TableInfo) → info.status < 2 ^ 64 → parse_record (to_string info) ≡ some info
unfolding parse_record to_string le_bytes
parse_record-to_string info h =
    ap (λ b. if b then none else some (with_status (le_value (le_bytes 8 info.status))))
      (long_enough (length info.id))
    ∙ ap (λ n. some (with_status n)) (le_value-le_bytes 8 info.status h)
  where
    with_status : ℕ → TableInfo
    with_status n = record { status = n; id = info.id }

    long_enough : (n : ℕ) → ltb (suc (suc (suc (suc (suc (suc (suc (suc n)))))))) 8 ≡ false
    long_enough n = ground arith

module _ {S : Type 0} (engine : StorageEngine S) (tx : ℕ) where
  info-lookup :
      (name : Str) (info : TableInfo) (st : Storage) (s : S)
      → info.status < 2 ^ 64
      → Table.lookup engine tx name st s ≡ some (some (to_string info))
      → get_table_info engine tx name st s ≡ done (some info)
  unfolding get_table_info
  info-lookup name info st s h e = rw (e, get_table_info) (rw (parse_record-to_string info h) refl)

  -- What the branches of `get_storage_id` and `add_storage` do with a record that is found.
  id-info :
      (name : Str) (info : TableInfo) (st : Storage) (s : S)
      → get_table_info engine tx name st s ≡ done (some info)
      → get_storage_id engine tx name st s
        ≡ done (if info.status == dropped then none else some info.id)
  unfolding get_storage_id
  id-info name info st s h = rw (h, get_storage_id) refl

  add-existing :
      (uuid name : Str) (info : TableInfo) (st : Storage) (s : S)
      → member name internal_tables ≡ false
      → get_table_info engine tx name st s ≡ done (some info)
      → (info.status == created) ≡ true
      → add_storage engine tx uuid name st s ≡ database_exception
  unfolding add_storage
  add-existing uuid name info st s m h c = rw (m, h, c, add_storage) refl

  deleted :
      (name : Str) (info : TableInfo) (st st' : Storage) (s s' : S)
      → get_table_info engine tx name st s ≡ done (some info)
      → (info.status == dropped) ≡ false
      → delete_storage engine tx name st s ≡ done (st', s')
      → Table.upsert engine tx name (to_string (record info { status = dropped })) st s
        ≡ some (st', s')
  unfolding delete_storage put_info
  deleted name info st st' s s' h c e = ground arith

  deleted-again :
      (name : Str) (info : TableInfo) (st : Storage) (s : S)
      → member name internal_tables ≡ false
      → get_table_info engine tx name st s ≡ done (some info)
      → (info.status == dropped) ≡ true
      → delete_storage engine tx name st s ≡ done (st, s)
  unfolding delete_storage
  deleted-again name info st s m h c = rw (m, h, c, delete_storage) refl

  -- What `add_storage` needs to come to a result.
  added :
      (uuid name id : Str) (st st' : Storage) (s s' : S)
      → add_storage engine tx uuid name st s ≡ done (id, (st', s'))
      → (id ≡ uuid)
        × (member name internal_tables ≡ false)
        × (Table.upsert engine tx name (to_string (record { status = created; id = uuid })) st s
            ≡ some (st', s'))
  unfolding add_storage put_info
  added uuid name id st st' s s' h = ground arith

  -- Let `AddStorage` of a name succeed, over a table that holds versions that it wrote and accepts the
  -- record. Then it returned the id that was generated, the transaction finds that id under the name,
  -- and adding the name again is refused.
  pub get_storage_id-add_storage :
      (uuid name id : Str) (vs : List TransactionalValue) (st st' : Storage) (s s' : S)
      → Stored engine name vs s
      → IsStorable (live tx (to_string (record { status = created; id = uuid })))
      → engine.accepts
          (row_with name (live tx (to_string (record { status = created; id = uuid }))))
          s
      → add_storage engine tx uuid name st s ≡ done (id, (st', s'))
      → (id ≡ uuid)
        × (get_storage_id engine tx name st' s' ≡ done (some uuid))
        × ((other : Str) → add_storage engine tx other name st' s' ≡ database_exception)
  get_storage_id-add_storage uuid name id vs st st' s s' h i a e =
      let info : TableInfo = record { status = created; id = uuid } in
      let (same, free, put) = added uuid name id st st' s s' e in
      let found =
        info-lookup name info st' s' (omega arith)
          (lookup-own_write engine tx name (to_string info) vs st st' s s' h i a put) in
      (
        same,
        id-info name info st' s' found,
        λ other. add-existing other name info st' s' free found refl,
      )

  -- Let `DeleteStorage` of a name whose record says that it is created succeed, over a table that holds
  -- versions that it wrote and accepts the record. Then the transaction finds no id under the name, and
  -- deleting it again changes nothing.
  pub get_storage_id-delete_storage :
      (name uuid : Str) (vs : List TransactionalValue) (st st' : Storage) (s s' : S)
      → Stored engine name vs s
      → IsStorable (live tx (to_string (record { status = dropped; id = uuid })))
      → engine.accepts
          (row_with name (live tx (to_string (record { status = dropped; id = uuid }))))
          s
      → get_table_info engine tx name st s ≡ done (some (record { status = created; id = uuid }))
      → member name internal_tables ≡ false
      → delete_storage engine tx name st s ≡ done (st', s')
      → (get_storage_id engine tx name st' s' ≡ done none)
        × (delete_storage engine tx name st' s' ≡ done (st', s'))
  get_storage_id-delete_storage name uuid vs st st' s s' h i a found m e =
      let info : TableInfo = record { status = dropped; id = uuid } in
      let put = deleted name (record { status = created; id = uuid }) st st' s s' found refl e in
      let gone =
        info-lookup name info st' s' (omega arith)
          (lookup-own_write engine tx name (to_string info) vs st st' s s' h i a put) in
      (id-info name info st' s' gone, deleted-again name info st' s' m gone refl)
