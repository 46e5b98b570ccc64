-- ===== src/Table/Engine/Recovery.antt =====
-- Replaying the log after a restart.
use structuredb.Base.{
  ℕ, ◌+◌, ◌≡◌, refl, sym, ap, ◌∙◌, subst, true, none, some, List, [], ◌∷◌, ◌++◌, length, arith,
  if◌then◌else◌, ◌==◌, ==_iff, ltb, Bool-cases, inl, inr,
}
use structuredb.Base.Str.{Str}
use structuredb.Base.Assoc.{str_key, lookup, lookup-assigned}
use structuredb.Wal.Event.{Event, lsm_storage_upsert}
use structuredb.Lsm.Tree.{Lsm, Options, put, do_put, freeze}
use structuredb.Lsm.Tree.History.{put_at_lem}
use structuredb.Table.{Row}
use structuredb.Table.Engine.{
  LsmEngine, Database, upsert, apply, replay, recover_from_log, ensure_storage_for_recover,
  new_engine,
}

-- The engine after a list of upserts, and the events of the log.
unfoldable pub upsert_all : List Row → LsmEngine → LsmEngine × List Event
upsert_all [] e = (e, [])
upsert_all (row ∷ rows) e =
    let (e', events) = upsert row e in let (e'', more) = upsert_all rows e' in (e'', events ++ more)

next-freeze : (t : Lsm) → (freeze t).next_seq_no ≡ t.next_seq_no
unfolding freeze
next-freeze t = elim (Bool-cases (ltb t.options.max_records_in_mem_table (length t.mem_table))) [
  | inl e ↦ rw e
  | inr e ↦ rw e
]

next-put : (key value : Str) (t : Lsm) → (put key value t).1.next_seq_no ≡ t.next_seq_no + 1
unfolding put do_put
next-put key value t = next-freeze _

-- The events of upserts, numbered from the first sequence number on.
numbered : Str → ℕ → List Row → List Event
numbered id n [] = []
numbered id n (row ∷ rows) = lsm_storage_upsert id n row.key row.value ∷ numbered id (n + 1) rows

seq-put : (key value : Str) (t : Lsm) → (put key value t).0 ≡ t.next_seq_no
unfolding put
seq-put key value t = refl

upsert-logged :
    (row : Row) (e : LsmEngine)
    → e.has_wal_writer ≡ true
    → (upsert row e).1 ≡ lsm_storage_upsert e.id e.lsm.next_seq_no row.key row.value ∷ []
unfolding upsert put
upsert-logged row e h = rw h

next-upsert : (row : Row) (e : LsmEngine) → (upsert row e).0.lsm.next_seq_no ≡ e.lsm.next_seq_no + 1
unfolding upsert
next-upsert row e = next-put row.key row.value e.lsm

has_wal_writer-upsert :
    (row : Row) (e : LsmEngine) → (upsert row e).0.has_wal_writer ≡ e.has_wal_writer
unfolding upsert
has_wal_writer-upsert row e = refl

id-upsert : (row : Row) (e : LsmEngine) → (upsert row e).0.id ≡ e.id
unfolding upsert
id-upsert row e = refl

events-upsert_all :
    (rows : List Row) (e : LsmEngine)
    → e.has_wal_writer ≡ true
    → (upsert_all rows e).1 ≡ numbered e.id e.lsm.next_seq_no rows
unfolding upsert_all numbered
events-upsert_all [] e h = refl
events-upsert_all (row ∷ rows) e h =
    ap (λ l. l ++ (upsert_all rows (upsert row e).0).1) (upsert-logged row e h)
    ∙ ap (λ l. lsm_storage_upsert e.id e.lsm.next_seq_no row.key row.value ∷ l)
        (events-upsert_all rows (upsert row e).0 (has_wal_writer-upsert row e ∙ h)
          ∙ ap (λ z. numbered z (upsert row e).0.lsm.next_seq_no rows) (id-upsert row e)
          ∙ ap (λ n. numbered e.id n rows) (next-upsert row e))

engine-apply :
    (id key value : Str) (n : ℕ) (db : Database)
    → lookup id (apply (lsm_storage_upsert id n key value) db).engines
      ≡ some (recover_from_log n key value (ensure_storage_for_recover id db).0)
unfolding apply
engine-apply id key value n db = lookup-assigned id _ (ensure_storage_for_recover id db).1.engines

ensure-found :
    (id : Str) (e : LsmEngine) (db : Database)
    → lookup id db.engines ≡ some e
    → (ensure_storage_for_recover id db).0 ≡ e
unfolding ensure_storage_for_recover
ensure-found id e db h = rw (h, ensure_storage_for_recover) refl

ensure-missing :
    (id : Str) (db : Database)
    → lookup id db.engines ≡ none
    → (ensure_storage_for_recover id db).0 ≡ new_engine db.lsm_options id db.has_wal_writer
unfolding ensure_storage_for_recover
ensure-missing id db h = rw (h, ensure_storage_for_recover) refl

recover-upsert :
    (n : ℕ) (row : Row) (e : LsmEngine)
    → recover_from_log n row.key row.value e
      ≡ (if n == e.lsm.next_seq_no then (upsert row e).0 else e)
unfolding recover_from_log upsert
recover-upsert n row e =
    ap (λ p. record e { lsm = p.1 }) (put_at_lem n row.key row.value e.lsm)
    ∙ (elim (Bool-cases (n == e.lsm.next_seq_no)) [ inl b ↦ rw b | inr b ↦ rw b ])

-- The engine of an id after an upsert is replayed.
apply-upsert :
    (id : Str) (n : ℕ) (row : Row) (e : LsmEngine) (db : Database)
    → lookup id db.engines ≡ some e
    → lookup id (apply (lsm_storage_upsert id n row.key row.value) db).engines
      ≡ some (if n == e.lsm.next_seq_no then (upsert row e).0 else e)
apply-upsert id n row e db h =
    engine-apply id row.key row.value n db
    ∙ ap (λ x. some (recover_from_log n row.key row.value x)) (ensure-found id e db h)
    ∙ ap some (recover-upsert n row e)

apply-missing :
    (id : Str) (row : Row) (db : Database)
    → lookup id db.engines ≡ none
    → lookup id (apply (lsm_storage_upsert id 1 row.key row.value) db).engines
      ≡ some (upsert row (new_engine db.lsm_options id db.has_wal_writer)).0
unfolding new_engine
apply-missing id row db h =
    engine-apply id row.key row.value 1 db
    ∙ ap (λ x. some (recover_from_log 1 row.key row.value x)) (ensure-missing id db h)
    ∙ ap some (recover-upsert 1 row (new_engine db.lsm_options id db.has_wal_writer))

-- Events that the engine has are skipped, and the rest is applied in order.
replay-numbered :
    (id : Str) (old new : List Row) (n : ℕ) (e : LsmEngine) (db : Database)
    → lookup id db.engines ≡ some e
    → e.lsm.next_seq_no ≡ n + length old
    → lookup id (replay (numbered id n (old ++ new)) db).engines ≡ some (upsert_all new e).0
unfolding replay numbered upsert_all
replay-numbered id [] [] n e db h k = h
replay-numbered id [] (row ∷ rows) n e db h k =
    replay-numbered id [] rows (n + 1) (upsert row e).0
      (apply (lsm_storage_upsert id n row.key row.value) db)
      (apply-upsert id n row e db h ∙ ground (arith, ==_iff n e.lsm.next_seq_no))
      (unfold upsert in next-put row.key row.value e.lsm ∙ omega arith)
replay-numbered id (row ∷ old) new n e db h k =
    replay-numbered id old new (n + 1) e (apply (lsm_storage_upsert id n row.key row.value) db)
      (apply-upsert id n row e db h ∙ ground (arith, ==_iff n e.lsm.next_seq_no)) (omega arith)

-- Let an engine that logs its writes make the upserts `old` and then `new`, and let a restart find an
-- engine of the same id whose next sequence number is the one after `old`. Replaying the whole log then
-- gives what making the upserts `new` gives: those of `old` are skipped, and none of `new` is.
pub replay-upsert_all :
    (old new : List Row) (before found : LsmEngine) (db : Database)
    → before.has_wal_writer ≡ true
    → lookup before.id db.engines ≡ some found
    → found.lsm.next_seq_no ≡ before.lsm.next_seq_no + length old
    → lookup before.id (replay (upsert_all (old ++ new) before).1 db).engines
      ≡ some (upsert_all new found).0
replay-upsert_all old new before found db h k n =
    subst (λ events. lookup before.id (replay events db).engines ≡ some (upsert_all new found).0)
      (sym (events-upsert_all (old ++ new) before h))
      (replay-numbered before.id old new before.lsm.next_seq_no found db k n)

-- Replaying the log of a table that was made after the database was opened, or on another server: where
-- no storage has the id, replaying the events of the upserts that an engine made since it was new
-- makes the engine that the same upserts make of a new one.
pub replay-new_engine :
    (row : Row) (rows : List Row) (options : Options) (id : Str) (db : Database)
    → lookup id db.engines ≡ none
    → lookup id (replay (upsert_all (row ∷ rows) (new_engine options id true)).1 db).engines
      ≡ some (upsert_all (row ∷ rows) (new_engine db.lsm_options id db.has_wal_writer)).0
unfolding replay numbered upsert_all new_engine
replay-new_engine row rows options id db h =
    subst
      (λ events.
        lookup id (replay events db).engines
        ≡ some (upsert_all (row ∷ rows) (new_engine db.lsm_options id db.has_wal_writer)).0)
      (sym (events-upsert_all (row ∷ rows) (new_engine options id true) refl))
      (replay-numbered id [] rows 2 (upsert row (new_engine db.lsm_options id db.has_wal_writer)).0
        (apply (lsm_storage_upsert id 1 row.key row.value) db) (apply-missing id row db h)
        (next-upsert row (new_engine db.lsm_options id db.has_wal_writer)))
