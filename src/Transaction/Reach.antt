-- ===== src/Transaction/Reach.antt =====
-- The transaction storage under all calls that change it, in any order: what `Database::Init` and recovery
-- call before the first session, and what sessions call. A session works on an id that `Begin` handed out
-- or that `IsStarted` accepted, so the id has a status; as in the code, it is committed and rolled back
-- whatever that status is by then.
use structuredb.Base.{
  ℕ, ◌∙◌, ◌+◌, max, Bool-cases, inl, inr, ◌<◌, ◌≡◌, ◌≢◌, refl, none, some, ◌==◌, arith,
  if◌then◌else◌,
}
use structuredb.Base.Str.{Str}
use structuredb.Base.Assoc.{nat_key, str_key, member, lookup, lookup-assign}
use structuredb.Transaction.{
  Storage, started, commited, rollbacked, begin, release_all_locks, rollback, commit,
  acquire_row_lock, init, get_status, rows_of, start_log_into, recover_from_log,
}
use structuredb.Transaction.Locks.{
  LocksAgree, holds, acquire_row_lock-LocksAgree, release_all_locks-LocksAgree,
}

pub data Step (s : Storage) : Storage → Type 0 where
  begins : Step s (begin s).0
  commits : (tx : ℕ) → get_status tx s ≢ none → Step s (commit tx s).0
  rolls_back : (tx : ℕ) → get_status tx s ≢ none → Step s (rollback tx s)
  locks : {s' : Storage} (tx : ℕ) (row : Str) → acquire_row_lock tx row s ≡ some s' → Step s s'
  starts_log : Step s (start_log_into s)
  recovers : (tx : ℕ) → Step s (recover_from_log tx s)

pub data Reach (s : Storage) : Storage → Type 0 where
  here : Reach s s
  next : {t u : Storage} → Reach s t → Step t u → Reach s u

-- Ids are handed out once: every transaction with a status is below the next id.
abbrev pub IdsBelow : Storage → Type 0
IdsBelow s = (tx : ℕ) → get_status tx s ≢ none → tx < s.next_tx_id

pub record Inv (s : Storage) : Type 0 where
  pub agree : LocksAgree s
  pub ids : IdsBelow s

-- Releasing locks touches neither the status of transactions nor the next id.
pub status-release_all_locks :
    (tx : ℕ) (s : Storage)
    → ((release_all_locks tx s).tx_status ≡ s.tx_status)
      × ((release_all_locks tx s).next_tx_id ≡ s.next_tx_id)
unfolding release_all_locks
status-release_all_locks tx s = ground arith

-- What each step does to the status of a transaction.
pub status-begin :
    (t : ℕ) (s : Storage)
    → get_status t (begin s).0 ≡ (if s.next_tx_id == t then some started else get_status t s)
unfolding get_status begin
status-begin t s = lookup-assign s.next_tx_id t started s.tx_status

pub status-commit :
    (tx t : ℕ) (s : Storage)
    → get_status t (commit tx s).0 ≡ (if tx == t then some commited else get_status t s)
unfolding get_status commit
status-commit tx t s =
    rw ((status-release_all_locks tx _).0) (lookup-assign tx t commited s.tx_status)

pub status-rollback :
    (tx t : ℕ) (s : Storage)
    → get_status t (rollback tx s) ≡ (if tx == t then some rollbacked else get_status t s)
unfolding get_status rollback
status-rollback tx t s =
    rw ((status-release_all_locks tx _).0) (lookup-assign tx t rollbacked s.tx_status)

pub status-acquire :
    (tx : ℕ) (row : Str) (s s' : Storage)
    → acquire_row_lock tx row s ≡ some s'
    → (s'.tx_status ≡ s.tx_status) × (s'.next_tx_id ≡ s.next_tx_id)
unfolding acquire_row_lock
status-acquire tx row s s' h = ground arith

pub status-recover :
    (tx t : ℕ) (s : Storage)
    → get_status t (recover_from_log tx s) ≡ (if tx == t then some commited else get_status t s)
unfolding get_status recover_from_log
status-recover tx t s = lookup-assign tx t commited s.tx_status

max-left : (a b t : ℕ) → t < a → t < max a b
max-left a b t h = ground arith

max-right : (a b t : ℕ) → t < b → t < max a b
max-right a b t h = ground arith

next_tx_id-commit : (tx : ℕ) (s : Storage) → (commit tx s).0.next_tx_id ≡ s.next_tx_id
unfolding commit
next_tx_id-commit tx s = (status-release_all_locks tx _).1

next_tx_id-rollback : (tx : ℕ) (s : Storage) → (rollback tx s).next_tx_id ≡ s.next_tx_id
unfolding rollback
next_tx_id-rollback tx s = (status-release_all_locks tx _).1

Step-IdsBelow : {s s' : Storage} → Step s s' → IdsBelow s → IdsBelow s'
unfolding recover_from_log
Step-IdsBelow {s} begins v t h = unfold begin in ground (arith, status-begin t s, v t)
Step-IdsBelow {s} (commits tx e) v t h =
    ground (arith, status-commit tx t s, v t, v tx, next_tx_id-commit tx s)
Step-IdsBelow {s} (rolls_back tx e) v t h =
    ground (arith, status-rollback tx t s, v t, v tx, next_tx_id-rollback tx s)
Step-IdsBelow {s} {s'} (locks tx row e) v t h =
    unfold get_status in ground (arith, status-acquire tx row s s' e, v t)
Step-IdsBelow {s} starts_log v t h = unfold start_log_into in unfold get_status in v t h
Step-IdsBelow {s} (recovers tx) v t h = elim (Bool-cases (tx == t)) [
  | inl b ↦ max-right s.next_tx_id (tx + 1) t (ground arith)
  | inr b ↦ max-left s.next_tx_id (tx + 1) t (v t (λ n. h (status-recover tx t s ∙ rw b n)))
]

begin-LocksAgree : (s : Storage) → LocksAgree s → LocksAgree (begin s).0
unfolding begin rows_of holds
begin-LocksAgree s v t r = v t r

pub commit-LocksAgree : (tx : ℕ) (s : Storage) → LocksAgree s → LocksAgree (commit tx s).0
unfolding commit rows_of
commit-LocksAgree tx s v = release_all_locks-LocksAgree tx _ v

rollback-LocksAgree : (tx : ℕ) (s : Storage) → LocksAgree s → LocksAgree (rollback tx s)
unfolding rollback rows_of
rollback-LocksAgree tx s v = release_all_locks-LocksAgree tx _ v

start_log_into-LocksAgree : (s : Storage) → LocksAgree s → LocksAgree (start_log_into s)
unfolding start_log_into rows_of holds
start_log_into-LocksAgree s v t r = v t r

recover_from_log-LocksAgree :
    (tx : ℕ) (s : Storage) → LocksAgree s → LocksAgree (recover_from_log tx s)
unfolding recover_from_log rows_of holds
recover_from_log-LocksAgree tx s v t r = v t r

-- Every call keeps the two lock maps in agreement and the transaction ids below the next one.
pub Step-Inv : {s s' : Storage} → Step s s' → Inv s → Inv s'
Step-Inv {s} begins v = record {
  agree = begin-LocksAgree s v.agree;
  ids = Step-IdsBelow begins v.ids;
}
Step-Inv {s} (commits tx e) v = record {
  agree = commit-LocksAgree tx s v.agree;
  ids = Step-IdsBelow (commits tx e) v.ids;
}
Step-Inv {s} (rolls_back tx e) v = record {
  agree = rollback-LocksAgree tx s v.agree;
  ids = Step-IdsBelow (rolls_back tx e) v.ids;
}
Step-Inv {s} {s'} (locks tx row e) v = record {
  agree = acquire_row_lock-LocksAgree tx row s s' v.agree e;
  ids = Step-IdsBelow (locks tx row e) v.ids;
}
Step-Inv {s} starts_log v = record {
  agree = start_log_into-LocksAgree s v.agree;
  ids = Step-IdsBelow starts_log v.ids;
}
Step-Inv {s} (recovers tx) v = record {
  agree = recover_from_log-LocksAgree tx s v.agree;
  ids = Step-IdsBelow (recovers tx) v.ids;
}

init-Inv : Inv init
unfolding rows_of holds get_status lookup member
init-Inv = record { agree = λ t r. refl; ids = λ t h. absurd (h refl) }

Reach-Inv : {s s' : Storage} → Inv s → Reach s s' → Inv s'
Reach-Inv v here = v
Reach-Inv v (next r st) = Step-Inv st (Reach-Inv v r)

pub Reach-init-Inv : {s : Storage} → Reach init s → Inv s
Reach-init-Inv r = Reach-Inv init-Inv r
