-- ===== src/Transaction.antt =====
-- transaction::Storage (src/server/transaction/storage.hpp, storage.cpp): transaction ids, their
-- status, and the exclusive row locks. A method that changes the object returns the new one.
-- `AcquireRowLock` is cut at its suspension point: `none` means that the coroutine waits.
pub mod Locks
pub mod Reach
pub mod Final
use structuredb.Base.{
  ℕ, ◌+◌, max, Bool, true, false, Option, none, some, List, [], ◌∷◌, if◌then◌else◌, ◌==◌,
}
use structuredb.Base.Str.{Str}
use structuredb.Base.Assoc.{nat_key, str_key, member, lookup, erase, assign}
use structuredb.Wal.Event.{Event, tx_storage_commit}

-- kStarted, kCommited and kRollbacked
pub data Status : Type 0 where
  started commited rollbacked : Status

pub record Storage : Type 0 where
  pub next_tx_id : ℕ
  pub tx_status : List (ℕ × Status)
  -- whether `wal_writer_` is set
  pub has_wal_writer : Bool
  pub row_locks : List (Str × ℕ)
  pub tx_locks : List (ℕ × List Str)

abbrev pub initial_tx_id : ℕ
initial_tx_id = 10

abbrev pub init : Storage
init = record {
  next_tx_id = initial_tx_id;
  tx_status = [];
  has_wal_writer = false;
  row_locks = [];
  tx_locks = [];
}

unfoldable pub begin : Storage → Storage × ℕ
begin s = (
  record s { next_tx_id = s.next_tx_id + 1; tx_status = assign s.next_tx_id started s.tx_status },
  s.next_tx_id,
)

-- The body of the loop of `ReleaseAllLocks`.
unfoldable pub release_row : ℕ → Str → List (Str × ℕ) → List (Str × ℕ)
release_row tx row locks = elim (lookup row locks) [
  | none ↦ locks
  | some holder ↦ if holder == tx then erase row locks else locks
]

unfoldable pub release_rows : ℕ → List Str → List (Str × ℕ) → List (Str × ℕ)
release_rows tx [] locks = locks
release_rows tx (row ∷ rows) locks = release_rows tx rows (release_row tx row locks)

unfoldable pub release_all_locks : ℕ → Storage → Storage
release_all_locks tx s = elim (lookup tx s.tx_locks) [
  | none ↦ s
  | some rows ↦ record s {
    row_locks = release_rows tx rows s.row_locks;
    tx_locks = erase tx s.tx_locks;
  }
]

unfoldable pub rollback : ℕ → Storage → Storage
rollback tx s = release_all_locks tx (record s { tx_status = assign tx rollbacked s.tx_status })

-- The new state, and the events handed to the log.
unfoldable pub commit : ℕ → Storage → Storage × List Event
commit tx s = (
  release_all_locks tx (record s { tx_status = assign tx commited s.tx_status }),
  if s.has_wal_writer then tx_storage_commit tx ∷ [] else [],
)

unfoldable pub get_status : ℕ → Storage → Option Status
get_status tx s = lookup tx s.tx_status

unfoldable pub is_commited : ℕ → Storage → Bool
unfolding get_status
is_commited tx s = elim (get_status tx s) [ some commited ↦ true | _ ↦ false ]

unfoldable pub is_started : ℕ → Storage → Bool
unfolding get_status
is_started tx s = elim (get_status tx s) [ some started ↦ true | _ ↦ false ]

unfoldable pub start_log_into : Storage → Storage
start_log_into s = record s { has_wal_writer = true }

unfoldable pub recover_from_log : ℕ → Storage → Storage
recover_from_log tx s = record s {
  tx_status = assign tx commited s.tx_status;
  next_tx_id = max s.next_tx_id (tx + 1);
}

-- `tx_locks_[tx]`: a missing entry is created empty.
unfoldable pub rows_of : ℕ → Storage → List Str
rows_of tx s = elim (lookup tx s.tx_locks) [ none ↦ [] | some rows ↦ rows ]

-- `std::unordered_set::insert`
unfoldable pub set_insert : Str → List Str → List Str
set_insert row rows = if member row rows then rows else row ∷ rows

-- One evaluation of the wait's predicate, and what follows when it holds.
unfoldable pub acquire_row_lock : ℕ → Str → Storage → Option Storage
unfolding rows_of set_insert
acquire_row_lock tx row s = elim (lookup row s.row_locks) [
  | some holder ↦ none
  | none ↦ some (record s {
    row_locks = assign row tx s.row_locks;
    tx_locks = assign tx (set_insert row (rows_of tx s)) s.tx_locks;
  })
]
