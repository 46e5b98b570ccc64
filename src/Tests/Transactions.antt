-- ===== src/Tests/Transactions.antt =====
-- Transactions: one that takes the row "a" and ends.
use structuredb.Base.{ℕ, ◌≡◌, refl, true, false, none, some, [], ◌∷◌, if◌then◌else◌}
use structuredb.Base.Str.{Str, str_eq}
use structuredb.Base.Assoc.{nat_key, str_key, lookup, erase, assign, member}
use structuredb.Transaction.{
  Storage, started, init, begin, commit, rollback, acquire_row_lock, rows_of, set_insert,
  start_log_into, recover_from_log,
}
use structuredb.Transaction.Locks.{holds, LocksAgree}
use structuredb.Transaction.Reach.{Reach, begins, locks, starts_log, recovers, here, next}
use structuredb.Transaction.Final.{
  finish_frees_rows, freed_row_taken, ReachSparing, stay, go, held_until_finish,
}

abbrev a : Str
a = 97 ∷ []

-- After `Begin`.
abbrev pub one_started : Storage
one_started = (begin init).0

-- After `Begin` and taking the row.
abbrev pub one_holds : Storage
one_holds = record {
  next_tx_id = 11;
  tx_status = (10, started) ∷ [];
  has_wal_writer = false;
  row_locks = (a, 10) ∷ [];
  tx_locks = (10, a ∷ []) ∷ [];
}

pub takes_row : acquire_row_lock 10 a one_started ≡ some one_holds
unfolding begin acquire_row_lock rows_of set_insert lookup assign erase member str_eq
takes_row = refl

holds_Reach : Reach init one_holds
holds_Reach = next (next here (begins)) (locks 10 a takes_row)

is_held : holds 10 a one_holds.row_locks ≡ true
unfolding holds lookup str_eq
is_held = refl

held_by : lookup a one_holds.row_locks ≡ some 10
unfolding lookup str_eq
held_by = refl

finish_frees_rows_example :
    (lookup a (commit 10 one_holds).0.row_locks
      ≡ (if holds 10 a one_holds.row_locks then none else lookup a one_holds.row_locks))
    × (lookup a (rollback 10 one_holds).row_locks
        ≡ (if holds 10 a one_holds.row_locks then none else lookup a one_holds.row_locks))
finish_frees_rows_example = finish_frees_rows 10 a holds_Reach

freed_row_taken_example :
    (s' : Storage) × (acquire_row_lock 12 a (commit 10 one_holds).0 ≡ some s')
    × ((j : Str)
        → lookup j s'.row_locks ≡ (
            if str_eq a j
            then some 12
            else if holds 10 j one_holds.row_locks
            then none
            else lookup j one_holds.row_locks))
    × LocksAgree s'
freed_row_taken_example = freed_row_taken 10 12 a holds_Reach is_held

-- Calls that spare the holder: another transaction begins, and recovery and the log are called again.
others : ReachSparing 10 one_holds (start_log_into (recover_from_log 30 (begin one_holds).0))
others = go (go (go stay begins tt) (recovers 30) tt) starts_log tt

held_until_finish_example :
    (lookup a (start_log_into (recover_from_log 30 (begin one_holds).0)).row_locks ≡ some 10)
    × ((tx : ℕ)
        → acquire_row_lock tx a (start_log_into (recover_from_log 30 (begin one_holds).0)) ≡ none)
held_until_finish_example = held_until_finish 10 a holds_Reach held_by others
