-- ===== src/Io/SharedMutex.antt =====
-- io/shared_mutex.cpp, with the waiting of io/condition_variable.cpp, which is the same loop: coroutines on
-- one thread that take and give back a lock. A coroutine runs until it suspends in `TryLock`; the
-- handlers in `waiters_` are the coroutines that sleep, and cancelling a timer makes its coroutine ready,
-- to test its predicate again when it is resumed.
pub mod Exclusion
pub mod Holders
pub mod Places
use structuredb.Base.{
  ℕ, zero, suc, ◌+◌, ◌-◌, Bool, true, false, List, [], ◌∷◌, ◌++◌, ◌==◌, if◌then◌else◌,
}
use structuredb.Base.Assoc.{nat_key, lookup, assign}

-- `state_`: -1, or the number of shared locks.
pub data Lock : Type 0 where
  exclusive : Lock
  shared : ℕ → Lock

-- What a coroutine is at, with the mode it asked for or holds: `true` is the exclusive one.
pub data Place : Type 0 where
  outside : Place
  -- about to test its predicate
  ready : Bool → Place
  -- suspended on its timer
  sleeping : Bool → Place
  holding : Bool → Place

pub record SharedMutex : Type 0 where
  pub state_ : Lock
  pub waiters_ : List ℕ

-- The predicates of `LockShared` and `LockExclusive`.
abbrev pub may_lock : Bool → Lock → Bool
may_lock false exclusive = false
may_lock false (shared n) = true
may_lock true exclusive = false
may_lock true (shared n) = n == 0

-- The assignment behind `TryLock`.
abbrev pub locked : Bool → Lock → Lock
locked true l = exclusive
locked false exclusive = exclusive
locked false (shared n) = shared (n + 1)

-- `state_--` and `state_ = 0`
abbrev pub unlocked : Bool → Lock → Lock
unlocked true l = shared 0
unlocked false exclusive = exclusive
unlocked false (shared n) = shared (n - 1)

-- The coroutines and the mutex.
pub record System : Type 0 where
  pub mutex : SharedMutex
  pub place : ℕ → Place

abbrev pub move : ℕ → Place → (ℕ → Place) → ℕ → Place
move c p place k = if c == k then p else place k

-- A handler cancels the timer of its coroutine.
abbrev pub cancel : Place → Place
cancel (sleeping mode) = ready mode
cancel outside = outside
cancel (ready mode) = ready mode
cancel (holding mode) = holding mode

-- `NotifyWaiters`
unfoldable pub wake : List ℕ → (ℕ → Place) → ℕ → Place
wake [] place = place
wake (c ∷ cs) place = wake cs (move c (cancel (place c)) place)

-- One turn of the loop of `TryLock`, and what follows it.
unfoldable pub try_lock : ℕ → Bool → System → System
try_lock c mode s =
    if may_lock mode s.mutex.state_
    then record {
      mutex = record s.mutex { state_ = locked mode s.mutex.state_ };
      place = move c (holding mode) s.place;
    }
    else record {
      mutex = record s.mutex { waiters_ = s.mutex.waiters_ ++ c ∷ [] };
      place = move c (sleeping mode) s.place;
    }

-- `UnlockShared` and `UnlockExclusive`
unfoldable pub unlock : ℕ → Bool → System → System
unfolding wake
unlock c mode s = record {
  mutex = record { state_ = unlocked mode s.mutex.state_; waiters_ = [] };
  place = wake s.mutex.waiters_ (move c outside s.place);
}
