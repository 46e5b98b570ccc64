-- ===== src/Transaction/Final.antt =====
-- Fresh transaction ids, and how long a row lock lasts.
use structuredb.Base.{ℕ, refl, ap, ◌∙◌, false, ◌≡◌, true, none, some, ◌==◌, arith, if◌then◌else◌}
use structuredb.Base.Str.{Str, str_eq, str_eq_iff}
use structuredb.Base.Assoc.{nat_key, str_key, lookup, assign, lookup-assign}
use structuredb.Transaction.{
  Storage, commited, rollbacked, begin, rollback, commit, acquire_row_lock, init, rows_of,
  set_insert, start_log_into, recover_from_log,
}
use structuredb.Transaction.Locks.{
  LocksAgree, holds, lookup-release_all_locks, acquire_row_lock-LocksAgree,
}
use structuredb.Transaction.Reach.{
  Step, Reach, begins, commits, rolls_back, locks, starts_log, recovers, Inv, commit-LocksAgree,
  Reach-init-Inv, Step-Inv,
}

-- Committing frees exactly the rows that the transaction held, and the log gets the event.
row_locks-commit :
    (tx : ℕ) (s : Storage) (k : Str)
    → LocksAgree s
    → lookup k (commit tx s).0.row_locks
      ≡ (if holds tx k s.row_locks then none else lookup k s.row_locks)
unfolding commit rows_of
row_locks-commit tx s k v =
    lookup-release_all_locks tx k (record s { tx_status = assign tx commited s.tx_status }) v

row_locks-rollback :
    (tx : ℕ) (s : Storage) (k : Str)
    → LocksAgree s
    → lookup k (rollback tx s).row_locks
      ≡ (if holds tx k s.row_locks then none else lookup k s.row_locks)
unfolding rollback rows_of
row_locks-rollback tx s k v =
    lookup-release_all_locks tx k (record s { tx_status = assign tx rollbacked s.tx_status }) v

-- In every state that the calls can reach from a fresh storage, those of recovery included, a commit and a
-- rollback free
-- exactly the rows that their transaction holds: every other row keeps its holder.
pub finish_frees_rows :
    {s : Storage} (tx : ℕ) (k : Str)
    → Reach init s
    → (lookup k (commit tx s).0.row_locks
        ≡ (if holds tx k s.row_locks then none else lookup k s.row_locks))
      × (lookup k (rollback tx s).row_locks
          ≡ (if holds tx k s.row_locks then none else lookup k s.row_locks))
finish_frees_rows {s} tx k r = (row_locks-commit tx s k v, row_locks-rollback tx s k v)
  where
    v : LocksAgree s
    v = (Reach-init-Inv r).agree

acquire-free :
    (tx : ℕ) (k : Str) (s : Storage)
    → lookup k s.row_locks ≡ none
    → (s' : Storage) × (acquire_row_lock tx k s ≡ some s')
      × ((j : Str) → lookup j s'.row_locks ≡ (if str_eq k j then some tx else lookup j s.row_locks))
unfolding acquire_row_lock
acquire-free tx k s h = (
  record s {
    row_locks = assign k tx s.row_locks;
    tx_locks = assign tx (set_insert k (rows_of tx s)) s.tx_locks;
  },
  rw (h, acquire_row_lock) refl,
  λ j. lookup-assign k j tx s.row_locks,
)

-- In every state that the calls can reach from a fresh storage: when the holder of a row commits, the next
-- transaction that asks for the row gets it at once and is its holder, the rows that the committed one held
-- are free but for this one, every other row keeps its holder, and the lock maps agree.
pub freed_row_taken :
    {s : Storage} (tx other : ℕ) (k : Str)
    → Reach init s
    → holds tx k s.row_locks ≡ true
    → (s' : Storage) × (acquire_row_lock other k (commit tx s).0 ≡ some s')
      × ((j : Str)
          → lookup j s'.row_locks ≡ (
              if str_eq k j
              then some other
              else if holds tx j s.row_locks
              then none
              else lookup j s.row_locks))
      × LocksAgree s'
freed_row_taken {s} tx other k r h =
    let v = (Reach-init-Inv r).agree in
    let free = row_locks-commit tx s k v ∙ rw h refl in
    let (s', taken, after) = acquire-free other k (commit tx s).0 free in
    (
      s',
      taken,
      λ j. after j ∙ ap (λ o. if str_eq k j then some other else o) (row_locks-commit tx s j v),
      acquire_row_lock-LocksAgree other k (commit tx s).0 s' (commit-LocksAgree tx s v) taken,
    )

-- A call that is not a commit or a rollback of the transaction.
abbrev pub Spares : {s s' : Storage} → ℕ → Step s s' → Type 0
Spares t begins = Unit
Spares t (commits tx h) = (tx == t) ≡ false
Spares t (rolls_back tx h) = (tx == t) ≡ false
Spares t (locks tx row h) = Unit
Spares t starts_log = Unit
Spares t (recovers tx) = Unit

-- Calls among which is no commit and no rollback of the transaction.
pub data ReachSparing (t : ℕ) (s : Storage) : Storage → Type 0 where
  stay : ReachSparing t s s
  go : {u v : Storage} → ReachSparing t s u → (k : Step u v) → Spares t k → ReachSparing t s v

Step-held :
    {s s' : Storage} (t : ℕ) (k : Str) (c : Step s s')
    → Spares t c
    → LocksAgree s
    → lookup k s.row_locks ≡ some t
    → lookup k s'.row_locks ≡ some t
Step-held {s} t k begins d v e = unfold begin in e
Step-held {s} t k (commits tx h) d v e = unfold holds in ground (arith, row_locks-commit tx s k v)
Step-held {s} t k (rolls_back tx h) d v e =
    unfold holds in ground (arith, row_locks-rollback tx s k v)
Step-held {s} t k (locks tx row h) d v e =
    unfold acquire_row_lock in ground (arith, lookup-assign row k tx s.row_locks, str_eq_iff row k)
Step-held {s} t k starts_log d v e = unfold start_log_into in e
Step-held {s} t k (recovers tx) d v e = unfold recover_from_log in e

waits-held :
    (s : Storage) (holder tx : ℕ) (row : Str)
    → lookup row s.row_locks ≡ some holder
    → acquire_row_lock tx row s ≡ none
unfolding acquire_row_lock
waits-held s holder tx row e = ground arith

ReachSparing-held :
    {s : Storage} (t : ℕ) (k : Str) {s' : Storage}
    → Inv s
    → ReachSparing t s s'
    → lookup k s.row_locks ≡ some t
    → Inv s' × (lookup k s'.row_locks ≡ some t)
ReachSparing-held t k v stay h = (v, h)
ReachSparing-held t k v (go r c d) h =
    let (w, kept) = ReachSparing-held t k v r h in (Step-Inv c w, Step-held t k c d w.agree kept)

-- From any state that the calls reach, a row that a transaction holds stays with it through every sequence
-- of calls that has no commit and no rollback of that transaction, whatever its status: nobody else can
-- take the row or free it, and every request for it waits, one of the holder itself included.
pub held_until_finish :
    {s s' : Storage} (t : ℕ) (k : Str)
    → Reach init s
    → lookup k s.row_locks ≡ some t
    → ReachSparing t s s'
    → (lookup k s'.row_locks ≡ some t) × ((tx : ℕ) → acquire_row_lock tx k s' ≡ none)
held_until_finish {s} {s'} t k r h calls =
    let (v, kept) = ReachSparing-held t k (Reach-init-Inv r) calls h in
    (kept, λ tx. waits-held s' t tx k kept)
