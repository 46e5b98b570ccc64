-- ===== src/Transaction/Locks.antt =====
-- The two lock maps of the transaction storage describe the same locks.
use structuredb.Base.{
  ℕ, Bool, false, ◌&&◌, ◌≡◌, refl, none, some, List, [], ◌∷◌, if◌then◌else◌, ◌==◌, arith, ◌||◌, inl,
  inr, Option-cases,
}
use structuredb.Base.Str.{Str, str_eq, str_eq_iff}
use structuredb.Base.Assoc.{nat_key, str_key, member, lookup, lookup-erase, lookup-assign}
use structuredb.Transaction.{
  Storage, release_row, release_rows, release_all_locks, rows_of, set_insert, acquire_row_lock,
}

-- Whether `row_locks_` gives the row to the transaction.
unfoldable pub holds : ℕ → Str → List (Str × ℕ) → Bool
holds tx row locks = elim (lookup row locks) [ none ↦ false | some h ↦ h == tx ]

-- A row is in the set of a transaction exactly if the row's holder is that transaction.
abbrev pub LocksAgree : Storage → Type 0
LocksAgree s = (tx : ℕ) (row : Str) → member row (rows_of tx s) ≡ holds tx row s.row_locks

pub lookup-release_row :
    (tx : ℕ) (r k : Str) (locks : List (Str × ℕ))
    → lookup k (release_row tx r locks)
      ≡ (if str_eq r k && holds tx k locks then none else lookup k locks)
unfolding release_row holds
lookup-release_row tx r k locks = ground (arith, str_eq_iff r k, lookup-erase r k locks)

release_rows-cons :
    (tx : ℕ) (r : Str) (rows : List Str) (k : Str) (locks : List (Str × ℕ))
    → lookup k (release_rows tx rows (release_row tx r locks)) ≡ (
        if member k rows && holds tx k (release_row tx r locks)
        then none
        else lookup k (release_row tx r locks))
    → lookup k (release_rows tx (r ∷ rows) locks)
      ≡ (if member k (r ∷ rows) && holds tx k locks then none else lookup k locks)
unfolding release_rows member holds
release_rows-cons tx r rows k locks ih = ground (arith, ih, lookup-release_row tx r k locks)

pub lookup-release_rows :
    (tx : ℕ) (rows : List Str) (k : Str) (locks : List (Str × ℕ))
    → lookup k (release_rows tx rows locks)
      ≡ (if member k rows && holds tx k locks then none else lookup k locks)
unfolding release_rows member
lookup-release_rows tx [] k locks = refl
lookup-release_rows tx (r ∷ rows) k locks =
    release_rows-cons tx r rows k locks (lookup-release_rows tx rows k (release_row tx r locks))

-- After the loop: no row of the transaction is left, and no other row changes.
pub lookup-release_all_locks :
    (tx : ℕ) (k : Str) (s : Storage)
    → LocksAgree s
    → lookup k (release_all_locks tx s).row_locks
      ≡ (if holds tx k s.row_locks then none else lookup k s.row_locks)
unfolding release_all_locks rows_of member
lookup-release_all_locks tx k s v = elim (Option-cases (lookup tx s.tx_locks)) [
  | inl e ↦ rw (e, release_all_locks) (ground (arith, v tx k))
  | inr (rows, e) ↦
      rw (e, release_all_locks) (ground (arith, v tx k, lookup-release_rows tx rows k s.row_locks))
]

rows_of-release_all_locks :
    (tx t : ℕ) (s : Storage)
    → rows_of t (release_all_locks tx s) ≡ (if tx == t then [] else rows_of t s)
unfolding release_all_locks rows_of
rows_of-release_all_locks tx t s = ground (arith, lookup-erase tx t s.tx_locks)

pub release_all_locks-LocksAgree :
    (tx : ℕ) (s : Storage) → LocksAgree s → LocksAgree (release_all_locks tx s)
unfolding holds member
release_all_locks-LocksAgree tx s v t k =
    ground (arith, v t k, rows_of-release_all_locks tx t s, lookup-release_all_locks tx k s v)

member-set_insert :
    (k r : Str) (rows : List Str) → member k (set_insert r rows) ≡ (str_eq r k || member k rows)
unfolding set_insert member
member-set_insert k r rows = ground (arith, str_eq_iff r k)

pub acquire_row_lock-LocksAgree :
    (tx : ℕ) (r : Str) (s s' : Storage)
    → LocksAgree s
    → acquire_row_lock tx r s ≡ some s'
    → LocksAgree s'
unfolding holds acquire_row_lock
acquire_row_lock-LocksAgree tx r s s' v h t k =
    unfold rows_of in
    ground (
      arith,
      v t k,
      str_eq_iff r k,
      lookup-assign r k tx s.row_locks,
      lookup-assign tx t (set_insert r (rows_of tx s)) s.tx_locks,
      member-set_insert k r (rows_of tx s),
    )
