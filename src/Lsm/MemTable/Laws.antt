-- ===== src/Lsm/MemTable/Laws.antt =====
-- What inserting into a mem table does.
use structuredb.Base.{
  ◌<◌, ◌≡◌, refl, true, false, List, [], ◌∷◌, arith, length, ◌+◌, All, filter, if◌then◌else◌,
  Bool-cases, inl, inr,
}
use structuredb.Base.Str.{Str, str_eq, str_eq_iff}
use structuredb.Lsm.Types.{Record, record_lt}
use structuredb.Lsm.Order.{IsSorted, record_lt_trans, record_lt_irrefl}
use structuredb.Lsm.MemTable.{MemTable, put}
use mathlib.Core.List.{Perm}
use mathlib.Core.List.Perm

-- Nothing is lost and nothing is made up.
pub put-perm : (r : Record) (table : MemTable) → Perm (put r table) (r ∷ table)
unfolding put
put-perm r [] = Perm.refl _
put-perm r (x ∷ xs) = elim (Bool-cases (record_lt r x)) [
  | inl e ↦ rw e (Perm.refl _)
  | inr e ↦ rw e (Perm.trans (Perm.cons x (put-perm r xs)) (Perm.swap r x xs))
]

module _ {κ} (P : Record → Type κ) where
  pub All-put : (r : Record) (table : MemTable) → P r → All P table → All P (put r table)
  unfolding put
  All-put r [] p h = (p, tt)
  All-put r (x ∷ xs) p h = elim (Bool-cases (record_lt r x)) [
    | inl e ↦ rw e (p, h)
    | inr e ↦ rw e (h.0, All-put r xs p h.1)
  ]

le_of_lt_head :
    (r x : Record) (xs : List Record)
    → record_lt r x ≡ true
    → All (λ y. record_lt y x ≡ false) xs
    → All (λ y. record_lt y r ≡ false) xs
le_of_lt_head r x [] e h = tt
le_of_lt_head r x (y ∷ ys) e h = (ground (arith, record_lt_trans y r x), le_of_lt_head r x ys e h.1)

-- An insertion into a sorted mem table keeps it sorted.
pub put-IsSorted : (r : Record) (table : MemTable) → IsSorted table → IsSorted (put r table)
unfolding put
put-IsSorted r [] h = (tt, tt)
put-IsSorted r (x ∷ xs) h = elim (Bool-cases (record_lt r x)) [
  | inl e ↦
      rw e
        ((ground (arith, record_lt_trans x r x, record_lt_irrefl x), le_of_lt_head r x xs e h.0), h)
  | inr e ↦ rw e (All-put (λ y. record_lt y x ≡ false) r xs e h.0, put-IsSorted r xs h.1)
]

-- The versions of a key, in the order of the sequence.
abbrev pub versions : Str → List Record → List Record
versions key = filter (λ x. str_eq x.key key)

-- A record newer than the whole table becomes the first version of its key, and the versions of
-- every other key stay as they are.
pub versions-put :
    (key : Str) (r : Record) (table : MemTable)
    → All (λ x. x.seq_no < r.seq_no) table
    → versions key (put r table)
      ≡ (if str_eq r.key key then r ∷ versions key table else versions key table)
unfolding put record_lt
versions-put key r [] h = refl
versions-put key r (x ∷ xs) h = ground (
  arith,
  versions-put key r xs h.1,
  str_eq_iff x.key key,
  str_eq_iff r.key key,
  str_eq_iff r.key x.key,
)

pub length-put : (r : Record) (table : MemTable) → length (put r table) ≡ length table + 1
unfolding put
length-put r [] = refl
length-put r (x ∷ xs) = ground (arith, length-put r xs)
