-- ===== src/Lsm/Merge/Sort.antt =====
-- Sorting records: what the order of the merged records is compared with.
use structuredb.Base.{◌≡◌, refl, ap, ◌∙◌, false, List, [], ◌∷◌, ◌++◌, arith, All}
use structuredb.Lsm.Types.{Record, record_lt}
use structuredb.Lsm.Order.{IsSorted, record_lt_trans, record_lt_total, record_lt_irrefl}
use structuredb.Lsm.MemTable.{put}
use structuredb.Lsm.MemTable.Laws.{put-perm, put-IsSorted, All-put}
use mathlib.Core.List.{Perm}
use mathlib.Core.List.Perm

-- The order of insertion into a multiset does not show.
pub put_comm : (a b : Record) (xs : List Record) → put a (put b xs) ≡ put b (put a xs)
unfolding put
put_comm a b [] = ground (arith, record_lt_total a b, record_lt_trans a b a, record_lt_irrefl a)
put_comm a b (x ∷ xs) = ground (
  arith,
  put_comm a b xs,
  record_lt_total a b,
  record_lt_trans a b a,
  record_lt_irrefl a,
  record_lt_trans b a x,
  record_lt_trans a b x,
)

-- A record that nothing is below goes to the front.
pub put-least :
    (m : Record) (xs : List Record) → All (λ y. record_lt y m ≡ false) xs → put m xs ≡ m ∷ xs
unfolding put
put-least m [] h = refl
put-least m (x ∷ xs) h = ground (arith, put-least m xs h.1, record_lt_total m x)

-- All records of a list, inserted into a sorted one.
unfoldable pub sort_onto : List Record → List Record → List Record
sort_onto [] acc = acc
sort_onto (x ∷ xs) acc = put x (sort_onto xs acc)

pub put-sort_onto :
    (a : Record) (xs acc : List Record) → put a (sort_onto xs acc) ≡ sort_onto xs (put a acc)
unfolding sort_onto
put-sort_onto a [] acc = refl
put-sort_onto a (x ∷ xs) acc = put_comm a x (sort_onto xs acc) ∙ ap (put x) (put-sort_onto a xs acc)

pub sort_onto_comm :
    (xs ys acc : List Record) → sort_onto xs (sort_onto ys acc) ≡ sort_onto ys (sort_onto xs acc)
unfolding sort_onto
sort_onto_comm [] ys acc = refl
sort_onto_comm (x ∷ xs) ys acc =
    ap (put x) (sort_onto_comm xs ys acc) ∙ put-sort_onto x ys (sort_onto xs acc)

pub sort_onto-IsSorted : (xs acc : List Record) → IsSorted acc → IsSorted (sort_onto xs acc)
unfolding sort_onto
sort_onto-IsSorted [] acc h = h
sort_onto-IsSorted (x ∷ xs) acc h = put-IsSorted x (sort_onto xs acc) (sort_onto-IsSorted xs acc h)

pub sort_onto-perm : (xs acc : List Record) → Perm (sort_onto xs acc) (xs ++ acc)
unfolding sort_onto
sort_onto-perm [] acc = Perm.refl acc
sort_onto-perm (x ∷ xs) acc =
    Perm.trans (put-perm x (sort_onto xs acc)) (Perm.cons x (sort_onto-perm xs acc))

pub All-sort_onto {κ} :
    (P : Record → Type κ) (xs acc : List Record) → All P xs → All P acc → All P (sort_onto xs acc)
unfolding sort_onto
All-sort_onto P [] acc p q = q
All-sort_onto P (x ∷ xs) acc p q = All-put P x (sort_onto xs acc) p.0 (All-sort_onto P xs acc p.1 q)

pub sort_onto-append :
    (xs ys acc : List Record) → sort_onto (xs ++ ys) acc ≡ sort_onto xs (sort_onto ys acc)
unfolding sort_onto
sort_onto-append [] ys acc = refl
sort_onto-append (x ∷ xs) ys acc = ap (put x) (sort_onto-append xs ys acc)
