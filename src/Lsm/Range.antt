-- ===== src/Lsm/Range.antt =====
-- Cutting a range of keys out of a sequence that is sorted by key.
use structuredb.Base.{
  ◌≡◌, refl, ap, ◌∙◌, Bool, true, false, ◌&&◌, not, Option, none, some, List, [], ◌∷◌, arith,
  if◌then◌else◌, All, filter, Bool-cases, inl, inr,
}
use structuredb.Base.Str.{Str, str_lt, str_le, str_lt_trans, str_lt_total, str_lt_irrefl}
use structuredb.Lsm.Types.{Record, ScanRange, record_lt}
use structuredb.Lsm.Order.{IsSorted, key_le_of_record_le}

abbrev pub above_lower : Option Str → Record → Bool
above_lower none r = true
above_lower (some lb) r = not (str_lt r.key lb)

abbrev pub below_upper : Option Str → Record → Bool
below_upper none r = true
below_upper (some ub) r = str_le r.key ub

-- What a scan of the range should return: both ends are inclusive.
abbrev pub in_range : ScanRange → Record → Bool
in_range range r = above_lower range.lower_bound r && below_upper range.upper_bound r

-- The records from the first that passes the test on.
unfoldable pub drop_until : (Record → Bool) → List Record → List Record
drop_until p [] = []
drop_until p (x ∷ xs) = if p x then x ∷ xs else drop_until p xs

-- The records before the first that fails the test.
unfoldable pub take_while : (Record → Bool) → List Record → List Record
take_while p [] = []
take_while p (x ∷ xs) = if p x then x ∷ take_while p xs else []

-- Keys never fall along the list.
abbrev pub IsKeySorted : List Record → Type 0
IsKeySorted [] = Unit
IsKeySorted (x ∷ xs) = All (λ y. str_lt y.key x.key ≡ false) xs × IsKeySorted xs

All-key_le :
    (x : Record) (xs : List Record)
    → All (λ y. record_lt y x ≡ false) xs
    → All (λ y. str_lt y.key x.key ≡ false) xs
All-key_le x [] h = tt
All-key_le x (y ∷ ys) h = (key_le_of_record_le x y h.0, All-key_le x ys h.1)

pub IsSorted-IsKeySorted : (xs : List Record) → IsSorted xs → IsKeySorted xs
IsSorted-IsKeySorted [] h = tt
IsSorted-IsKeySorted (x ∷ xs) h = (All-key_le x xs h.0, IsSorted-IsKeySorted xs h.1)

pub str_le_trans : (a b c : Str) → str_lt b a ≡ false → str_lt c b ≡ false → str_lt c a ≡ false
str_le_trans a b c h k =
    ground (arith, str_lt_total a b, str_lt_trans c a b, str_lt_trans a b a, str_lt_irrefl c)

-- Behind a record above the upper bound no record is in the range.
filter-above :
    (ub : Str) (x : Record) (xs : List Record)
    → str_lt ub x.key ≡ true
    → All (λ y. str_lt y.key x.key ≡ false) xs
    → filter (λ y. str_le y.key ub) xs ≡ []
filter-above ub x [] h a = refl
filter-above ub x (y ∷ ys) h a =
    ground
      (arith, str_lt_trans ub x.key y.key, str_lt_total x.key y.key, filter-above ub x ys h a.1)

-- Once a record is above the lower bound, so are all behind it.
filter-lower :
    (lb : Str) (x : Record) (xs : List Record)
    → str_lt x.key lb ≡ false
    → All (λ y. str_lt y.key x.key ≡ false) xs
    → (q : Record → Bool) → filter (λ y. not (str_lt y.key lb) && q y) xs ≡ filter q xs
filter-lower lb x [] h a q = refl
filter-lower lb x (y ∷ ys) h a q =
    ground (arith, str_le_trans lb x.key y.key, filter-lower lb x ys h a.1 q)

take_while-upper :
    (upper : Option Str) (xs : List Record)
    → IsKeySorted xs
    → take_while (below_upper upper) xs ≡ filter (below_upper upper) xs
unfolding take_while
take_while-upper none [] h = refl
take_while-upper none (x ∷ xs) h = ap (◌∷◌ x) (take_while-upper none xs h.1)
take_while-upper (some ub) [] h = refl
take_while-upper (some ub) (x ∷ xs) h =
    ground (arith, take_while-upper (some ub) xs h.1, filter-above ub x xs)

drop_until-sorted :
    (p : Record → Bool) (xs : List Record) → IsKeySorted xs → IsKeySorted (drop_until p xs)
unfolding drop_until
drop_until-sorted p [] h = h
drop_until-sorted p (x ∷ xs) h = elim (Bool-cases (p x)) [
  | inl e ↦ rw e h
  | inr e ↦ rw e (drop_until-sorted p xs h.1)
]

drop_until-none :
    (upper : Option Str) (xs : List Record)
    → filter (below_upper upper) (drop_until (above_lower none) xs)
      ≡ filter (λ r. above_lower none r && below_upper upper r) xs
unfolding drop_until
drop_until-none upper [] = refl
drop_until-none upper (x ∷ xs) = refl

drop_until-some :
    (lb : Str) (upper : Option Str) (xs : List Record)
    → IsKeySorted xs
    → filter (below_upper upper) (drop_until (above_lower (some lb)) xs)
      ≡ filter (λ r. above_lower (some lb) r && below_upper upper r) xs
unfolding drop_until
drop_until-some lb upper [] h = refl
drop_until-some lb upper (x ∷ xs) h = elim (Bool-cases (str_lt x.key lb)) [
  | inl e ↦ rw e (drop_until-some lb upper xs h.1)
  | inr e ↦ rw (e, filter-lower lb x xs e h.0 (below_upper upper))
]

cut-parts :
    (lower upper : Option Str) (xs : List Record)
    → IsKeySorted xs
    → take_while (below_upper upper) (drop_until (above_lower lower) xs)
      ≡ filter (λ r. above_lower lower r && below_upper upper r) xs
cut-parts none upper xs h =
    take_while-upper upper _ (drop_until-sorted _ xs h) ∙ drop_until-none upper xs
cut-parts (some lb) upper xs h =
    take_while-upper upper _ (drop_until-sorted _ xs h) ∙ drop_until-some lb upper xs h

-- On a sequence sorted by key, skipping to the lower bound and stopping behind the upper one
-- leaves exactly the records of the range.
pub cut-range :
    (range : ScanRange) (xs : List Record)
    → IsKeySorted xs
    → take_while (below_upper range.upper_bound) (drop_until (above_lower range.lower_bound) xs)
      ≡ filter (in_range range) xs
cut-range range xs h = cut-parts range.lower_bound range.upper_bound xs h
