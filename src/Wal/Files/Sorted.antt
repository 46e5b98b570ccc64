-- ===== src/Wal/Files/Sorted.antt =====
-- The names in order, and the number that `Writer::Init` finds behind the last one.
use structuredb.Base.{
  ℕ, ◌+◌, ◌<◌, ◌≡◌, refl, sym, ap, subst, ◌∙◌, true, false, List, [], ◌∷◌, arith, All,
  if◌then◌else◌, Bool-cases, inl, inr,
}
use structuredb.Base.Str.{Str, str_lt, str_lt_total, str_lt_trans, str_lt_irrefl}
use structuredb.Wal.Segment.{
  segment_name, get_segment_no_from_name, number-segment_name, segment_name-lt,
}
use structuredb.Wal.Files.{Directory, list_directory, insert, sort, Below, All-sort}
use structuredb.Wal.Writer.{next_segment_no}

IsSorted : List Str → Type 0
IsSorted [] = Unit
IsSorted (x ∷ []) = Unit
IsSorted (x ∷ y ∷ names) = (str_lt y x ≡ false) × IsSorted (y ∷ names)

insert-IsSorted : (name : Str) (names : List Str) → IsSorted names → IsSorted (insert name names)
unfolding insert IsSorted
insert-IsSorted name [] h = tt
insert-IsSorted name (x ∷ []) h = ground (arith, str_lt_trans x name x, str_lt_irrefl x)
insert-IsSorted name (x ∷ y ∷ names) h =
    ground (arith, insert-IsSorted name (y ∷ names) h.1, str_lt_trans x name x, str_lt_irrefl x)

sort-IsSorted : (names : List Str) → IsSorted (sort names)
unfolding sort IsSorted
sort-IsSorted [] = tt
sort-IsSorted (n ∷ names) = insert-IsSorted n (sort names) (sort-IsSorted names)

-- A name that the program gives.
unfoldable pub IsSegment : Str → Type 0
IsSegment name = (n : ℕ) × (n < 10000) × (name ≡ segment_name n)

next_segment_no-segment :
    (name : Str) (n : ℕ) → n < 10000 → name ≡ segment_name n → next_segment_no (name ∷ []) ≡ n + 1
unfolding next_segment_no
next_segment_no-segment name n h e =
    rw (ap get_segment_no_from_name e ∙ number-segment_name n h, next_segment_no) refl

below_trans : (x y z : Str) → str_lt y x ≡ false → str_lt y z ≡ true → str_lt x z ≡ true
below_trans x y z h k = ground (arith, str_lt_total x y, str_lt_trans x y z)

below-next :
    (names : List Str)
    → IsSorted names
    → All IsSegment names
    → next_segment_no names < 10000
    → All (λ n. str_lt n (segment_name (next_segment_no names)) ≡ true) names
unfolding IsSorted IsSegment next_segment_no
below-next [] s h l = tt
below-next (x ∷ []) s ((n, b, e), u) l =
    let next = next_segment_no-segment x n b e in
    (
      subst (λ m. str_lt x (segment_name m) ≡ true) (sym next)
          (rw e (segment_name-lt n (n + 1) (omega arith) (omega (arith, next)))),
      tt,
    )
below-next (x ∷ y ∷ names) s (p, h) l =
    let rest = below-next (y ∷ names) s.1 h l in (below_trans x y _ s.0 rest.0, rest)

insert-All :
    (P : Str → Type 0) (name : Str) (names : List Str)
    → All P (insert name names)
    → P name × All P names
unfolding insert
insert-All P name [] h = h
insert-All P name (n ∷ names) h = elim (Bool-cases (str_lt n name)) [
  | inl e ↦
      let h' : P n × All P (insert name names) =
        subst (λ b. All P (if b then n ∷ insert name names else name ∷ n ∷ names)) e h in
      let (p, rest) = insert-All P name names h'.1 in (p, (h'.0, rest))
  | inr e ↦ subst (λ b. All P (if b then n ∷ insert name names else name ∷ n ∷ names)) e h
]

sort-All : (P : Str → Type 0) (names : List Str) → All P (sort names) → All P names
unfolding sort
sort-All P [] h = tt
sort-All P (n ∷ names) h =
    let (p, rest) = insert-All P n (sort names) h in (p, sort-All P names rest)

-- The number that a writer starts with is above those of all the segments.
pub init-Below :
    (d : Directory)
    → All IsSegment (list_directory d)
    → next_segment_no (sort (list_directory d)) < 10000
    → Below (segment_name (next_segment_no (sort (list_directory d)))) d
init-Below d h l = sort-All _ (list_directory d) (
    below-next (sort (list_directory d)) (sort-IsSorted (list_directory d))
      (All-sort IsSegment (list_directory d) h) l)
