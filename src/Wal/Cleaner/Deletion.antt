-- ===== src/Wal/Cleaner/Deletion.antt =====
-- What the deletion of obsolete segments leaves (wal/cleaner.cpp).
use structuredb.Base.{
  ℕ, suc, true≢false, ◌+◌, ◌/◌, ◌%◌, ◌≤◌, ◌<◌, ◌≡◌, refl, sym, ap, subst, ◌∙◌, Bool, true, false,
  ◌&&◌, not, Option, none, some, [], ◌∷◌, length, length-append, arith, Bool-cases, inl, inr, ltb,
  if◌then◌else◌, lt→ltb, ltb→lt,
}
use structuredb.Base.Str.{Str, str_eq, str_eq_iff, str_eq_refl}
use structuredb.Base.Assoc.{
  option_key, str_key, nat_key, lookup, lookup-erase, option_eq, option_eq_iff, IsMap,
}
use structuredb.Wal.Segment.{
  segment_name, get_segment_no_from_name, number-segment_name, four_digits, decimal, extension,
}
use structuredb.Wal.Files.{Directory, remove}
use structuredb.Wal.Cleaner.{Persistence, is_retained, segment_file, delete_obsolete_segments}

ltb-false : (m n : ℕ) → ltb m n ≡ false → n ≤ m
ltb-false m n h = ground arith

length-decimal-step :
    (f n : ℕ) → 10 ≤ n → length (decimal (suc f) n) ≡ length (decimal f (n / 10)) + 1
unfolding decimal
length-decimal-step f n h = ground (arith, length-append (decimal f (n / 10)) ((48 + n % 10) ∷ []))

length-decimal-pos : (f n : ℕ) → 1 ≤ length (decimal (suc f) n)
unfolding decimal
length-decimal-pos f n = ground (arith, length-append (decimal f (n / 10)) ((48 + n % 10) ∷ []))

not_short : (n : ℕ) → 10000 ≤ n → ltb n 10000 ≡ false
not_short n h = ground arith

-- A number from 10000 on has five digits at least.
long-name : (n : ℕ) → 10000 ≤ n → 13 ≤ length (segment_name n)
unfolding segment_name four_digits
long-name n h = rw (not_short n h) (
    omega (
      arith,
      length-append (decimal 20 n) extension,
      length-decimal-step 19 n (omega arith),
      length-decimal-step 18 (n / 10) (omega arith),
      length-decimal-step 17 (n / 10 / 10) (omega arith),
      length-decimal-step 16 (n / 10 / 10 / 10) (omega arith),
      length-decimal-pos 15 (n / 10 / 10 / 10 / 10),
    ))

short-name : (n : ℕ) → n < 10000 → length (segment_name n) ≡ 12
unfolding segment_name four_digits
short-name n h = rw (lt→ltb n 10000 h) refl

-- Only the number of a segment makes its name.
segment_file_inj : (k : Option ℕ) (n : ℕ) → n < 10000 → segment_file k ≡ segment_name n → k ≡ some n
unfolding segment_file
segment_file_inj none n h e =
    unfold get_segment_no_from_name in ap get_segment_no_from_name e ∙ number-segment_name n h
segment_file_inj (some k) n h e = elim (Bool-cases (ltb k 10000)) [
  | inl l ↦
      sym (number-segment_name k (ltb→lt k 10000 l))
      ∙ ap get_segment_no_from_name e
      ∙ number-segment_name n h
  | inr l ↦ absurd (omega (arith, long-name k (ltb-false k 10000 l), short-name n h, ap length e))
]

-- What the map says of a segment.
abbrev pub marked : Option ℕ → Persistence → Bool
marked k m = elim (lookup k m) [ none ↦ false | some b ↦ b ]

-- The directory behind one step of the loop of `DeleteObsoleteSegments`.
abbrev delete_one : Bool → Str → Directory → Directory
delete_one obsolete name d = elim obsolete [ true ↦ remove name d | false ↦ d ]

delete-own :
    (obsolete : Bool) (name : Str) (d : Directory)
    → lookup name (delete_one obsolete name d) ≡ (if obsolete then none else lookup name d)
unfolding remove
delete-own true name d =
    lookup-erase name name d ∙ ap (λ b. if b then none else lookup name d) (str_eq_refl name)
delete-own false name d = refl

delete-other :
    (obsolete : Bool) (file name : Str) (d : Directory)
    → str_eq file name ≡ false
    → lookup name (delete_one obsolete file d) ≡ lookup name d
unfolding remove
delete-other true file name d h =
    lookup-erase file name d ∙ ap (λ b. if b then none else lookup name d) h
delete-other false file name d h = refl

other_file :
    (k : Option ℕ) (n : ℕ)
    → n < 10000
    → option_eq k (some n) ≡ false
    → str_eq (segment_file k) (segment_name n) ≡ false
other_file k n h e = elim (Bool-cases (str_eq (segment_file k) (segment_name n))) [
  | inl f ↦
      let same = segment_file_inj k n h ((str_eq_iff (segment_file k) (segment_name n)).0 f) in
      absurd (true≢false (sym ((option_eq_iff k (some n)).1 same) ∙ e))
  | inr f ↦ f
]

marked-own : (k : Option ℕ) (b : Bool) (m : Persistence) → marked k ((k, b) ∷ m) ≡ b
unfolding lookup
marked-own k b m = rw ((option_eq_iff k k).1 refl, marked) refl

marked-other :
    (k j : Option ℕ) (b : Bool) (m : Persistence)
    → option_eq k j ≡ false
    → marked j ((k, b) ∷ m) ≡ marked j m
unfolding lookup
marked-other k j b m h = rw (h, marked) refl

marked-none : (k : Option ℕ) (m : Persistence) → lookup k m ≡ none → marked k m ≡ false
marked-none k m h = rw (h, marked) refl

-- What the deletion leaves of a file: it goes if and only if the map marks its segment and no follower
-- retains it.
pub delete_lem :
    (retain : Option (Option ℕ)) (n : ℕ) (m : Persistence) (d : Directory)
    → n < 10000
    → IsMap m
    → lookup (segment_name n) (delete_obsolete_segments retain m d) ≡ (
        if marked (some n) m && not (is_retained retain (some n))
        then none
        else lookup (segment_name n) d)
unfolding delete_obsolete_segments lookup
delete_lem retain n [] d h u = refl
delete_lem retain n ((k, b) ∷ m) d h u =
    let name = segment_name n in
    let kept = not (is_retained retain (some n)) in
    let rest = delete_one (b && not (is_retained retain k)) (segment_file k) d in
    let choice = λ (x : Bool) (o : Option Str). if x && kept then none else o in
    delete_lem retain n m rest h u.1 ∙ (elim (Bool-cases (option_eq k (some n))) [
      | inl e ↦
          let same : k ≡ some n = (option_eq_iff k (some n)).0 e in
          ap (λ x. choice x (lookup name rest))
            (marked-none (some n) m (subst (λ j. lookup j m ≡ none) same u.0))
          ∙ ap (λ j. lookup name (delete_one (b && not (is_retained retain j)) (segment_file j) d))
              same
          ∙ delete-own (b && kept) name d
          ∙ ap (λ x. choice x (lookup name d))
              (sym (marked-own (some n) b m) ∙ ap (λ j. marked (some n) ((j, b) ∷ m)) (sym same))
      | inr e ↦
          ap (choice (marked (some n) m)) (
            delete-other (b && not (is_retained retain k)) (segment_file k) name d
              (other_file k n h e))
          ∙ ap (λ x. choice x (lookup name d)) (sym (marked-other k (some n) b m e))
    ])
