-- ===== src/Replication/Registry/Retention.antt =====
-- What the registry keeps of the log (replication/follower_registry.cpp and wal/cleaner.cpp).
use structuredb.Base.{
  ℕ, ◌+◌, ◌≤◌, ◌<◌, ◌≡◌, refl, sym, ap, subst, ◌∙◌, Bool, true, false, ◌||◌, Option, none, some,
  List, [], ◌∷◌, arith, ◌==◌, ==_iff, if◌then◌else◌, Option-cases, Bool-cases, some_inj, inl, inr,
}
use structuredb.Base.Assoc.{nat_key, str_key, lookup, assign, lookup-assign, lookup-erase}
use structuredb.Wal.Segment.{segment_name}
use structuredb.Wal.Files.{Directory}
use structuredb.Wal.Reader.{Position}
use structuredb.Wal.Cleaner.{is_retained, clean}
use structuredb.Wal.Cleaner.Safety.{clean-kept}
use structuredb.Table.Engine.{Database}
use structuredb.Replication.Registry.{
  FollowerRegistry, register, update, unregister, no_le, no_min, min_loop, min_retained_segment,
}

-- Whether a follower's position is at a segment or before it.
unfoldable pub is_needed : Option ℕ → List (ℕ × Position) → Bool
is_needed segment_no [] = false
is_needed segment_no ((token, pos) ∷ ps) =
    no_le pos.segment_no segment_no || is_needed segment_no ps

no_le-min : (a b k : Option ℕ) → no_le (no_min a b) k ≡ (no_le a k || no_le b k)
no_le-min none none k = ground arith
no_le-min none (some b) k = ground arith
no_le-min (some a) none k = ground arith
no_le-min (some a) (some b) none = ground arith
no_le-min (some a) (some b) (some k) = ground arith

or_absorb : (a b : Bool) → (a || (a || b)) ≡ (a || b)
or_absorb a b = ground arith

or_true : (a : Bool) → (a || true) ≡ true
or_true a = ground arith

no_le-loop :
    (a k : Option ℕ) (ps : List (ℕ × Position))
    → no_le (min_loop a ps) k ≡ (no_le a k || is_needed k ps)
unfolding min_loop is_needed
no_le-loop a k [] = ground arith
no_le-loop a k ((token, pos) ∷ ps) =
    no_le-loop (no_min a pos.segment_no) k ps
    ∙ ap (λ b. b || is_needed k ps) (no_le-min a pos.segment_no k)
    ∙ ground arith

is_retained-le : (a k : Option ℕ) → is_retained (some a) k ≡ no_le a k
unfolding is_retained
is_retained-le none k = refl
is_retained-le (some a) none = refl
is_retained-le (some a) (some k) = refl

-- The cleaner keeps a segment for the registry if and only if some follower's position is at that
-- segment or before it.
pub is_retained-min :
    (r : FollowerRegistry) (k : Option ℕ)
    → is_retained (min_retained_segment r) k ≡ is_needed k r.positions
unfolding min_retained_segment is_retained
is_retained-min r k =
    elim r.positions
      as (λ positions.
        is_retained
          (elim positions as (λ x. Option (Option ℕ)) [
            | [] ↦ none
            | first ∷ ps ↦ some (min_loop first.1.segment_no (first ∷ ps))
          ])
          k
        ≡ is_needed k positions) [
          | [] ↦ unfold is_needed in refl
          | (token, pos) ∷ ps ↦
              is_retained-le (min_loop pos.segment_no ((token, pos) ∷ ps)) k
              ∙ no_le-loop pos.segment_no k ((token, pos) ∷ ps)
              ∙ unfold is_needed in or_absorb (no_le pos.segment_no k) (is_needed k ps)
        ]

needed-at :
    (token : ℕ) (pos : Position) (k : Option ℕ) (ps : List (ℕ × Position))
    → lookup token ps ≡ some pos
    → no_le pos.segment_no k ≡ true
    → is_needed k ps ≡ true
unfolding lookup is_needed
needed-at token pos k [] h l = cc
needed-at token pos k ((t, p) ∷ ps) h l = elim (Bool-cases (t == token)) [
  | inl e ↦
      let same : p ≡ pos = some_inj (sym (ap (λ b. if b then some p else lookup token ps) e) ∙ h) in
      ap (λ q. no_le q.segment_no k || is_needed k ps) same ∙ ap (λ b. b || is_needed k ps) l
  | inr e ↦
      ap (λ b. no_le p.segment_no k || b)
        (needed-at token pos k ps (sym (ap (λ b. if b then some p else lookup token ps) e) ∙ h) l)
      ∙ or_true (no_le p.segment_no k)
]

-- While a follower is registered, a cleaning with the registry's bound leaves every segment of a number
-- below 10000 from the follower's position on as it is, whatever the followers before it have done.
pub clean-registered :
    (db : Database) (d : Directory) (r : FollowerRegistry) (token : ℕ) (pos : Position) (n : ℕ)
    → n < 10000
    → lookup token r.positions ≡ some pos
    → no_le pos.segment_no (some n) ≡ true
    → lookup (segment_name n) (clean db (min_retained_segment r) d) ≡ lookup (segment_name n) d
clean-registered db d r token pos n h f l =
    clean-kept db (min_retained_segment r) d n h
      (is_retained-min r (some n) ∙ needed-at token pos (some n) r.positions f l)

-- Every token that was given is below the next one.
abbrev pub IsValid : FollowerRegistry → Type 0
IsValid r = (token : ℕ) → r.next_token ≤ token → lookup token r.positions ≡ none

register-new :
    (from : Position) (r : FollowerRegistry)
    → IsValid r
    → (register from r).1
      ≡ (record { next_token = r.next_token + 1; positions = assign r.next_token from r.positions })
unfolding register
register-new from r v = rw (v r.next_token (omega arith), register) refl

-- What a follower has after each operation. A registry whose tokens are below the next one keeps them
-- so when a follower comes; the new one has the position that it asked for under a new token, and
-- every other follower has what it had.
pub register_lem :
    (from : Position) (r : FollowerRegistry)
    → IsValid r
    → IsValid (register from r).1
      × ((token : ℕ)
          → lookup token (register from r).1.positions
            ≡ (if r.next_token == token then some from else lookup token r.positions))
register_lem from r v = rw (register-new from r v) (
  (λ token h.
      lookup-assign r.next_token token from r.positions ∙ ground (arith, v token (omega arith))),
  (λ token. lookup-assign r.next_token token from r.positions),
)

update-found :
    (token : ℕ) (next pos : Position) (r : FollowerRegistry)
    → lookup token r.positions ≡ some pos
    → update token next r ≡ (record r { positions = assign token next r.positions })
unfolding update
update-found token next pos r h = rw (h, update) refl

update-missing :
    (token : ℕ) (next : Position) (r : FollowerRegistry)
    → lookup token r.positions ≡ none
    → update token next r ≡ r
unfolding update
update-missing token next r h = rw (h, update) refl

-- An update moves the follower of its token, if there is one, and no other.
pub update_lem :
    (token other : ℕ) (next : Position) (r : FollowerRegistry)
    → lookup other (update token next r).positions ≡ (
        if token == other
        then (elim (lookup token r.positions) [ none ↦ none | some pos ↦ some next ])
        else lookup other r.positions)
update_lem token other next r = elim (Option-cases (lookup token r.positions)) [
  | inl e ↦
      rw (update-missing token next r e, e)
        (elim (Bool-cases (token == other)) [
          | inl t ↦ rw t (subst (λ k. lookup k r.positions ≡ none) ((==_iff token other).0 t) e)
          | inr t ↦ rw t refl
        ])
  | inr (pos, e) ↦
      rw (update-found token next pos r e, e) (lookup-assign token other next r.positions)
]

pub update-IsValid :
    (token : ℕ) (next : Position) (r : FollowerRegistry) → IsValid r → IsValid (update token next r)
update-IsValid token next r v = elim (Option-cases (lookup token r.positions)) [
  | inl e ↦ rw (update-missing token next r e) v
  | inr (pos, e) ↦ rw (update-found token next pos r e) (λ other h.
      lookup-assign token other next r.positions ∙ ground (arith, v other h, v token, e))
]

pub unregister-IsValid :
    (token : ℕ) (r : FollowerRegistry) → IsValid r → IsValid (unregister token r)
unfolding unregister
unregister-IsValid token r v = λ t h. lookup-erase token t r.positions ∙ ground (arith, v t h)
