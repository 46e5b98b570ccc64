-- ===== src/Replication/Registry.antt =====
-- replication/follower_registry.cpp: the positions that the connected followers still need. A segment
-- number that is `none` is -1, below all others. The lock of the registry makes each operation one step.
pub mod Retention
use structuredb.Base.{
  ℕ, ◌+◌, Bool, true, false, Option, none, some, List, [], ◌∷◌, leb, if◌then◌else◌,
}
use structuredb.Base.Assoc.{nat_key, lookup, assign, erase}
use structuredb.Wal.Reader.{Position}

pub record FollowerRegistry : Type 0 where
  pub next_token : ℕ
  pub positions : List (ℕ × Position)

abbrev pub empty_registry : FollowerRegistry
empty_registry = record { next_token = 0; positions = [] }

-- `Register`: the token, and the registry. `emplace` keeps a position that is there.
unfoldable pub register : Position → FollowerRegistry → ℕ × FollowerRegistry
register from r = (
  r.next_token,
  record {
    next_token = r.next_token + 1;
    positions = elim (lookup r.next_token r.positions) [
      | none ↦ assign r.next_token from r.positions
      | some pos ↦ r.positions
    ];
  },
)

unfoldable pub update : ℕ → Position → FollowerRegistry → FollowerRegistry
update token next_needed r = elim (lookup token r.positions) [
  | none ↦ r
  | some pos ↦ record r { positions = assign token next_needed r.positions }
]

unfoldable pub unregister : ℕ → FollowerRegistry → FollowerRegistry
unregister token r = record r { positions = erase token r.positions }

-- `a <= b` on segment numbers.
abbrev pub no_le : Option ℕ → Option ℕ → Bool
no_le none b = true
no_le (some a) none = false
no_le (some a) (some b) = leb a b

-- `std::min`
abbrev pub no_min : Option ℕ → Option ℕ → Option ℕ
no_min a b = if no_le a b then a else b

-- The loop of `MinRetainedSegment`.
unfoldable pub min_loop : Option ℕ → List (ℕ × Position) → Option ℕ
min_loop min_segment [] = min_segment
min_loop min_segment ((token, pos) ∷ ps) = min_loop (no_min min_segment pos.segment_no) ps

unfoldable pub min_retained_segment : FollowerRegistry → Option (Option ℕ)
unfolding min_loop
min_retained_segment r = elim r.positions [
  | [] ↦ none
  | (first ∷ ps) ↦ some (min_loop first.1.segment_no (first ∷ ps))
]
