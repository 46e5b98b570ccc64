-- ===== src/Lsm/Merge.antt =====
-- lsm/iterators/merge_iterator.cpp, over any iterators that keep the interface. The
-- `std::priority_queue` is the list of its items; its top is an item with the least record.
pub mod Sort
pub mod Laws
pub mod Drain
use structuredb.Base.{ℕ, Bool, true, false, not, Option, none, some, List, [], ◌∷◌, if◌then◌else◌}
use structuredb.Lsm.Types.{Record, record_lt}
use structuredb.Lsm.Iterator.{IteratorOps}

pub record Item (It : Type 0) : Type 0 where
  pub item : Record
  pub iterator : It

module _ {It : Type 0} where
  -- `Item::operator<`: the queue puts the greatest first, so the comparison is turned round.
  unfoldable pub item_lt : Item It → Item It → Bool
  item_lt a b = record_lt b.item a.item

  -- `top` and `pop` of a queue that is not empty.
  unfoldable pub pop_top : Item It → List (Item It) → Item It × List (Item It)
  unfolding item_lt
  pop_top x [] = (x, [])
  pop_top x (y ∷ ys) =
      let (top, rest) = pop_top y ys in if item_lt x top then (top, x ∷ rest) else (x, y ∷ ys)

  unfoldable pub has_more : List (Item It) → Bool
  has_more [] = false
  has_more (x ∷ xs) = true

module _ {It : Type 0} (ops : IteratorOps It) where
  -- `Add`
  unfoldable pub add : It → List (Item It) → Option (List (Item It))
  add it heap = elim (ops.has_more it) [
    | false ↦ some heap
    | true ↦ elim (ops.next it) [
      | none ↦ none
      | some (r, it') ↦ some (record { item = r; iterator = it' } ∷ heap)
    ]
  ]

  unfoldable pub create_from : List It → List (Item It) → Option (List (Item It))
  create_from [] heap = some heap
  create_from (it ∷ its) heap = elim (add it heap) [
    | none ↦ none
    | some heap' ↦ create_from its heap'
  ]

  -- `Create`
  abbrev pub create : List It → Option (List (Item It))
  create its = create_from its []

  unfoldable pub next : List (Item It) → Option (Record × List (Item It))
  next [] = none
  next (x ∷ xs) =
      let (top, rest) = pop_top x xs in
      elim (add top.iterator rest) [ none ↦ none | some heap ↦ some (top.item, heap) ]
