-- ===== src/Lsm/Iterator.antt =====
-- lsm/iterators/iterator.hpp: the interface of the tree's iterators, with what every
-- implementation promises, and the loop `while (it->HasMore()) { ... it->Next() ... }`.
use structuredb.Base.{
  ℕ, zero, suc, ◌<◌, ◌≡◌, refl, Bool, true, false, Option, none, some, List, [], ◌∷◌, arith, length,
}
use structuredb.Lsm.Types.{Record}

-- What a call of `Next` must do when the records to come begin with `r`.
pub record NextIs {It : Type 0} (next : It → Option (Record × It)) (contents : It → List Record)
    (valid : It → Type 0) (it : It) (r : Record) (rest : List Record) : Type 0 where
  pub after : It
  pub next_eq : next it ≡ some (r, after)
  pub after_eq : contents after ≡ rest
  pub after_valid : valid after

-- `HasMore`, `Next`, the records that the iterator is still to return, and what its position
-- must satisfy.
pub record IteratorOps (It : Type 0) : Type 1 where
  pub has_more : It → Bool
  pub next : It → Option (Record × It)
  pub contents : It → List Record
  pub valid : It → Type 0
  pub more_lem :
      (it : It) (r : Record) (rest : List Record)
      → valid it
      → contents it ≡ r ∷ rest
      → has_more it ≡ true
  pub done_lem : (it : It) → valid it → contents it ≡ [] → has_more it ≡ false
  pub next_lem :
      (it : It) (r : Record) (rest : List Record)
      → valid it
      → contents it ≡ r ∷ rest
      → NextIs next contents valid it r rest

module _ {It : Type 0} (ops : IteratorOps It) where
  open ops use {has_more, next, contents, valid}

  -- The records that the loop reads. `none` is a read behind the end, or fuel that ran out.
  unfoldable pub drain : ℕ → It → Option (List Record)
  drain zero it = none
  drain (suc fuel) it = elim (has_more it) [
    | false ↦ some []
    | true ↦ elim (next it) [
      | none ↦ none
      | some (r, it') ↦ elim (drain fuel it') [ none ↦ none | some rs ↦ some (r ∷ rs) ]
    ]
  ]

  -- The loop reads the records to come, in order, with more fuel than there are of them.
  pub drain-list :
      (fuel : ℕ) (it : It) (rs : List Record)
      → valid it
      → contents it ≡ rs
      → length rs < fuel
      → drain fuel it ≡ some rs
  unfolding drain
  drain-list zero it rs v e h = absurd (omega arith)
  drain-list (suc fuel) it [] v e h = rw (ops.done_lem it v e, drain)
  drain-list (suc fuel) it (r ∷ rs) v e h =
      let n = ops.next_lem it r rs v e in
      rw (
        ops.more_lem it r rs v e,
        n.next_eq,
        drain-list fuel n.after rs n.after_valid n.after_eq (omega arith),
        drain,
      )

  -- With more fuel than records the loop ends by its test, and reads them all in order.
  pub drain-contents :
      (fuel : ℕ) (it : It)
      → valid it
      → length (contents it) < fuel
      → drain fuel it ≡ some (contents it)
  drain-contents fuel it v h = drain-list fuel it (contents it) v refl h
