-- ===== src/Lsm/Merge/Drain.antt =====
-- A merge that is created and read to its end (lsm/iterators/merge_iterator.cpp).
use structuredb.Base.{
  ℕ, ◌<◌, length, ◌≡◌, refl, sym, ap, subst, ◌∙◌, some, List, [], ◌∷◌, ◌++◌, All,
}
use structuredb.Lsm.Types.{Record}
use structuredb.Lsm.Order.{IsSorted}
use structuredb.Lsm.Iterator.{IteratorOps, drain, drain-contents}
use structuredb.Lsm.Merge.{Item, create_from, create}
use mathlib.Core.List.{Perm, append-nil}
use structuredb.Lsm.Merge.Sort.{
  sort_onto, sort_onto-append, sort_onto-IsSorted, sort_onto-perm, sort_onto_comm,
}
use structuredb.Lsm.Merge.Laws.{pool, Ready, pool-nil, add_lem, merge_ops}

module _ {It : Type 0} (ops : IteratorOps It) where
  -- The records of several iterators, one after the other.
  unfoldable pub gather : List It → List Record
  gather [] = []
  gather (it ∷ its) = ops.contents it ++ gather its

  create_from_lem :
      (its : List It) (heap : List (Item It))
      → All (λ it. ops.valid it × IsSorted (ops.contents it)) its
      → Ready ops heap
      → (after : List (Item It)) × (create_from ops its heap ≡ some after)
        × (pool ops after ≡ sort_onto (gather its) (pool ops heap))
        × Ready ops after
  unfolding create_from sort_onto gather
  create_from_lem [] heap v r = (heap, refl, refl, r)
  create_from_lem (it ∷ its) heap v r =
      let a = add_lem ops it heap (ops.contents it) refl v.0.0 v.0.1 r in
      let (after, e, same, ready) = create_from_lem its a.after v.1 a.still_ready in
      (
        after,
        rw (a.added, create_from) e,
        same
            ∙ ap (sort_onto (gather its)) a.joined
            ∙ sort_onto_comm (gather its) (ops.contents it) (pool ops heap)
            ∙ sym (sort_onto-append (ops.contents it) (gather its) (pool ops heap)),
        ready,
      )

  -- What a merge of sorted iterators is to return when it is created.
  pub create_lem :
      (its : List It)
      → All (λ it. ops.valid it × IsSorted (ops.contents it)) its
      → (heap : List (Item It)) × (create ops its ≡ some heap)
        × Ready ops heap
        × IsSorted (pool ops heap)
        × Perm (pool ops heap) (gather its)
  create_lem its v =
      let (heap, e, same, ready) = create_from_lem its [] v tt in
      (
        heap,
        e,
        ready,
        subst IsSorted (sym (same ∙ ap (sort_onto (gather its)) (pool-nil ops)))
            (sort_onto-IsSorted (gather its) [] tt),
        subst (λ l. Perm l (gather its)) (sym (same ∙ ap (sort_onto (gather its)) (pool-nil ops)))
            (subst (Perm (sort_onto (gather its) [])) (append-nil (gather its))
              (sort_onto-perm (gather its) [])),
      )

  -- A merge of iterators that are each sorted can be created, and the loop over it ends by its test and
  -- reads all the records that they are to return, each as often as they have it, in sorted order.
  pub drain-create_merge :
      (its : List It)
      → All (λ it. ops.valid it × IsSorted (ops.contents it)) its
      → (heap : List (Item It)) × (found : List Record) × (create ops its ≡ some heap)
        × ((fuel : ℕ) → length found < fuel → drain (merge_ops ops) fuel heap ≡ some found)
        × IsSorted found
        × Perm found (gather its)
  drain-create_merge its v =
      let (heap, e, ready, sorted, perm) = create_lem its v in
      (
        heap,
        pool ops heap,
        e,
        λ fuel h. drain-contents (merge_ops ops) fuel heap ready h,
        sorted,
        perm,
      )
