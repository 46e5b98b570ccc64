-- ===== src/Lsm/Merge/Laws.antt =====
-- What a merge of sorted iterators returns.
use structuredb.Base.{
  ◌≡◌, ◌≢◌, cons_inj, refl, sym, ap, subst, ◌∙◌, true, false, some, List, [], ◌∷◌, arith, All,
  Bool-cases, inl, inr, if◌then◌else◌,
}
use structuredb.Lsm.Types.{Record, record_lt}
use structuredb.Lsm.Order.{IsSorted, record_lt_irrefl, record_le_trans, record_lt_trans}
use structuredb.Lsm.Iterator.{IteratorOps, NextIs}
use structuredb.Lsm.MemTable.{put}
use structuredb.Lsm.Merge.{Item, pop_top, has_more, add, next, item_lt}
use structuredb.Lsm.Merge.Sort.{put-least, sort_onto, sort_onto_comm, All-sort_onto}

module _ {It : Type 0} (ops : IteratorOps It) where
  -- All records that the items still hold, sorted.
  unfoldable pub pool : List (Item It) → List Record
  pool [] = []
  pool (x ∷ xs) = put x.item (sort_onto (ops.contents x.iterator) (pool xs))

  -- Each iterator is placed, and goes on with records that are not below the one taken from it.
  abbrev pub Ready : List (Item It) → Type 0
  Ready = All (λ x. ops.valid x.iterator × IsSorted (x.item ∷ ops.contents x.iterator))

  -- No record of the pool is below the given one.
  abbrev AtLeast : Record → List Record → Type 0
  AtLeast m = All (λ y. record_lt y m ≡ false)

  AtLeast-trans :
      (a b : Record) (xs : List Record) → record_lt b a ≡ false → AtLeast b xs → AtLeast a xs
  AtLeast-trans a b [] h k = tt
  AtLeast-trans a b (x ∷ xs) h k = (record_le_trans a b x h k.0, AtLeast-trans a b xs h k.1)

  abbrev block : Item It → List Record
  block x = x.item ∷ ops.contents x.iterator

  pool-cons : (x : Item It) (xs : List (Item It)) → pool (x ∷ xs) ≡ sort_onto (block x) (pool xs)
  unfolding pool sort_onto
  pool-cons x xs = refl

  pub pool-nil : pool [] ≡ []
  unfolding pool
  pool-nil = refl

  pool-swap : (x y : Item It) (xs : List (Item It)) → pool (x ∷ y ∷ xs) ≡ pool (y ∷ x ∷ xs)
  unfolding pool sort_onto
  pool-swap x y xs = sort_onto_comm (block x) (block y) (pool xs)

  pool-cong :
      (x : Item It) (xs ys : List (Item It)) → pool xs ≡ pool ys → pool (x ∷ xs) ≡ pool (x ∷ ys)
  unfolding pool
  pool-cong x xs ys e = rw e

  block-AtLeast :
      (m : Record) (x : Item It)
      → record_lt x.item m ≡ false
      → IsSorted (block x)
      → AtLeast m (block x)
  block-AtLeast m x h s = (h, AtLeast-trans m x.item (ops.contents x.iterator) h s.0)

  pool-AtLeast :
      (m : Record) (x : Item It) (xs : List (Item It))
      → record_lt x.item m ≡ false
      → IsSorted (block x)
      → AtLeast m (pool xs)
      → AtLeast m (pool (x ∷ xs))
  pool-AtLeast m x xs h s k =
      subst (AtLeast m) (sym (pool-cons x xs))
        (All-sort_onto (λ y. record_lt y m ≡ false) (block x) (pool xs) (block-AtLeast m x h s) k)

  -- What taking the top out leaves.
  record Popped (x : Item It) (xs : List (Item It)) : Type 0 where
    top : Item It
    rest : List (Item It)
    popped : pop_top x xs ≡ (top, rest)
    same : pool (x ∷ xs) ≡ pool (top ∷ rest)
    ready : Ready (top ∷ rest)
    least : AtLeast top.item (pool rest)

  pop_top-cons :
      (x y top : Item It) (ys rest : List (Item It))
      → pop_top y ys ≡ (top, rest)
      → pop_top x (y ∷ ys) ≡ (if record_lt top.item x.item then (top, x ∷ rest) else (x, y ∷ ys))
  unfolding pop_top item_lt
  pop_top-cons x y top ys rest e = rw (e, pop_top)

  pop_top_lem : (x : Item It) (xs : List (Item It)) → Ready (x ∷ xs) → Popped x xs
  unfolding pop_top
  pop_top_lem x [] v = record {
    top = x;
    rest = [];
    popped = refl;
    same = refl;
    ready = v;
    least = unfold pool in tt;
  }
  pop_top_lem x (y ∷ ys) v =
      let p = pop_top_lem y ys v.1 in
      let next_pop = pop_top-cons x y p.top ys p.rest p.popped in
      elim (Bool-cases (record_lt p.top.item x.item)) [
        | inl less ↦ record {
          top = p.top;
          rest = x ∷ p.rest;
          popped = rw less at next_pop;
          same = pool-cong x _ _ p.same ∙ pool-swap x p.top p.rest;
          ready = (p.ready.0, (v.0, p.ready.1));
          least =
              pool-AtLeast p.top.item x p.rest
                (ground (arith, record_lt_trans x.item p.top.item x.item, record_lt_irrefl x.item))
                v.0.1 p.least;
        }
        | inr not_less ↦ record {
          top = x;
          rest = y ∷ ys;
          popped = rw not_less at next_pop;
          same = refl;
          ready = v;
          least = subst (AtLeast x.item) (sym p.same) (
              pool-AtLeast x.item p.top p.rest not_less p.ready.0.1
                (AtLeast-trans x.item p.top.item (pool p.rest) not_less p.least));
        }
      ]

  -- What adding an iterator does: its records join the pool.
  pub record Added (it : It) (heap : List (Item It)) : Type 0 where
    pub after : List (Item It)
    pub added : add ops it heap ≡ some after
    pub joined : pool after ≡ sort_onto (ops.contents it) (pool heap)
    pub still_ready : Ready after

  pub add_lem :
      (it : It) (heap : List (Item It)) (rs : List Record)
      → ops.contents it ≡ rs
      → ops.valid it
      → IsSorted rs
      → Ready heap
      → Added it heap
  unfolding add pool sort_onto
  add_lem it heap [] e v s r = record {
    after = heap;
    added = rw (ops.done_lem it v e, add);
    joined = rw e;
    still_ready = r;
  }
  add_lem it heap (x ∷ rs) e v s r =
      let n = ops.next_lem it x rs v e in
      record {
        after = record { item = x; iterator = n.after } ∷ heap;
        added = rw (ops.more_lem it x rs v e, n.next_eq, add);
        joined = rw (e, n.after_eq);
        still_ready = ((n.after_valid, rw n.after_eq s), r);
      }

  pub more_lem :
      (heap : List (Item It)) (r : Record) (rest : List Record)
      → Ready heap
      → pool heap ≡ r ∷ rest
      → has_more heap ≡ true
  unfolding pool has_more
  more_lem [] r rest v e = cc
  more_lem (x ∷ xs) r rest v e = refl

  put-ne-nil : (r : Record) (xs : List Record) → put r xs ≢ []
  unfolding put
  put-ne-nil r [] e = cc
  put-ne-nil r (x ∷ xs) e = ground arith

  pub done_lem : (heap : List (Item It)) → Ready heap → pool heap ≡ [] → has_more heap ≡ false
  unfolding pool has_more
  done_lem [] v e = refl
  done_lem (x ∷ xs) v e = absurd (put-ne-nil _ _ e)

  next_eq_of :
      (x top : Item It) (xs rest heap : List (Item It))
      → pop_top x xs ≡ (top, rest)
      → add ops top.iterator rest ≡ some heap
      → next ops (x ∷ xs) ≡ some (top.item, heap)
  unfolding next
  next_eq_of x top xs rest heap p a = rw (p, a, next) (ap (λ z. some (z.0.item, heap)) p)

  -- The top goes first, and the pool that is left is the tail.
  pool-top :
      (x : Item It) (rest : List (Item It))
      → Ready (x ∷ rest)
      → AtLeast x.item (pool rest)
      → pool (x ∷ rest) ≡ x.item ∷ sort_onto (ops.contents x.iterator) (pool rest)
  unfolding pool
  pool-top x rest v h = put-least x.item _ (
      All-sort_onto (λ y. record_lt y x.item ≡ false) (ops.contents x.iterator) (pool rest) v.0.1.0
        h)

  pub next_lem :
      (heap : List (Item It)) (r : Record) (rest : List Record)
      → Ready heap
      → pool heap ≡ r ∷ rest
      → NextIs (next ops) pool Ready heap r rest
  next_lem [] r rest v e = unfold pool in cc
  next_lem (x ∷ xs) r rest v e =
      let p = pop_top_lem x xs v in
      let a =
        add_lem p.top.iterator p.rest (ops.contents p.top.iterator) refl p.ready.0.0 p.ready.0.1.1
          p.ready.1 in
      let (heads, tails) = cons_inj (sym e ∙ p.same ∙ pool-top p.top p.rest p.ready p.least) in
      record {
        after = a.after;
        next_eq =
            next_eq_of x p.top xs p.rest a.after p.popped a.added
            ∙ ap (λ z. some (z, a.after)) (sym heads);
        after_eq = a.joined ∙ sym tails;
        after_valid = a.still_ready;
      }

  abbrev pub merge_ops : IteratorOps (List (Item It))
  merge_ops = record {
    has_more = has_more;
    next = next ops;
    contents = pool;
    valid = Ready;
    more_lem = more_lem;
    done_lem = done_lem;
    next_lem = next_lem;
  }
