-- ===== src/Lsm/SsTable/Walk.antt =====
-- Walking over the pages of a table from a position on, as `NextImpl` does.
use structuredb.Base.{
  ℕ, zero, suc, ◌≤◌, ◌<◌, ◌≡◌, refl, true, false, Option, none, some, List, [], ◌∷◌, ◌++◌, arith,
  length, get_elem?, leb, drop, Bool-cases, inl, inr,
}
use structuredb.Lsm.Types.{Record}
use structuredb.Lsm.Iterator.{IteratorOps, NextIs}
use structuredb.Lsm.Range.{below_upper, take_while}
use structuredb.Lsm.Page.{Page}
use structuredb.Lsm.SsTable.{SsTableIterator, page_count, next_impl, has_more, next}
use structuredb.Lsm.SsTable.Seek.{flat, Filled}
use native.Mathlib.Numerals.{add-one}

-- The records from a position on.
unfoldable pub rest_at : List Page → ℕ → ℕ → List Record
rest_at [] p r = []
rest_at (q ∷ ps) zero r = drop r q ++ flat ps
rest_at (q ∷ ps) (suc p) r = rest_at ps p r

-- A position points to a record, or behind the last page.
abbrev pub Placed : List Page → ℕ → ℕ → Type 0
Placed [] p r = Unit
Placed (q ∷ ps) zero r = r < length q
Placed (q ∷ ps) (suc p) r = Placed ps p r

drop_get :
    (q : Page) (r : ℕ)
    → r < length q
    → (x : Record) × (get_elem? q r ≡ some x) × (drop r q ≡ x ∷ drop (suc r) q)
drop_get [] r h = absurd (omega arith)
drop_get (x ∷ q) zero h = (x, refl, refl)
drop_get (x ∷ q) (suc r) h = drop_get q r (omega arith)

drop_all : (q : Page) (r : ℕ) → length q ≤ r → drop r q ≡ []
drop_all [] zero h = refl
drop_all [] (suc r) h = refl
drop_all (x ∷ q) zero h = absurd (omega arith)
drop_all (x ∷ q) (suc r) h = drop_all q r (omega arith)

pub rest_at_end : (ps : List Page) (p r : ℕ) → length ps ≤ p → rest_at ps p r ≡ []
unfolding rest_at
rest_at_end [] p r h = refl
rest_at_end (q ∷ ps) zero r h = absurd (omega arith)
rest_at_end (q ∷ ps) (suc p) r h = rest_at_end ps p r (omega arith)

pub rest_at_first : (ps : List Page) → rest_at ps 0 0 ≡ flat ps
unfolding rest_at flat
rest_at_first [] = refl
rest_at_first (q ∷ ps) = refl

pub Placed-first : (ps : List Page) (p : ℕ) → Filled ps → Placed ps p 0
Placed-first [] p f = tt
Placed-first (q ∷ ps) zero f = f.0
Placed-first (q ∷ ps) (suc p) f = Placed-first ps p f.1

-- The record at a position, and the position behind it.
record Here (ps : List Page) (p r : ℕ) : Type 0 where
  page : Page
  item : Record
  page_eq : get_elem? ps p ≡ some page
  item_eq : get_elem? page r ≡ some item
  within : leb (length page) (suc r) ≡ false → Placed ps p (suc r)
  split_last : leb (length page) (suc r) ≡ true → rest_at ps p r ≡ item ∷ rest_at ps (suc p) 0
  split_mid : leb (length page) (suc r) ≡ false → rest_at ps p r ≡ item ∷ rest_at ps p (suc r)

here : (ps : List Page) (p r : ℕ) → Placed ps p r → p < length ps → Here ps p r
unfolding rest_at
here [] p r v h = absurd (omega arith)
here (q ∷ ps) zero r v h =
    let (x, e, d) = drop_get q r v in
    record {
      page = q;
      item = x;
      page_eq = refl;
      item_eq = e;
      within = λ l. ground arith;
      split_last = λ l. rw (d, drop_all q (suc r) (ground arith), rest_at_first ps);
      split_mid = λ l. rw d;
    }
here (q ∷ ps) (suc p) r v h =
    let n = here ps p r v (omega arith) in
    record {
      page = n.page;
      item = n.item;
      page_eq = n.page_eq;
      item_eq = n.item_eq;
      within = n.within;
      split_last = n.split_last;
      split_mid = n.split_mid;
    }

-- The iterator's position and the record that it holds ready.
unfoldable pub rest_of : SsTableIterator → List Record
rest_of i = rest_at i.ss_table.pages i.current_page i.current_record

abbrev pub IsValid : SsTableIterator → Type 0
IsValid i = Filled i.ss_table.pages × Placed i.ss_table.pages i.current_page i.current_record

unfoldable pub contents : SsTableIterator → List Record
contents i = elim i.next_record [
  | none ↦ []
  | some r ↦ take_while (below_upper i.range.upper_bound) (r ∷ rest_of i)
]

abbrev pub with_rest : Option Record → List Record → List Record
with_rest none rest = []
with_rest (some r) rest = r ∷ rest

-- What `NextImpl` returns: the record at the position, and a position behind it.
pub record Fetched (i : SsTableIterator) : Type 0 where
  pub item : Option Record
  pub page_no : ℕ
  pub record_no : ℕ
  pub fetched :
      next_impl i ≡ some (item, record i { current_page = page_no; current_record = record_no })
  pub placed : Placed i.ss_table.pages page_no record_no
  pub rest_eq : rest_of i ≡ with_rest item (rest_at i.ss_table.pages page_no record_no)

pub next_impl_lem : (i : SsTableIterator) → IsValid i → Fetched i
unfolding next_impl rest_of
next_impl_lem i (f, v) = elim (Bool-cases (leb (page_count i.ss_table) i.current_page)) [
  | inl done ↦ record {
    item = none;
    page_no = i.current_page;
    record_no = i.current_record;
    fetched = rw (done, next_impl);
    placed = v;
    rest_eq = rest_at_end i.ss_table.pages i.current_page i.current_record (ground arith);
  }
  | inr more ↦
      let n = here i.ss_table.pages i.current_page i.current_record v (ground arith) in
      elim (Bool-cases (leb (length n.page) (suc i.current_record))) [
        | inl last ↦ record {
          item = some n.item;
          page_no = suc i.current_page;
          record_no = 0;
          fetched =
              rw (more, n.page_eq, n.item_eq, add-one i.current_record, last, next_impl)
                (ground arith);
          placed = Placed-first i.ss_table.pages (suc i.current_page) f;
          rest_eq = n.split_last last;
        }
        | inr mid ↦ record {
          item = some n.item;
          page_no = i.current_page;
          record_no = suc i.current_record;
          fetched = rw (more, n.page_eq, n.item_eq, add-one, mid, next_impl) (ground arith);
          placed = n.within mid;
          rest_eq = n.split_mid mid;
        }
      ]
]

pub more_lem :
    (i : SsTableIterator) (r : Record) (rest : List Record)
    → IsValid i
    → contents i ≡ r ∷ rest
    → has_more i ≡ true
unfolding contents take_while has_more
more_lem i r rest v e = ground arith

pub done_lem : (i : SsTableIterator) → IsValid i → contents i ≡ [] → has_more i ≡ false
unfolding contents take_while has_more
done_lem i v e = ground arith

held :
    (i : SsTableIterator) (r : Record) (rest : List Record)
    → contents i ≡ r ∷ rest
    → (i.next_record ≡ some r) × (take_while (below_upper i.range.upper_bound) (rest_of i) ≡ rest)
unfolding contents take_while
held i r rest e = ground arith

next_eq_of :
    (i i' : SsTableIterator) (r : Record) (item : Option Record)
    → next_impl i ≡ some (item, i')
    → i.next_record ≡ some r
    → next i ≡ some (r, record i' { next_record = item })
unfolding next
next_eq_of i i' r item e ready = ground arith

after_next :
    (i : SsTableIterator) (r : Record) (rest : List Record)
    → IsValid i
    → i.next_record ≡ some r
    → take_while (below_upper i.range.upper_bound) (rest_of i) ≡ rest
    → Fetched i
    → NextIs next contents IsValid i r rest
unfolding contents take_while rest_of
after_next i r rest v ready tail n = record {
  after = record i { current_page = n.page_no; current_record = n.record_no; next_record = n.item };
  next_eq = next_eq_of i _ r n.item n.fetched ready;
  after_eq = ground (arith, n.rest_eq, tail);
  after_valid = (v.0, n.placed);
}

pub next_lem :
    (i : SsTableIterator) (r : Record) (rest : List Record)
    → IsValid i
    → contents i ≡ r ∷ rest
    → NextIs next contents IsValid i r rest
next_lem i r rest v e =
    let (ready, tail) = held i r rest e in after_next i r rest v ready tail (next_impl_lem i v)

abbrev pub ss_table_ops : IteratorOps SsTableIterator
ss_table_ops = record {
  has_more = has_more;
  next = next;
  contents = contents;
  valid = IsValid;
  more_lem = more_lem;
  done_lem = done_lem;
  next_lem = next_lem;
}
