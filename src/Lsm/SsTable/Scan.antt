-- ===== src/Lsm/SsTable/Scan.antt =====
-- Scanning a table: the iterator walks the pages from the lower bound on.
use structuredb.Base.{
  ℕ, ◌<◌, suc, ◌≡◌, refl, sym, ap, ◌∙◌, subst, true, Option, none, some, List, [], ◌∷◌, ◌++◌, arith,
  if◌then◌else◌, length, get_elem?, ltb, Bool-cases, inl, inr, ◌⊎◌, All, filter,
}
use structuredb.Base.Str.{Str, str_lt}
use structuredb.Lsm.Types.{Record, ScanRange}
use structuredb.Lsm.Order.{IsSorted}
use structuredb.Lsm.Range.{
  IsKeySorted, IsSorted-IsKeySorted, above_lower, below_upper, drop_until, take_while, in_range,
  cut-range,
}
use structuredb.Lsm.Page
use structuredb.Lsm.Page.{Page, max_key, find_lem, drop_until-below}
use structuredb.Lsm.SsTable.{SsTable, SsTableIterator, seek, scan}
use structuredb.Lsm.SsTable.Seek.{
  flat, Filled, pages_below, max_key_of_filled, lower_bound_lem, sorted_left, sorted_right,
}
use structuredb.Lsm.SsTable.Walk.{
  rest_at, Placed, rest_at_end, rest_at_first, Placed-first, rest_of, IsValid, contents, with_rest,
  Fetched, next_impl_lem, ss_table_ops,
}
use structuredb.Lsm.Iterator.{drain, drain-list}

drop_until-all : (xs : List Record) → xs ≡ drop_until (above_lower none) xs
unfolding drop_until
drop_until-all [] = refl
drop_until-all (x ∷ xs) = refl

-- A table as the builder writes it: sorted, and with no empty page.
pub record IsTable (t : SsTable) : Type 0 where
  pub sorted : IsKeySorted (flat t.pages)
  pub filled : Filled t.pages

-- A table whose records are in the order of the tree, and with no empty page.
pub record IsFull (t : SsTable) : Type 0 where
  pub in_order : IsSorted (flat t.pages)
  pub pages_filled : Filled t.pages

pub IsFull-IsTable : (t : SsTable) → IsFull t → IsTable t
IsFull-IsTable t v = record {
  sorted = IsSorted-IsKeySorted (flat t.pages) v.in_order;
  filled = v.pages_filled;
}

pub AllFull-AllTable : (ts : List SsTable) → All IsFull ts → All IsTable ts
AllFull-AllTable [] h = tt
AllFull-AllTable (t ∷ ts) h = (IsFull-IsTable t h.0, AllFull-AllTable ts h.1)

-- Where the scan starts, by recursion over the pages.
record Start (lower : Option Str) (t : SsTable) : Type 0 where
  page_no : ℕ
  record_no : ℕ
  seek_eq : seek lower t ≡ some (page_no, record_no)
  placed : Placed t.pages page_no record_no
  rest_eq : rest_at t.pages page_no record_no ≡ drop_until (above_lower lower) (flat t.pages)

-- What the search may have found at the page `n`: no record reaches the bound, or the page holds
-- the first that does.
abbrev Sought : Str → List Page → ℕ → Type 0
Sought key ps n =
    ((n ≡ length ps) × (drop_until (above_lower (some key)) (flat ps) ≡ []))
    ⊎ ((p : Page) × (get_elem? ps n ≡ some p)
        × (ltb n (length ps) ≡ true)
        × Placed ps n (Page.find key p)
        × (rest_at ps n (Page.find key p) ≡ drop_until (above_lower (some key)) (flat ps)))

pages_below-cons :
    (key m : Str) (q : Page) (ps : List Page)
    → max_key q ≡ some m
    → pages_below key (q ∷ ps) ≡ (if str_lt m key then suc (pages_below key ps) else 0)
unfolding pages_below
pages_below-cons key m q ps e = rw (e, pages_below)

Sought-cons :
    (key m : Str) (q : Page) (ps : List Page) (n : ℕ)
    → drop_until (above_lower (some key)) (q ++ flat ps)
      ≡ drop_until (above_lower (some key)) (flat ps)
    → Sought key ps n
    → Sought key (q ∷ ps) (suc n)
unfolding flat rest_at
Sought-cons key m q ps n same (inl (e, none_left)) = inl (ap suc e, same ∙ none_left)
Sought-cons key m q ps n same (inr (p, g, l, v, e)) = inr (p, g, ground arith, v, e ∙ sym same)

place_below :
    (key : Str) (ps : List Page)
    → IsKeySorted (flat ps)
    → Filled ps
    → Sought key ps (pages_below key ps)
unfolding flat rest_at drop_until
place_below key [] s f = inl (unfold pages_below in refl, refl)
place_below key (q ∷ ps) s f =
    let (m, last) = max_key_of_filled q f.0 in
    let count = pages_below-cons key m q ps last in
    let rest = place_below key ps (sorted_right q _ s) f.1 in
    elim (Bool-cases (str_lt m key)) [
      | inl below ↦ subst (Sought key (q ∷ ps)) (sym (rw below at count)) (
          Sought-cons key m q ps _
            (drop_until-below key m q (flat ps) (sorted_left q _ s) last below) rest)
      | inr above ↦
          let (inside, e) = find_lem key m q (flat ps) last above in
          subst (Sought key (q ∷ ps)) (sym (rw above at count))
            (inr (q, refl, ground arith, inside, sym e))
    ]

Start-of :
    (key : Str) (t : SsTable)
    → IsTable t
    → Sought key t.pages (pages_below key t.pages)
    → Start (some key) t
unfolding seek
Start-of key t v (inl (e, none_left)) = record {
  page_no = pages_below key t.pages;
  record_no = 0;
  seek_eq = rw (lower_bound_lem key t v.sorted v.filled, seek) (ground arith);
  placed = Placed-first t.pages _ v.filled;
  rest_eq = rest_at_end t.pages _ 0 (omega arith) ∙ sym none_left;
}
Start-of key t v (inr (p, g, l, here, e)) = record {
  page_no = pages_below key t.pages;
  record_no = Page.find key p;
  seek_eq = rw (lower_bound_lem key t v.sorted v.filled, seek, l, g);
  placed = here;
  rest_eq = e;
}

start : (lower : Option Str) (t : SsTable) → IsTable t → Start lower t
unfolding seek
start none t v = record {
  page_no = 0;
  record_no = 0;
  seek_eq = refl;
  placed = Placed-first t.pages 0 v.filled;
  rest_eq = rest_at_first t.pages ∙ drop_until-all (flat t.pages);
}
start (some key) t v = Start-of key t v (place_below key t.pages v.sorted v.filled)

-- The iterator of a scan is placed on the table, and what it will return is the range.
record Opened (range : ScanRange) (t : SsTable) : Type 0 where
  iterator : SsTableIterator
  scan_eq : scan range t ≡ some iterator
  is_valid : IsValid iterator
  contents_eq : contents iterator ≡ filter (in_range range) (flat t.pages)

take_while-with_rest :
    (upper : Option Str) (item : Option Record) (rest : List Record)
    → take_while (below_upper upper) (with_rest item rest)
      ≡ elim item [ none ↦ [] | some r ↦ take_while (below_upper upper) (r ∷ rest) ]
unfolding take_while
take_while-with_rest upper none rest = refl
take_while-with_rest upper (some r) rest = refl

open_from :
    (range : ScanRange) (t : SsTable)
    → IsTable t
    → (s : Start range.lower_bound t)
    → Fetched (record {
      ss_table = t;
      range = range;
      current_page = s.page_no;
      current_record = s.record_no;
      next_record = none;
    })
    → Opened range t
unfolding scan contents rest_of
open_from range t v s n = record {
  iterator = record {
    ss_table = t;
    range = range;
    current_page = n.page_no;
    current_record = n.record_no;
    next_record = n.item;
  };
  scan_eq = rw (s.seek_eq, scan) (ground (arith, n.fetched));
  is_valid = (v.filled, n.placed);
  contents_eq =
      sym (take_while-with_rest range.upper_bound n.item _)
      ∙ ap (take_while (below_upper range.upper_bound)) (sym n.rest_eq ∙ s.rest_eq)
      ∙ cut-range range (flat t.pages) v.sorted;
}

scan_opens : (range : ScanRange) (t : SsTable) → IsTable t → Opened range t
scan_opens range t v =
    let s = start range.lower_bound t v in
    open_from range t v s (next_impl_lem _ (v.filled, s.placed))

-- Where a scan of a table that is sorted by key and has no empty page begins.
pub table_scan-range :
    (range : ScanRange) (t : SsTable)
    → IsTable t
    → (i : SsTableIterator) × (scan range t ≡ some i)
      × IsValid i
      × (contents i ≡ filter (in_range range) (flat t.pages))
table_scan-range range t v =
    let o = scan_opens range t v in (o.iterator, o.scan_eq, o.is_valid, o.contents_eq)

-- A scan of a table that is sorted by key and has no empty page can be begun, and the loop over it never
-- reads a missing page: it ends by its test and reads exactly the records whose keys lie in the range, both
-- ends included, in the order of the table.
pub drain-table_scan :
    (range : ScanRange) (t : SsTable) (fuel : ℕ)
    → IsTable t
    → length (filter (in_range range) (flat t.pages)) < fuel
    → (i : SsTableIterator) × (scan range t ≡ some i)
      × (drain ss_table_ops fuel i ≡ some (filter (in_range range) (flat t.pages)))
drain-table_scan range t fuel v h =
    let (i, e, w, c) = table_scan-range range t v in
    (i, e, drain-list ss_table_ops fuel i (filter (in_range range) (flat t.pages)) w c h)
