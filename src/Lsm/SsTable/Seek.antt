-- ===== src/Lsm/SsTable/Seek.antt =====
-- The binary search over the pages of a table.
use structuredb.Base.{
  ℕ, zero, suc, ◌+◌, ◌-◌, ◌/◌, ◌≤◌, ◌<◌, ◌≡◌, refl, false, none, some, List, [], ◌∷◌, ◌++◌, arith,
  if◌then◌else◌, length, get_elem?, ltb, Bool-cases, inl, inr, All, subst, some_inj, All-left,
  All-right, All-get,
}
use structuredb.Base.Str.{Str, str_lt}
use structuredb.Lsm.Types.{Record}
use structuredb.Lsm.Range.{IsKeySorted, str_le_trans}
use structuredb.Lsm.Page.{Page, max_key}
use structuredb.Lsm.SsTable.{SsTable, page_count, page_max_key, lower_bound_loop, lower_bound}

-- The records of all pages, in order.
unfoldable pub flat : List Page → List Record
flat [] = []
flat (p ∷ ps) = p ++ flat ps

-- No page is empty.
abbrev pub Filled : List Page → Type 0
Filled = All (λ p. 0 < length p)

-- The number of leading pages whose last key is below the bound.
unfoldable pub pages_below : Str → List Page → ℕ
pages_below key [] = 0
pages_below key (p ∷ ps) = elim (max_key p) [
  | none ↦ 0
  | some m ↦ if str_lt m key then suc (pages_below key ps) else 0
]

pub max_key_of_filled : (p : Page) → 0 < length p → (m : Str) × (max_key p ≡ some m)
unfolding max_key
max_key_of_filled [] h = absurd (omega arith)
max_key_of_filled (r ∷ []) h = (r.key, refl)
max_key_of_filled (r ∷ x ∷ rs) h = max_key_of_filled (x ∷ rs) (omega arith)

pub sorted_left : (xs ys : List Record) → IsKeySorted (xs ++ ys) → IsKeySorted xs
sorted_left [] ys h = tt
sorted_left (x ∷ xs) ys h = (All-left _ xs ys h.0, sorted_left xs ys h.1)

pub sorted_right : (xs ys : List Record) → IsKeySorted (xs ++ ys) → IsKeySorted ys
sorted_right [] ys h = h
sorted_right (x ∷ xs) ys h = sorted_right xs ys h.1

-- Behind a page no key is below the page's last.
rest_above :
    (q : Page) (rest : List Record) (m : Str)
    → IsKeySorted (q ++ rest)
    → max_key q ≡ some m
    → All (λ y. str_lt y.key m ≡ false) rest
unfolding max_key
rest_above [] rest m h e = cc
rest_above (r ∷ []) rest m h e =
    subst (λ k. All (λ y. str_lt y.key k ≡ false) rest) (some_inj e) h.0
rest_above (r ∷ x ∷ rs) rest m h e = rest_above (x ∷ rs) rest m h.1 e

max_key_holds :
    (m k : Str) (p : Page)
    → All (λ y. str_lt y.key m ≡ false) p
    → max_key p ≡ some k
    → str_lt k m ≡ false
unfolding max_key
max_key_holds m k [] h e = cc
max_key_holds m k (r ∷ []) h e = subst (λ k. str_lt k m ≡ false) (some_inj e) h.0
max_key_holds m k (r ∷ x ∷ rs) h e = max_key_holds m k (x ∷ rs) h.1 e

page_above :
    (m k : Str) (ps : List Page) (i : ℕ) (p : Page)
    → All (λ y. str_lt y.key m ≡ false) (flat ps)
    → get_elem? ps i ≡ some p
    → max_key p ≡ some k
    → str_lt k m ≡ false
unfolding flat
page_above m k [] i p h e u = cc
page_above m k (q ∷ ps) zero p h e u =
    max_key_holds m k p (subst (All _) (some_inj e) (All-left _ q (flat ps) h)) u
page_above m k (q ∷ ps) (suc i) p h e u = page_above m k ps i p (All-right _ q (flat ps) h) e u

-- A page's last key is below the bound exactly if the page is one of the leading ones.
pub pages_below_iff :
    (key : Str) (ps : List Page) (i : ℕ) (p : Page) (m : Str)
    → IsKeySorted (flat ps)
    → Filled ps
    → get_elem? ps i ≡ some p
    → max_key p ≡ some m
    → str_lt m key ≡ ltb i (pages_below key ps)
unfolding flat pages_below
pages_below_iff key [] i p m s f e k = cc
pages_below_iff key (q ∷ ps) zero p m s f e k = ground arith
pages_below_iff key (q ∷ ps) (suc i) p m s f e k =
    let (n, last) = max_key_of_filled q f.0 in
    rw (last, pages_below)
      (ground (
        arith,
        pages_below_iff key ps i p m (sorted_right q _ s) f.1 e k,
        page_above n m ps i p (rest_above q (flat ps) n s last) e k,
        str_le_trans key n m,
      ))

pub pages_below-le : (key : Str) (ps : List Page) → pages_below key ps ≤ length ps
unfolding pages_below
pages_below-le key [] = omega arith
pages_below-le key (p ∷ ps) = ground (arith, pages_below-le key ps)

get_some : (ps : List Page) (i : ℕ) → i < length ps → (p : Page) × (get_elem? ps i ≡ some p)
get_some [] i h = absurd (omega arith)
get_some (p ∷ ps) zero h = (p, refl)
get_some (p ∷ ps) (suc i) h = get_some ps i (omega arith)

page_max_key-some :
    (t : SsTable) (i : ℕ)
    → Filled t.pages
    → i < page_count t
    → (p : Page) × (m : Str) × (get_elem? t.pages i ≡ some p)
      × (max_key p ≡ some m)
      × (page_max_key i t ≡ some m)
unfolding page_max_key
page_max_key-some t i f h =
    let (p, e) = get_some t.pages i h in
    let (m, k) = max_key_of_filled p (All-get _ t.pages i p f e) in
    (p, m, e, k, rw (e, page_max_key) k)

lower_bound_loop_lem :
    (fuel : ℕ) (key : Str) (t : SsTable) (lo hi : ℕ)
    → IsKeySorted (flat t.pages)
    → Filled t.pages
    → lo ≤ pages_below key t.pages
    → pages_below key t.pages ≤ hi
    → hi ≤ page_count t
    → hi - lo < fuel
    → lower_bound_loop fuel key t lo hi ≡ some (pages_below key t.pages)
unfolding lower_bound_loop
lower_bound_loop_lem zero key t lo hi s f a b c d = absurd (omega arith)
lower_bound_loop_lem (suc fuel) key t lo hi s f a b c d = elim (Bool-cases (ltb lo hi)) [
  | inl more ↦
      let mid : ℕ = lo + (hi - lo) / 2 in
      let inside : mid < hi = ground arith in
      let (p, m, e, k, found) = page_max_key-some t mid f (omega arith) in
      rw (more, found, lower_bound_loop)
        (elim (Bool-cases (str_lt m key)) [
          | inl below ↦
              rw (below, lower_bound_loop)
                (lower_bound_loop_lem fuel key t (mid + 1) hi s f
                  (ground (arith, pages_below_iff key t.pages mid p m s f e k)) b c (omega arith))
          | inr above ↦
              rw (above, lower_bound_loop)
                (lower_bound_loop_lem fuel key t lo mid s f a
                  (ground (arith, pages_below_iff key t.pages mid p m s f e k)) (omega arith)
                  (ground arith))
        ])
  | inr done ↦ rw (done, lower_bound_loop) (ground arith)
]

-- On a table that is sorted by key and has no empty page the binary search ends within its rounds,
-- and finds the first page whose last key reaches the bound, or the number of pages if there is
-- none.
pub lower_bound_lem :
    (key : Str) (t : SsTable)
    → IsKeySorted (flat t.pages)
    → Filled t.pages
    → lower_bound key t ≡ some (pages_below key t.pages)
unfolding lower_bound
lower_bound_lem key t s f =
    lower_bound_loop_lem (page_count t + 1) key t 0 (page_count t) s f (omega arith)
      (pages_below-le key t.pages) (omega arith) (omega arith)
