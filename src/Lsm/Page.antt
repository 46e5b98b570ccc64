-- ===== src/Lsm/Page.antt =====
-- lsm/disk/page.cpp: a loaded page. The parallel vectors `keys_`, `seq_nos_` and `values_` are one
-- list of records.
use structuredb.Base.{
  ℕ, suc, ◌<◌, ◌≡◌, true, false, Option, none, some, List, [], ◌∷◌, ◌++◌, arith, if◌then◌else◌,
  length, get_elem?, drop,
}
use structuredb.Base.Str.{Str, str_lt, str_lt_trans, str_lt_total, str_lt_irrefl}
use structuredb.Lsm.Types.{Record}
use structuredb.Lsm.Range.{IsKeySorted, above_lower, drop_until, str_le_trans}

abbrev pub Page : Type 0
Page = List Record

-- `std::ranges::lower_bound` over the keys, as an offset.
unfoldable pub find : Str → Page → ℕ
find key [] = 0
find key (r ∷ rs) = if str_lt r.key key then suc (find key rs) else 0

-- Behind the end of the vectors the access is undefined: `none`.
unfoldable pub at : Page → ℕ → Option Record
at page pos = get_elem? page pos

-- `keys_.back()`, undefined on an empty page.
unfoldable pub max_key : Page → Option Str
max_key [] = none
max_key (r ∷ []) = some r.key
max_key (r ∷ x ∷ rs) = max_key (x ∷ rs)

abbrev pub size : Page → ℕ
size = length

-- Every key of a sorted page is at most the last.
pub le_max_key :
    (r : Record) (rs : Page) (m : Str)
    → IsKeySorted (r ∷ rs)
    → max_key (r ∷ rs) ≡ some m
    → str_lt m r.key ≡ false
unfolding max_key
le_max_key r [] m h e = ground (arith, str_lt_irrefl m)
le_max_key r (x ∷ rs) m h e = str_le_trans r.key x.key m h.0.0 (le_max_key x rs m h.1 e)

-- A page whose last key is below the bound holds nothing above it.
pub drop_until-below :
    (key m : Str) (page : Page) (rest : List Record)
    → IsKeySorted page
    → max_key page ≡ some m
    → str_lt m key ≡ true
    → drop_until (above_lower (some key)) (page ++ rest) ≡ drop_until (above_lower (some key)) rest
unfolding max_key drop_until
drop_until-below key m [] rest h e lt = cc
drop_until-below key m (r ∷ []) rest h e lt = ground arith
drop_until-below key m (r ∷ x ∷ rs) rest h e lt = ground (
  arith,
  drop_until-below key m (x ∷ rs) rest h.1 e lt,
  le_max_key r (x ∷ rs) m h e,
  str_lt_trans r.key m key,
  str_lt_total r.key m,
)

-- In a page whose last key reaches the bound, `Find` is the place of the first record that does.
pub find_lem :
    (key m : Str) (page : Page) (rest : List Record)
    → max_key page ≡ some m
    → str_lt m key ≡ false
    → (find key page < length page)
      × (drop_until (above_lower (some key)) (page ++ rest) ≡ drop (find key page) page ++ rest)
unfolding max_key drop_until find
find_lem key m [] rest e ge = cc
find_lem key m (r ∷ []) rest e ge = ground arith
find_lem key m (r ∷ x ∷ rs) rest e ge = ground (arith, find_lem key m (x ∷ rs) rest e ge)
