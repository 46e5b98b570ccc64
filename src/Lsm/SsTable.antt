-- ===== src/Lsm/SsTable.antt =====
-- lsm/ss_table.cpp and lsm/iterators/ss_table_iterator.cpp. A table is its header and its decoded
-- pages: the file never changes once it is written, so reading a page when it is asked for, with or
-- without a cache, gives what `pages` holds.
pub mod Seek
pub mod Walk
pub mod Scan
use structuredb.Base.{
  ℕ, zero, suc, ◌+◌, ◌-◌, ◌/◌, Bool, true, false, Option, none, some, List, [], ◌∷◌, ◌++◌,
  if◌then◌else◌, length, get_elem?, ltb, leb,
}
use structuredb.Base.Str.{Str, str_le}
use structuredb.Lsm.Types.{Record, ScanRange}
use structuredb.Lsm.Range.{below_upper}
use structuredb.Lsm.Page
use structuredb.Lsm.Page.{Page}

pub record SsTable : Type 0 where
  -- the number in the file's name
  pub file_no : ℕ
  pub pages : List Page
  pub max_seq_no : ℕ

abbrev pub page_count : SsTable → ℕ
page_count t = length t.pages

-- The assertion that the page exists: `none`.
unfoldable pub get_page : ℕ → SsTable → Option Page
get_page page_num t = get_elem? t.pages page_num

unfoldable pub page_max_key : ℕ → SsTable → Option Str
unfolding get_page
page_max_key n t = elim (get_page n t) [ none ↦ none | some page ↦ Page.max_key page ]

-- The loop of `LowerBound`.
unfoldable pub lower_bound_loop : ℕ → Str → SsTable → ℕ → ℕ → Option ℕ
lower_bound_loop zero key t lo hi = none
lower_bound_loop (suc fuel) key t lo hi =
    let mid = lo + (hi - lo) / 2 in
    elim (ltb lo hi) [
      | false ↦ some lo
      | true ↦ elim (page_max_key mid t) [
        | none ↦ none
        | some m ↦ elim (str_le key m) [
          | true ↦ lower_bound_loop fuel key t lo mid
          | false ↦ lower_bound_loop fuel key t (mid + 1) hi
        ]
      ]
    ]

-- The interval shrinks in each round, so its length bounds the rounds.
unfoldable pub lower_bound : Str → SsTable → Option ℕ
unfolding lower_bound_loop
lower_bound key t = lower_bound_loop (page_count t + 1) key t 0 (page_count t)

pub record SsTableIterator : Type 0 where
  pub ss_table : SsTable
  pub range : ScanRange
  pub current_page : ℕ
  pub current_record : ℕ
  pub next_record : Option Record

-- `NextImpl`: the record at the position, and the position behind it.
unfoldable pub next_impl : SsTableIterator → Option (Option Record × SsTableIterator)
unfolding get_page Page.at
next_impl i = elim (leb (page_count i.ss_table) i.current_page) [
  | true ↦ some (none, i)
  | false ↦ elim (get_page i.current_page i.ss_table) [
    | none ↦ none
    | some page ↦ elim (Page.at page i.current_record) [
      | none ↦ none
      | some r ↦ some (
        some r,
        (if leb (Page.size page) (i.current_record + 1)
            then record i { current_record = 0; current_page = i.current_page + 1 }
            else record i { current_record = i.current_record + 1 }),
      )
    ]
  ]
]

-- The start of a scan: the position of the lower bound.
unfoldable pub seek : Option Str → SsTable → Option (ℕ × ℕ)
unfolding lower_bound get_page Page.find
seek none t = some (0, 0)
seek (some key) t = elim (lower_bound key t) [
  | none ↦ none
  | some p ↦ elim (ltb p (page_count t)) [
    | false ↦ some (p, 0)
    | true ↦ elim (get_page p t) [ none ↦ none | some page ↦ some (p, Page.find key page) ]
  ]
]

abbrev pub fetch : SsTableIterator → Option SsTableIterator
fetch i = elim (next_impl i) [ none ↦ none | some (r, i') ↦ some (record i' { next_record = r }) ]

-- `SSTableIterator::Create`
unfoldable pub scan : ScanRange → SsTable → Option SsTableIterator
unfolding seek
scan range t = elim (seek range.lower_bound t) [
  | none ↦ none
  | some (p, r) ↦ fetch (record {
    ss_table = t;
    range = range;
    current_page = p;
    current_record = r;
    next_record = none;
  })
]

unfoldable pub has_more : SsTableIterator → Bool
has_more i = elim i.next_record [ none ↦ false | some r ↦ below_upper i.range.upper_bound r ]

unfoldable pub next : SsTableIterator → Option (Record × SsTableIterator)
next i = elim i.next_record [
  | none ↦ none
  | some r ↦ elim (next_impl i) [
    | none ↦ none
    | some (n, i') ↦ some (r, record i' { next_record = n })
  ]
]
