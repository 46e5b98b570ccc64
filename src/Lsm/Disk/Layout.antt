-- ===== src/Lsm/Disk/Layout.antt =====
-- The bytes of a finished page and of a finished table file, described independently of how they
-- are built.
use structuredb.Base.{
  ℕ, zero, suc, ◌+◌, ◌-◌, ◌≤◌, ◌≡◌, refl, sym, ap, List, [], ◌∷◌, ◌++◌, length, take, drop,
  replicate, arith, length-append, length-replicate, ltb, Bool-cases, inl, inr,
}
use structuredb.Base.Str.{Str}
use structuredb.Sdb.{write_int}
use structuredb.Sdb.Bytes.{le_bytes}
use structuredb.Lsm.Types.{Record}
use structuredb.Lsm.Codec.{
  write_record, PageHeader, page_header_size, write_page_header, SsTableHeader,
  write_ss_table_header, ss_table_header_size,
}
use structuredb.Lsm.Page.{Page}
use structuredb.Lsm.Disk.{extract, pad_page, put_header, file_write}
use native.Mathlib.Nat.{zero-add, suc-add}
use mathlib.Core.List.{append-nil}

-- The bytes of records, one after the other.
unfoldable pub raws : List Record → Str
raws [] = []
raws (r ∷ rs) = write_record r [] ++ raws rs

-- The part of a page behind its header.
unfoldable pub body : ℕ → Page → Str
body page_size rs = raws rs ++ replicate (page_size - (page_header_size + length (raws rs))) 0

unfoldable pub encode_page : (Str → ℕ) → ℕ → Page → Str
encode_page crc page_size rs =
    write_page_header (record { count = length rs; checksum = crc (body page_size rs) }) []
    ++ body page_size rs

unfoldable pub encode_pages : (Str → ℕ) → ℕ → List Page → Str
encode_pages crc page_size [] = []
encode_pages crc page_size (p ∷ ps) = encode_page crc page_size p ++ encode_pages crc page_size ps

-- A page that its bytes fit into.
abbrev pub FitsPage : ℕ → Page → Type 0
FitsPage page_size rs = page_header_size + length (raws rs) ≤ page_size

pub length-write_page_header : (h : PageHeader) → length (write_page_header h []) ≡ page_header_size
unfolding write_page_header write_int le_bytes
length-write_page_header h = refl

pub length-write_ss_table_header :
    (h : SsTableHeader) → length (write_ss_table_header h []) ≡ ss_table_header_size
unfolding write_ss_table_header write_int le_bytes
length-write_ss_table_header h = refl

pub length-encode_page :
    (crc : Str → ℕ) (page_size : ℕ) (rs : Page)
    → FitsPage page_size rs
    → length (encode_page crc page_size rs) ≡ page_size
unfolding encode_page body
length-encode_page crc page_size rs h = omega (
  arith,
  length-append {A = ℕ}
      (write_page_header (record { count = length rs; checksum = crc (body page_size rs) }) [])
      (body page_size rs),
  length-write_page_header (record { count = length rs; checksum = crc (body page_size rs) }),
  length-append {A = ℕ} (raws rs) (replicate (page_size - (page_header_size + length (raws rs))) 0),
  length-replicate {A = ℕ} (page_size - (page_header_size + length (raws rs))) 0,
)

-- Padding fills the page up to its size.
pad_page_lem :
    (page_size : ℕ) (page : Str)
    → length page ≤ page_size
    → pad_page page_size page ≡ page ++ replicate (page_size - length page) 0
unfolding pad_page
pad_page_lem page_size page h = elim (Bool-cases (ltb (length page) page_size)) [
  | inl short ↦ rw short
  | inr full ↦
      let none_left : page_size - length page ≡ 0 = ground arith in rw (full, none_left, append-nil)
]

-- What `Extract` makes of a page builder that holds these records is the page described above.
pub extract-encode_page :
    (crc : Str → ℕ) (page_size : ℕ) (rs : Page) (checksum : ℕ)
    → FitsPage page_size rs
    → extract crc (record {
      page_size = page_size;
      current_page = replicate page_header_size 0 ++ raws rs;
      header = record { count = length rs; checksum = checksum };
    })
      ≡ encode_page crc page_size rs
unfolding extract put_header encode_page body
extract-encode_page crc page_size rs checksum h =
    rw (
      pad_page_lem page_size (replicate page_header_size 0 ++ raws rs) (omega arith),
      same,
      extract,
    )
  where
    same :
        page_size - length (replicate page_header_size 0 ++ raws rs)
        ≡ page_size - (page_header_size + length (raws rs))
    same = omega arith

pub drop-length {ℓ} : {A : Type ℓ} (xs ys : List A) → drop (length xs) (xs ++ ys) ≡ ys
drop-length [] ys = refl
drop-length (x ∷ xs) ys = drop-length xs ys

pub take-length {ℓ} : {A : Type ℓ} (xs ys : List A) → take (length xs) (xs ++ ys) ≡ xs
take-length [] ys = refl
take-length (x ∷ xs) ys = ap (◌∷◌ x) (take-length xs ys)

take_self {ℓ} : {A : Type ℓ} (xs : List A) → take (length xs) xs ≡ xs
take_self [] = refl
take_self (x ∷ xs) = ap (◌∷◌ x) (take_self xs)

drop-nil {ℓ} : {A : Type ℓ} (n : ℕ) → drop {A = A} n [] ≡ []
drop-nil zero = refl
drop-nil (suc n) = refl

drop-past {ℓ} : {A : Type ℓ} (xs : List A) (n : ℕ) → drop (length xs + n) xs ≡ []
drop-past [] n = rw zero-add (drop-nil n)
drop-past (x ∷ xs) n = rw suc-add (drop-past xs n)

-- A write at the end of the file appends.
pub file_write-end :
    (bytes content : Str)
    → file_write bytes (record { content = content; offset = length content })
      ≡ record { content = content ++ bytes; offset = length (content ++ bytes) }
unfolding file_write
file_write-end bytes content =
    λ i. record { content = joined i; offset = sym (length-append content bytes) i }
  where
    joined :
        take (length content) content ++ (bytes ++ drop (length content + length bytes) content)
        ≡ content ++ bytes
    joined = rw (take_self content, drop-past content (length bytes), append-nil)

-- A write at the front replaces as many bytes.
pub file_write-front :
    (bytes old rest : Str)
    → length old ≡ length bytes
    → (file_write bytes (record { content = old ++ rest; offset = 0 })).content ≡ bytes ++ rest
unfolding file_write
file_write-front bytes old rest e =
    let all : 0 + length bytes ≡ length old = omega arith in rw (all, drop-length old rest)
