-- ===== src/Wal/Files.antt =====
-- The directory that the log keeps its segments in, as io/manager.cpp and io/file_writer.cpp give it:
-- the files by their names. A file that was removed while it is open for writing takes what is written
-- with it, so writing to a name that is not there changes nothing. Names are sorted as
-- `std::ranges::sort` does.
pub mod Sorted
use structuredb.Base.{
  ℕ, ◌≡◌, refl, ap, ◌∙◌, sym, Bool, true, false, ◌||◌, Option, none, some, List, [], ◌∷◌, ◌++◌,
  length, map, arith, if◌then◌else◌, All, Option-cases, inl, inr,
}
use structuredb.Base.Str.{Str, str_lt, str_eq, str_eq_refl, str_eq_iff, str_lt_irrefl, str_lt_trans}
use structuredb.Base.Assoc.{str_key, member, lookup, assign, erase, lookup-assigned}

abbrev pub Directory : Type 0
Directory = List (Str × Str)

-- `Manager::ListDirectory`
unfoldable pub list_directory : Directory → List Str
list_directory [] = []
list_directory ((name, content) ∷ d) = name ∷ list_directory d

unfoldable pub insert : Str → List Str → List Str
insert name [] = name ∷ []
insert name (n ∷ names) = if str_lt n name then n ∷ insert name names else name ∷ n ∷ names

unfoldable pub sort : List Str → List Str
unfolding insert
sort [] = []
sort (n ∷ names) = insert n (sort names)

-- The content that `Manager::CreateFileReader` opens.
unfoldable pub create_file_reader : Str → Directory → Option Str
create_file_reader name d = lookup name d

-- `Manager::CreateFileWriter` with `append`: the file is made if it is missing, and kept otherwise.
unfoldable pub create_file_appender : Str → Directory → Directory
create_file_appender name d = elim (lookup name d) [ none ↦ assign name [] d | some content ↦ d ]

-- `FileWriter::Write` to a file opened with `append`.
unfoldable pub append_to : Str → Str → Directory → Directory
append_to name bytes d = elim (lookup name d) [
  | none ↦ d
  | some content ↦ assign name (content ++ bytes) d
]

-- `Manager::Remove`
unfoldable pub remove : Str → Directory → Directory
remove name d = erase name d

-- `Manager::FileSize`; the -1 of a missing file is `none`.
unfoldable pub file_size : Str → Directory → Option ℕ
file_size name d = elim (lookup name d) [ none ↦ none | some content ↦ some (length content) ]

-- Every name of a directory is below a name.
abbrev pub Below : Str → Directory → Type 0
Below name d = All (λ n. str_lt n name ≡ true) (list_directory d)

pub insert-last :
    (name : Str) (names : List Str)
    → All (λ n. str_lt n name ≡ true) names
    → insert name names ≡ names ++ name ∷ []
unfolding insert
insert-last name [] h = refl
insert-last name (n ∷ names) h = ground (arith, insert-last name names h.1)

pub All-insert {κ} :
    (P : Str → Type κ) (name : Str) (names : List Str)
    → P name
    → All P names
    → All P (insert name names)
unfolding insert
All-insert P name [] p h = (p, tt)
All-insert P name (n ∷ names) p h =
    elim (str_lt n name) as (λ b. All P (if b then n ∷ insert name names else name ∷ n ∷ names)) [
      | true ↦ (h.0, All-insert P name names p h.1)
      | false ↦ (p, (h.0, h.1))
    ]

pub All-sort {κ} : (P : Str → Type κ) (names : List Str) → All P names → All P (sort names)
unfolding sort
All-sort P [] h = tt
All-sort P (n ∷ names) h = All-insert P n (sort names) h.0 (All-sort P names h.1)

-- A name that is above all others is new.
pub lookup-above : (name : Str) (d : Directory) → Below name d → lookup name d ≡ none
unfolding lookup list_directory
lookup-above name [] h = refl
lookup-above name ((n, content) ∷ d) h =
    ground (arith, lookup-above name d h.1, str_eq_iff n name, str_lt_irrefl name)

pub erase-above : (name : Str) (d : Directory) → Below name d → erase name d ≡ d
unfolding erase list_directory
erase-above name [] h = refl
erase-above name ((n, content) ∷ d) h =
    ground (arith, erase-above name d h.1, str_eq_iff n name, str_lt_irrefl name)

erase-erase : (name : Str) (d : Directory) → erase name (erase name d) ≡ erase name d
unfolding erase
erase-erase name [] = refl
erase-erase name ((n, content) ∷ d) = ground (arith, erase-erase name d)

-- Writing to a file twice leaves the second content.
pub assign-assign :
    (name content bytes : Str) (d : Directory)
    → assign name bytes (assign name content d) ≡ assign name bytes d
unfolding assign erase
assign-assign name content bytes d = ground (arith, erase-erase name d, str_eq_refl name)

-- The names of a directory with a new last file.
pub sort-last :
    (name content : Str) (d : Directory)
    → Below name d
    → sort (list_directory (assign name content d)) ≡ sort (list_directory d) ++ name ∷ []
unfolding sort list_directory assign
sort-last name content d h =
    ap (λ m. insert name (sort (list_directory m))) (erase-above name d h)
    ∙ insert-last name (sort (list_directory d)) (All-sort _ (list_directory d) h)

pub append_to-assign :
    (name content bytes : Str) (d : Directory)
    → append_to name bytes (assign name content d) ≡ assign name (content ++ bytes) d
unfolding append_to
append_to-assign name content bytes d =
    ap
      (λ o. elim o as (λ x. Directory) [
        | none ↦ assign name content d
        | some c ↦ assign name (c ++ bytes) (assign name content d)
      ])
      (lookup-assigned name content d)
    ∙ assign-assign name content (content ++ bytes) d

pub create_file_appender-new :
    (name : Str) (d : Directory) → Below name d → create_file_appender name d ≡ assign name [] d
unfolding create_file_appender
create_file_appender-new name d h =
    ap (λ o. elim o as (λ x. Directory) [ none ↦ assign name [] d | some c ↦ d ])
      (lookup-above name d h)

member-insert :
    (name n : Str) (names : List Str)
    → member name (insert n names) ≡ (str_eq n name || member name names)
unfolding member insert
member-insert name n [] = refl
member-insert name n (m ∷ names) = ground (arith, member-insert name n names)

member-sort : (name : Str) (names : List Str) → member name (sort names) ≡ member name names
unfolding member sort
member-sort name [] = refl
member-sort name (n ∷ names) =
    member-insert name n (sort names) ∙ ap (λ b. str_eq n name || b) (member-sort name names)

listed :
    (name content : Str) (d : Directory)
    → lookup name d ≡ some content
    → member name (list_directory d) ≡ true
unfolding list_directory lookup member
listed name content [] h = cc
listed name content ((n, c) ∷ d) h = ground (arith, listed name content d)

-- A file that is there is listed.
pub member-listed :
    (name content : Str) (d : Directory)
    → lookup name d ≡ some content
    → member name (sort (list_directory d)) ≡ true
member-listed name content d h = member-sort name (list_directory d) ∙ listed name content d h
