-- ===== src/Lsm/Tree/Versions.antt =====
-- The versions of a key that a tree holds, in the order in which a read meets them, and what the
-- operations do to them.
use structuredb.Base.{
  ◌+◌, ◌<◌, ◌≡◌, refl, sym, ap, ◌∙◌, List, [], ◌∷◌, ◌++◌, length, arith, filter, All, Bool-cases,
  inl, inr, if◌then◌else◌, ltb,
}
use structuredb.Base.Str.{Str, str_eq, str_eq_iff, str_lt_total, str_lt_irrefl, str_lt_trans}
use structuredb.Lsm.Types.{Record, ScanRange}
use structuredb.Lsm.Range.{in_range}
use structuredb.Lsm.MemTable.{MemTable}
use structuredb.Lsm.MemTable as Mem
use structuredb.Lsm.MemTable.Laws.{versions, versions-put}
use structuredb.Lsm.SsTable.{SsTable}
use structuredb.Lsm.SsTable.Seek.{flat}
use structuredb.Lsm.KeyIterator.Laws.{in_tables, in_ss_tables, key_range}
use structuredb.Lsm.Tree.{Lsm, freeze, do_put, put, publish}
use mathlib.Core.List.{append-nil, append_assoc, reverse, reverse-cons, reverse-append}

-- The records of a key: the mem table, the frozen ones from the newest to the oldest, and the
-- table files from the newest to the oldest.
unfoldable pub versions_of : Str → Lsm → List Record
versions_of key t =
    in_tables (key_range key) (t.mem_table ∷ reverse t.ro_mem_tables)
    ++ in_ss_tables (key_range key) (reverse t.ss_tables)

in_key_range : (key : Str) (r : Record) → in_range (key_range key) r ≡ str_eq r.key key
in_key_range key r = ground (
  arith,
  str_eq_iff r.key key,
  str_lt_total r.key key,
  str_lt_irrefl key,
  str_lt_trans key r.key key,
)

filter-key : (key : Str) (rs : List Record) → filter (in_range (key_range key)) rs ≡ versions key rs
filter-key key [] = refl
filter-key key (r ∷ rs) =
    ap
      (λ b.
        if b
        then r ∷ filter (in_range (key_range key)) rs
        else filter (in_range (key_range key)) rs)
      (in_key_range key r)
    ∙ ap (λ l. if str_eq r.key key then r ∷ l else l) (filter-key key rs)

in_tables-append :
    (range : ScanRange) (xs ys : List (List Record))
    → in_tables range (xs ++ ys) ≡ in_tables range xs ++ in_tables range ys
unfolding in_tables
in_tables-append range [] ys = refl
in_tables-append range (x ∷ xs) ys =
    ap (λ l. filter (in_range range) x ++ l) (in_tables-append range xs ys)
    ∙ sym (append_assoc (filter (in_range range) x) (in_tables range xs) (in_tables range ys))

-- Adding behind the newest puts it first in the order of a read.
pub reverse-snoc {ℓ} : {A : Type ℓ} (xs : List A) (x : A) → reverse (xs ++ x ∷ []) ≡ x ∷ reverse xs
reverse-snoc xs x = reverse-append xs (x ∷ [])

pub versions-freeze : (key : Str) (t : Lsm) → versions_of key (freeze t) ≡ versions_of key t
unfolding freeze versions_of in_tables
versions-freeze key t =
    elim (Bool-cases (ltb t.options.max_records_in_mem_table (length t.mem_table))) [
      | inl e ↦ rw (e, reverse-snoc t.ro_mem_tables t.mem_table)
      | inr e ↦ rw e
    ]

abbrev with_record : Record → Lsm → Lsm
with_record r t = record t { mem_table = Mem.put r t.mem_table }

versions-with_record :
    (key : Str) (r : Record) (t : Lsm)
    → All (λ x. x.seq_no < r.seq_no) t.mem_table
    → versions_of key (with_record r t)
      ≡ (if str_eq r.key key then r ∷ versions_of key t else versions_of key t)
unfolding versions_of in_tables
versions-with_record key r t h =
    let e : filter (in_range (key_range key)) (Mem.put r t.mem_table) ≡ (
        if str_eq r.key key
        then r ∷ filter (in_range (key_range key)) t.mem_table
        else filter (in_range (key_range key)) t.mem_table) =
      filter-key key (Mem.put r t.mem_table)
      ∙ versions-put key r t.mem_table h
      ∙ ap (λ l. if str_eq r.key key then r ∷ l else l) (sym (filter-key key t.mem_table)) in
    elim (Bool-cases (str_eq r.key key)) [ inl b ↦ rw (e, b) | inr b ↦ rw (e, b) ]

-- The record that a put makes.
abbrev pub new_record : Str → Str → Lsm → Record
new_record key value t = record { key = key; seq_no = t.next_seq_no; value = value }

-- Where the mem table holds only records older than the next one, putting a key makes the new
-- record its first version and keeps the older versions behind it, and leaves the versions of
-- every other key as they are.
pub versions-put_new :
    (key other value : Str) (t : Lsm)
    → All (λ x. x.seq_no < t.next_seq_no) t.mem_table
    → versions_of other (put key value t).1 ≡ (
        if str_eq key other
        then new_record key value t ∷ versions_of other t
        else versions_of other t)
unfolding put do_put versions_of
versions-put_new key other value t h =
    versions-freeze other _
    ∙ versions-with_record other (new_record key value t)
        (record t { next_seq_no = t.next_seq_no + 1 }) h

-- Moving the oldest frozen table into a file that holds its records changes no version.
pub versions-publish :
    (key : Str) (ss_table : SsTable) (bytes : Str) (front : MemTable) (frozen : List MemTable)
    (t : Lsm)
    → t.ro_mem_tables ≡ front ∷ frozen
    → flat ss_table.pages ≡ front
    → versions_of key (publish ss_table bytes frozen t) ≡ versions_of key t
unfolding versions_of in_tables in_ss_tables
versions-publish key ss_table bytes front frozen t e f =
    let range = key_range key in
    let cut : List Record → List Record = filter (in_range range) in
    let old = in_ss_tables range (reverse t.ss_tables) in
    ap (λ l. (cut t.mem_table ++ in_tables range (reverse frozen)) ++ in_ss_tables range l)
      (reverse-snoc t.ss_tables ss_table)
    ∙ ap (λ l. (cut t.mem_table ++ in_tables range (reverse frozen)) ++ (cut l ++ old)) f
    ∙ sym (append_assoc (cut t.mem_table ++ in_tables range (reverse frozen)) (cut front) old)
    ∙ ap (λ l. l ++ old)
        (append_assoc (cut t.mem_table) (in_tables range (reverse frozen)) (cut front)
          ∙ ap (λ l. cut t.mem_table ++ (in_tables range (reverse frozen) ++ l))
              (sym (append-nil (cut front)))
          ∙ ap (λ l. cut t.mem_table ++ l)
              (sym (in_tables-append range (reverse frozen) (front ∷ [])))
          ∙ ap (λ l. cut t.mem_table ++ in_tables range l) (sym (reverse-cons front frozen))
          ∙ ap (λ l. cut t.mem_table ++ in_tables range (reverse l)) (sym e))
