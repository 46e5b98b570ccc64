-- ===== src/Lsm/Tree/Flush.antt =====
-- `Flush` moves every frozen mem table into a file, and no read can tell.
use structuredb.Base.{
  ℕ, ◌≤◌, ◌==◌, if◌then◌else◌, ◌+◌, ◌<◌, ◌≡◌, refl, sym, ◌∙◌, subst, some, List, [], ◌∷◌, ◌++◌,
  length, arith, All, length-append,
}
use structuredb.Base.Str.{Str}
use structuredb.Lsm.MemTable.{MemTable}
use structuredb.Lsm.SsTable.{SsTable}
use structuredb.Lsm.SsTable.Seek.{flat}
use structuredb.Lsm.Disk.{write_table, open_table}
use structuredb.Lsm.Disk.RoundTrip.{open_table-write_table}
use structuredb.Lsm.Tree.{Lsm, publish, flush_front, flush_loop, flush}
use structuredb.Lsm.Tree.Versions.{versions_of}
use structuredb.Lsm.Tree.Invariant.{TableOk, Inv}
use mathlib.Core.List.{reverse, append_assoc, append-nil}
use structuredb.Base.Assoc.{nat_key, lookup, lookup-assign}
use structuredb.Lsm.Tree.Publish.{Flushed, publish-Inv, oldest-TableOk, TableOk-Writable}

module _ (crc : Str → ℕ) where
  flush_front_eq_of :
      (t : Lsm) (front : MemTable) (frozen : List MemTable) (bytes : Str) (s : SsTable)
      → t.ro_mem_tables ≡ front ∷ frozen
      → write_table crc t.options.page_size front ≡ some bytes
      → open_table crc (length t.ss_tables) bytes ≡ some s
      → flush_front crc t ≡ some (publish s bytes frozen t)
  unfolding flush_front
  flush_front_eq_of t front frozen bytes s e w o = rw (e, w, o, flush_front)

  -- The file of a number holds the bytes that the builder writes for the mem table, and these open as the
  -- table, whose pages have the records of the mem table.
  pub record WrittenAs (size no : ℕ) (m : MemTable) (s : SsTable) (files : List (ℕ × Str))
      : Type 0 where
    pub bytes : Str
    pub in_directory : lookup no files ≡ some bytes
    pub built : write_table crc size m ≡ some bytes
    pub opens : open_table crc no bytes ≡ some s
    pub holds : flat s.pages ≡ m

  -- Mem tables in the files of a number and the numbers that follow it.
  pub data Written (size : ℕ) (files : List (ℕ × Str))
      : ℕ → List MemTable → List SsTable → Type 0 where
    no_more : {no : ℕ} → Written size files no [] []
    one_more :
        {no : ℕ} {m : MemTable} {ms : List MemTable} {s : SsTable} {ss : List SsTable}
        → WrittenAs size no m s files
        → Written size files (no + 1) ms ss
        → Written size files no (m ∷ ms) (s ∷ ss)

  -- What flushing frozen tables adds to the tables and to the directory.
  pub record Stored (frozen : List MemTable) (t t' : Lsm) : Type 0 where
    pub added : List SsTable
    pub tables : t'.ss_tables ≡ t.ss_tables ++ added
    pub written : Written t.options.page_size t'.files (length t.ss_tables) frozen added
    pub below : (j : ℕ) → j < length t.ss_tables → lookup j t'.files ≡ lookup j t.files
    pub above :
        (j : ℕ) → length t.ss_tables + length frozen ≤ j → lookup j t'.files ≡ lookup j t.files

  flush_front_lem :
      (t : Lsm) (front : MemTable) (frozen : List MemTable)
      → Inv crc t
      → t.ro_mem_tables ≡ front ∷ frozen
      → (bytes : Str) × (s : SsTable) × (flush_front crc t ≡ some (publish s bytes frozen t))
        × Flushed crc t (publish s bytes frozen t)
        × (write_table crc t.options.page_size front ≡ some bytes)
        × (open_table crc (length t.ss_tables) bytes ≡ some s)
        × (flat s.pages ≡ front)
  flush_front_lem t front frozen v e =
      let (ok, others) =
        oldest-TableOk crc t.options t.mem_table front frozen (
          subst (λ l. All (TableOk crc t.options) (t.mem_table ∷ reverse l)) e
            v.parts.mem_tables) in
      let (bytes, s, written, opened, number, same, filled, biggest) =
        open_table-write_table crc t.options.page_size (length t.ss_tables) front
          v.setup.header_fits (TableOk-Writable crc t.options front v.setup ok) in
      (
        bytes,
        s,
        flush_front_eq_of t front frozen bytes s e written opened,
        publish-Inv crc t front frozen bytes s v e same filled,
        written,
        opened,
        same,
      )

  publish-file :
      (t : Lsm) (s : SsTable) (bytes : Str) (frozen : List MemTable) (j : ℕ)
      → lookup j (publish s bytes frozen t).files
        ≡ (if length t.ss_tables == j then some bytes else lookup j t.files)
  publish-file t s bytes frozen j = lookup-assign (length t.ss_tables) j bytes t.files

  Stored-cons :
      (t t' : Lsm) (front : MemTable) (frozen : List MemTable) (s : SsTable) (bytes : Str)
      → write_table crc t.options.page_size front ≡ some bytes
      → open_table crc (length t.ss_tables) bytes ≡ some s
      → flat s.pages ≡ front
      → Stored frozen (publish s bytes frozen t) t'
      → Stored (front ∷ frozen) t t'
  Stored-cons t t' front frozen s bytes built opens holds st =
      let count = length-append t.ss_tables (s ∷ []) in
      record {
        added = s ∷ st.added;
        tables = st.tables ∙ append_assoc t.ss_tables (s ∷ []) st.added;
        written =
            one_more
              (record {
                bytes = bytes;
                in_directory =
                    st.below (length t.ss_tables) (omega arith)
                    ∙ publish-file t s bytes frozen (length t.ss_tables)
                    ∙ ground arith;
                built = built;
                opens = opens;
                holds = holds;
              })
              (subst (λ n. Written t.options.page_size t'.files n frozen st.added) count
                st.written);
        below = λ j l. st.below j (omega arith) ∙ publish-file t s bytes frozen j ∙ ground arith;
        above = λ j l. st.above j (omega arith) ∙ publish-file t s bytes frozen j ∙ ground arith;
      }

  flush_loop_lem :
      (frozen : List MemTable) (t : Lsm)
      → Inv crc t
      → t.ro_mem_tables ≡ frozen
      → (t' : Lsm) × (flush_loop crc (length frozen) t ≡ some t')
        × Flushed crc t t'
        × (t'.ro_mem_tables ≡ [])
        × Stored frozen t t'
  unfolding flush_loop
  flush_loop_lem [] t v e = (
    t,
    refl,
    record { inv = v; same_versions = λ key. refl; same_options = refl; same_next = refl },
    e,
    record {
      added = [];
      tables = sym (append-nil t.ss_tables);
      written = no_more;
      below = λ j l. refl;
      above = λ j l. refl;
    },
  )
  flush_loop_lem (front ∷ frozen) t v e =
      let (bytes, s, first, f, built, opens, holds) = flush_front_lem t front frozen v e in
      let (t', others, g, none_left, st) =
        flush_loop_lem frozen (publish s bytes frozen t) f.inv refl in
      (
        t',
        rw (first, flush_loop) others,
        record {
          inv = g.inv;
          same_versions = λ key. g.same_versions key ∙ f.same_versions key;
          same_options = g.same_options ∙ f.same_options;
          same_next = g.same_next ∙ f.same_next;
        },
        none_left,
        Stored-cons t t' front frozen s bytes built opens holds st,
      )

  -- In a tree that keeps the invariant, `Flush` succeeds and leaves no frozen table. For each table that there
  -- was, oldest first, it adds one table, in the file with the number of the tables before it: the directory
  -- then holds the bytes that the builder writes for that mem table, and they open as the added table.
  -- A file that has one of these numbers is replaced; no other file changes. The invariant is kept, and the
  -- versions of each key come in the same order as before.
  pub flush_lem :
      (t : Lsm)
      → Inv crc t
      → (t' : Lsm) × (flush crc t ≡ some t')
        × Inv crc t'
        × (t'.ro_mem_tables ≡ [])
        × Stored t.ro_mem_tables t t'
        × ((key : Str) → versions_of key t' ≡ versions_of key t)
  unfolding flush
  flush_lem t v =
      let (t', e, f, none_left, st) = flush_loop_lem t.ro_mem_tables t v refl in
      (t', e, f.inv, none_left, st, f.same_versions)
