-- ===== src/Table/Engine/Contract.antt =====
-- The tree keeps the contract of a storage engine.
use structuredb.Base.{
  ℕ, ◌≡◌, refl, ap, ◌∙◌, some, List, ◌∷◌, map, if◌then◌else◌, length, ◌+◌, Bool-cases, inl, inr,
}
use structuredb.Base.Str.{Str, str_eq}
use structuredb.Lsm.Types.{Record}
use structuredb.Lsm.Iterator.{drain}
use structuredb.Lsm.KeyIterator.{KeyIterator}
use structuredb.Lsm.KeyIterator.Laws.{key_ops}
use structuredb.Lsm.Tree.{scan_key}
use structuredb.Lsm.Tree.Versions.{versions_of, versions-put_new, new_record}
use structuredb.Lsm.Tree.Invariant.{Fits, Inv, put-Inv}
use structuredb.Lsm.Tree.Reads.{scan_key_lem}
use structuredb.Table.{Row, StorageEngine}
use structuredb.Table.Engine.{LsmEngine, upsert, row_of, scan_key_rows, scan_rows}

abbrev pub key_rows : Str → LsmEngine → List Row
key_rows key e = map row_of (versions_of key e.lsm)

scan_key_eq_of :
    (key : Str) (e : LsmEngine) (it : KeyIterator) (found : List Record)
    → scan_key key e.lsm ≡ some it
    → drain key_ops (length (versions_of key e.lsm) + 1) it ≡ some found
    → scan_key_rows key e ≡ some (map row_of found)
unfolding scan_key_rows
scan_key_eq_of key e it found s d = rw (s, d, scan_key_rows)

module _ (crc : Str → ℕ) where
  pub scan_key_rows_lem :
      (key : Str) (e : LsmEngine) → Inv crc e.lsm → scan_key_rows key e ≡ some (key_rows key e)
  scan_key_rows_lem key e v =
      let (it, s, d) = scan_key_lem crc key e.lsm v in
      scan_key_eq_of key e it (versions_of key e.lsm) s d

  pub rows-upsert :
      (row : Row) (e : LsmEngine)
      → Inv crc e.lsm
      → (key : Str)
      → key_rows key (upsert row e).0
        ≡ (if str_eq row.key key then row ∷ key_rows key e else key_rows key e)
  unfolding upsert
  rows-upsert row e v key =
      ap (map row_of) (versions-put_new row.key key row.value e.lsm v.parts.mem_below)
      ∙ (elim (Bool-cases (str_eq row.key key)) [ inl b ↦ rw b | inr b ↦ rw b ])

  -- A tree with a log is a storage engine, for the rows whose records fit into a page.
  unfoldable pub lsm_engine : StorageEngine LsmEngine
  unfolding upsert
  lsm_engine = record {
    upsert = λ row e. some (upsert row e).0;
    scan_key = scan_key_rows;
    scan = scan_rows;
    rows_of = key_rows;
    valid = λ e. Inv crc e.lsm;
    accepts = λ row e. Fits crc e.lsm.options (new_record row.key row.value e.lsm);
    scan_key_lem = scan_key_rows_lem;
    upsert_lem = λ row e v a.
        ((upsert row e).0, refl, put-Inv crc row.key row.value e.lsm v a, rows-upsert row e v);
  }
