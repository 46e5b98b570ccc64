-- ===== src/Lsm/Tree/Reads.antt =====
-- What reads of a tree return: `Get`, both scans, and what writes and flushes do to them.
use structuredb.Base.{
  ℕ, ◌+◌, ◌≡◌, sym, ap, ◌∙◌, true, false, Option, none, some, List, [], ◌∷◌, length, arith, All,
  if◌then◌else◌, Bool-cases, inl, inr,
}
use structuredb.Base.Str.{Str, str_eq}
use structuredb.Lsm.Types.{Record}
use structuredb.Lsm.Iterator.{drain, drain-contents}
use structuredb.Lsm.MemTable.{MemTable}
use structuredb.Lsm.MemTable.Scan.{SeqBounded}
use structuredb.Lsm.SsTable.Scan.{AllFull-AllTable}
use structuredb.Lsm.KeyIterator as Key
use structuredb.Lsm.KeyIterator.{KeyIterator}
use structuredb.Lsm.KeyIterator.Laws as KeyLaws
use structuredb.Lsm.KeyIterator.Laws.{IsMemTable, create_key_lem, key_ops}
use structuredb.Lsm.Tree.{Lsm, Options, put, flush, scan_key, get}
use structuredb.Lsm.Tree.Versions.{versions_of, versions-put_new, new_record}
use structuredb.Lsm.Tree.Invariant.{Fits, TableOk, Inv, put-Inv}
use structuredb.Lsm.Tree.Flush.{flush_lem}
use mathlib.Core.List.{reverse}

-- The value of the first record.
abbrev pub first_value : List Record → Option Str
first_value [] = none
first_value (r ∷ rs) = some r.value

module _ (crc : Str → ℕ) where
  Fits-bounded : (o : Options) (m : MemTable) → All (Fits crc o) m → SeqBounded m
  Fits-bounded o [] h = tt
  Fits-bounded o (r ∷ rs) h = (omega (arith, h.0.0.seq_no_fits), Fits-bounded o rs h.1)

  pub TablesOk-IsMemTable :
      (o : Options) (ms : List MemTable) → All (TableOk crc o) ms → All IsMemTable ms
  TablesOk-IsMemTable o [] h = tt
  TablesOk-IsMemTable o (m ∷ ms) h = (
    record { sorted = h.0.sorted; bounded = Fits-bounded o m h.0.entries },
    TablesOk-IsMemTable o ms h.1,
  )

  scan_key_opens :
      (key : Str) (t : Lsm)
      → Inv crc t
      → (i : KeyIterator) × (scan_key key t ≡ some i)
        × KeyLaws.Ready i
        × (KeyLaws.contents i ≡ versions_of key t)
  unfolding scan_key versions_of
  scan_key_opens key t v =
      create_key_lem key t.mem_table (reverse t.ro_mem_tables) (reverse t.ss_tables)
        (TablesOk-IsMemTable t.options (t.mem_table ∷ reverse t.ro_mem_tables) v.parts.mem_tables)
        (AllFull-AllTable (reverse t.ss_tables) v.parts.ss_tables)

  -- In a tree that keeps the invariant, `Scan(key)` succeeds, and reading it to its end returns
  -- the versions of the key: those of the mem table, then of the frozen tables, then of the table
  -- files, the newest table first.
  pub scan_key_lem :
      (key : Str) (t : Lsm)
      → Inv crc t
      → (i : KeyIterator) × (scan_key key t ≡ some i)
        × (drain key_ops (length (versions_of key t) + 1) i ≡ some (versions_of key t))
  scan_key_lem key t v =
      let (i, e, ready, c) = scan_key_opens key t v in
      (i, e, drain-contents key_ops _ i ready (omega (arith, ap length c)) ∙ ap some c)

  get-empty :
      (key : Str) (t : Lsm) (i : KeyIterator)
      → scan_key key t ≡ some i
      → Key.has_more i ≡ false
      → get key t ≡ some none
  unfolding get
  get-empty key t i e h = rw (e, h, get)

  get-first :
      (key : Str) (t : Lsm) (i after : KeyIterator) (r : Record)
      → scan_key key t ≡ some i
      → Key.has_more i ≡ true
      → Key.next i ≡ some (r, after)
      → get key t ≡ some (some r.value)
  unfolding get
  get-first key t i after r e h n = rw (e, h, n, get)

  get-opened :
      (key : Str) (t : Lsm) (i : KeyIterator) (vs : List Record)
      → scan_key key t ≡ some i
      → KeyLaws.Ready i
      → KeyLaws.contents i ≡ vs
      → get key t ≡ some (first_value vs)
  get-opened key t i [] e v c = get-empty key t i e (KeyLaws.done_lem i v c)
  get-opened key t i (r ∷ rs) e v c =
      let n = KeyLaws.next_lem i r rs v c in
      get-first key t i n.after r e (KeyLaws.more_lem i r rs v c) n.next_eq

  -- `Get` succeeds, and returns the value of the first version of the key, or nothing where the
  -- tree has no version of it.
  pub get_lem :
      (key : Str) (t : Lsm) → Inv crc t → get key t ≡ some (first_value (versions_of key t))
  get_lem key t v = let (i, e, ready, c) = scan_key_opens key t v in get-opened key t i _ e ready c

  -- In a tree that keeps the invariant, after a put of a record that fits into a page, `Get` of
  -- its key returns its value, and `Get` of any other key returns what it did.
  pub get-put :
      (key other value : Str) (t : Lsm)
      → Inv crc t
      → Fits crc t.options (new_record key value t)
      → get other (put key value t).1
        ≡ (if str_eq key other then some (some value) else get other t)
  get-put key other value t v f =
      let after = get_lem other _ (put-Inv crc key value t v f) in
      let changed = versions-put_new key other value t v.parts.mem_below in
      elim (Bool-cases (str_eq key other)) [
        | inl e ↦ rw e (after ∙ ap (λ l. some (first_value l)) (rw e at changed))
        | inr e ↦
            rw e
              (after ∙ ap (λ l. some (first_value l)) (rw e at changed) ∙ sym (get_lem other t v))
      ]

  -- In a tree that keeps the invariant, a flush succeeds and changes the result of no `Get`.
  pub get-flush :
      (key : Str) (t : Lsm)
      → Inv crc t
      → (t' : Lsm) × (flush crc t ≡ some t') × (get key t' ≡ get key t)
  get-flush key t v =
      let (t', e, v', none_left, n, same) = flush_lem crc t v in
      (t', e, get_lem key t' v' ∙ ap (λ l. some (first_value l)) (same key) ∙ sym (get_lem key t v))
