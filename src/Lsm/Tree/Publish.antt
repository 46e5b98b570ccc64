-- ===== src/Lsm/Tree/Publish.antt =====
-- What publishing the table of a frozen mem table leaves (lsm/lsm.cpp).
use structuredb.Base.{
  ℕ, ◌<◌, ◌≡◌, refl, sym, subst, List, [], ◌∷◌, ◌++◌, arith, All, All-left, All-right,
}
use structuredb.Base.Str.{Str}
use structuredb.Lsm.Codec.{IsEncodable}
use structuredb.Lsm.Order.{IsSorted}
use structuredb.Lsm.MemTable.{MemTable}
use structuredb.Lsm.SsTable.{SsTable}
use structuredb.Lsm.SsTable.Seek.{flat, Filled}
use structuredb.Lsm.SsTable.Scan.{IsFull}
use structuredb.Lsm.Disk.Build.{FitsAlone}
use structuredb.Lsm.Disk.RoundTrip.{Writable}
use structuredb.Lsm.Tree.{Lsm, Options, publish}
use structuredb.Lsm.Tree.Versions.{versions_of, versions-publish, reverse-snoc}
use structuredb.Lsm.Tree.Invariant.{Setup, Fits, TableOk, Inv}
use mathlib.Core.List.{reverse, reverse-cons}
use structuredb.Base.Assoc.{nat_key}

module _ (crc : Str → ℕ) where
  entries-split :
      (o : Options) (m : MemTable)
      → All (Fits crc o) m
      → All IsEncodable m × All (FitsAlone crc o.page_size) m
  entries-split o [] h = (tt, tt)
  entries-split o (r ∷ rs) h = let (e, f) = entries-split o rs h.1 in ((h.0.0, e), (h.0.1, f))

  pub TableOk-Writable :
      (o : Options) (m : MemTable) → Setup crc o → TableOk crc o m → Writable crc o.page_size m
  TableOk-Writable o m s v =
      let (e, f) = entries-split o m v.entries in
      record {
        size_fits = s.size_fits;
        count_fits = omega (arith, v.count, s.count_fits);
        encodable = e;
        alone = f;
        crc_fits = s.crc_fits;
      }

  pub oldest-TableOk :
      (o : Options) (m front : MemTable) (frozen : List MemTable)
      → All (TableOk crc o) (m ∷ reverse (front ∷ frozen))
      → TableOk crc o front × All (TableOk crc o) (m ∷ reverse frozen)
  oldest-TableOk o m front frozen h =
      let k : All (TableOk crc o) (reverse frozen ++ front ∷ []) =
        subst (All (TableOk crc o)) (reverse-cons front frozen) h.1 in
      (
        (All-right (TableOk crc o) (reverse frozen) (front ∷ []) k).0,
        (h.0, All-left (TableOk crc o) (reverse frozen) (front ∷ []) k),
      )

  -- What flushing some of the frozen tables leaves as it was.
  pub record Flushed (t t' : Lsm) : Type 0 where
    pub inv : Inv crc t'
    pub same_versions : (key : Str) → versions_of key t' ≡ versions_of key t
    pub same_options : t'.options ≡ t.options
    pub same_next : t'.next_seq_no ≡ t.next_seq_no

  pub publish-Inv :
      (t : Lsm) (front : MemTable) (frozen : List MemTable) (bytes : Str) (s : SsTable)
      → Inv crc t
      → t.ro_mem_tables ≡ front ∷ frozen
      → flat s.pages ≡ front
      → Filled s.pages
      → Flushed t (publish s bytes frozen t)
  publish-Inv t front frozen bytes s v e f filled =
      let p = v.parts in
      let (ok, others) =
        oldest-TableOk t.options t.mem_table front frozen
          (subst (λ l. All (TableOk crc t.options) (t.mem_table ∷ reverse l)) e p.mem_tables) in
      let same : (key : Str) → versions_of key (publish s bytes frozen t) ≡ versions_of key t =
        λ key. versions-publish key s bytes front frozen t e f in
      record {
        inv = record {
          parts = record {
            mem_tables = others;
            ss_tables = subst (All IsFull) (sym (reverse-snoc t.ss_tables s)) (
              record { in_order = subst IsSorted (sym f) ok.sorted; pages_filled = filled },
              p.ss_tables,
            );
            mem_below = p.mem_below;
            of_key = λ key.
                subst (All (λ x. (x.key ≡ key) × (x.seq_no < t.next_seq_no))) (sym (same key))
                  (p.of_key key);
            newest_first = λ key. subst IsSorted (sym (same key)) (p.newest_first key);
          };
          room = v.room;
          setup = v.setup;
        };
        same_versions = same;
        same_options = refl;
        same_next = refl;
      }
