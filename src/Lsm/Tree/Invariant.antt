-- ===== src/Lsm/Tree/Invariant.antt =====
-- What holds of a tree between its operations, and that writing and flushing keep it.
use structuredb.Base.{
  ℕ, ◌+◌, ◌^◌, ◌≤◌, ◌<◌, ◌≡◌, refl, sym, ap, ◌∙◌, subst, false, List, [], ◌∷◌, ◌++◌, length, arith,
  All, All-left, All-right, Bool-cases, inl, inr, if◌then◌else◌, ltb,
}
use structuredb.Base.Str.{Str, str_eq, str_eq_iff}
use structuredb.Lsm.Types.{Record, record_lt}
use structuredb.Lsm.Codec.{IsEncodable, page_header_size}
use structuredb.Lsm.Order.{IsSorted}
use structuredb.Lsm.MemTable.{MemTable}
use structuredb.Lsm.MemTable as Mem
use structuredb.Lsm.MemTable.Laws.{put-IsSorted, All-put, length-put}
use structuredb.Lsm.SsTable.Scan.{IsFull}
use structuredb.Lsm.Disk.Build.{FitsAlone}
use structuredb.Lsm.Tree.{Lsm, Options, freeze, do_put, put}
use structuredb.Lsm.Tree.Versions.{
  versions_of, versions-put_new, versions-freeze, new_record, reverse-snoc,
}
use mathlib.Core.List.{reverse, reverse-cons}

pub All-reverse {ℓ κ} : {A : Type ℓ} (P : A → Type κ) (xs : List A) → All P (reverse xs) → All P xs
All-reverse P [] h = tt
All-reverse P (x ∷ xs) h =
    let k = subst (All P) (reverse-cons x xs) h in
    ((All-right P (reverse xs) (x ∷ []) k).0, All-reverse P xs (All-left P (reverse xs) (x ∷ []) k))

module _ (crc : Str → ℕ) where
  -- Options and a checksum with which tables can be written.
  pub record Setup (o : Options) : Type 0 where
    pub size_fits : o.page_size < 2 ^ 64
    pub header_fits : page_header_size ≤ o.page_size
    pub count_fits : o.max_records_in_mem_table + 1 < 2 ^ 64
    pub crc_fits : (s : Str) → crc s < 2 ^ 64

  -- A record that fits into a page.
  abbrev pub Fits : Options → Record → Type 0
  Fits o r = IsEncodable r × FitsAlone crc o.page_size r

  pub record TableOk (o : Options) (m : MemTable) : Type 0 where
    pub sorted : IsSorted m
    pub entries : All (Fits o) m
    pub count : length m ≤ o.max_records_in_mem_table + 1

  -- The tables are well formed, and the versions of each key come with the newest first.
  pub record Parts (t : Lsm) : Type 0 where
    pub mem_tables : All (TableOk t.options) (t.mem_table ∷ reverse t.ro_mem_tables)
    pub ss_tables : All IsFull (reverse t.ss_tables)
    pub mem_below : All (λ x. x.seq_no < t.next_seq_no) t.mem_table
    pub of_key :
        (key : Str) → All (λ x. (x.key ≡ key) × (x.seq_no < t.next_seq_no)) (versions_of key t)
    pub newest_first : (key : Str) → IsSorted (versions_of key t)

  pub record Inv (t : Lsm) : Type 0 where
    pub parts : Parts t
    pub room : length t.mem_table ≤ t.options.max_records_in_mem_table
    pub setup : Setup t.options

  TableOk-nil : (o : Options) → TableOk o []
  TableOk-nil o = record { sorted = tt; entries = tt; count = omega arith }

  frozen : Lsm → Lsm
  frozen t = record t { mem_table = []; ro_mem_tables = t.ro_mem_tables ++ (t.mem_table ∷ []) }

  freeze-Inv : (t : Lsm) → Parts t → Setup t.options → Inv (freeze t)
  unfolding freeze frozen
  freeze-Inv t p s =
      elim (Bool-cases (ltb t.options.max_records_in_mem_table (length t.mem_table))) [
        | inr e ↦ rw e (record { parts = p; room = ground arith; setup = s })
        | inl e ↦
            let same : (key : Str) → versions_of key (frozen t) ≡ versions_of key t =
              λ key. rw e at (versions-freeze key t) in
            rw e (record {
              parts = record {
                mem_tables = (
                  TableOk-nil t.options,
                  subst (All (TableOk t.options)) (sym (reverse-snoc t.ro_mem_tables t.mem_table))
                      p.mem_tables,
                );
                ss_tables = p.ss_tables;
                mem_below = tt;
                of_key = λ key.
                    subst (All (λ x. (x.key ≡ key) × (x.seq_no < t.next_seq_no))) (sym (same key))
                      (p.of_key key);
                newest_first = λ key. subst IsSorted (sym (same key)) (p.newest_first key);
              };
              room = omega arith;
              setup = s;
            })
      ]

  raise-below : (n : ℕ) (m : MemTable) → All (λ x. x.seq_no < n) m → All (λ x. x.seq_no < n + 1) m
  raise-below n [] h = tt
  raise-below n (x ∷ xs) h = (omega arith, raise-below n xs h.1)

  raise-of_key :
      (key : Str) (n : ℕ) (xs : List Record)
      → All (λ x. (x.key ≡ key) × (x.seq_no < n)) xs
      → All (λ x. (x.key ≡ key) × (x.seq_no < n + 1)) xs
  raise-of_key key n [] h = tt
  raise-of_key key n (x ∷ xs) h = ((h.0.0, omega arith), raise-of_key key n xs h.1)

  -- A record newer than the versions of its key is not above any of them.
  newer-first :
      (r : Record) (n : ℕ) (xs : List Record)
      → n ≤ r.seq_no
      → All (λ x. (x.key ≡ r.key) × (x.seq_no < n)) xs
      → All (λ x. record_lt x r ≡ false) xs
  unfolding record_lt
  newer-first r n [] e h = tt
  newer-first r n (x ∷ xs) e h = (ground (arith, str_eq_iff x.key r.key), newer-first r n xs e h.1)

  put-TableOk :
      (o : Options) (r : Record) (m : MemTable)
      → TableOk o m
      → length m ≤ o.max_records_in_mem_table
      → Fits o r
      → TableOk o (Mem.put r m)
  put-TableOk o r m v h f = record {
    sorted = put-IsSorted r m v.sorted;
    entries = All-put (Fits o) r m f v.entries;
    count = omega (arith, length-put r m);
  }

  -- The tree between the insertion and the freezing of `put`.
  inserted : Record → Lsm → Lsm
  inserted r t = record t { mem_table = Mem.put r t.mem_table; next_seq_no = t.next_seq_no + 1 }

  put-inserted :
      (key value : Str) (t : Lsm)
      → (put key value t).1 ≡ freeze (inserted (new_record key value t) t)
  unfolding put do_put inserted
  put-inserted key value t = refl

  inserted-versions :
      (key value other : Str) (t : Lsm)
      → All (λ x. x.seq_no < t.next_seq_no) t.mem_table
      → versions_of other (inserted (new_record key value t) t) ≡ (
          if str_eq key other
          then new_record key value t ∷ versions_of other t
          else versions_of other t)
  inserted-versions key value other t h =
      sym (versions-freeze other _)
      ∙ ap (versions_of other) (sym (put-inserted key value t))
      ∙ versions-put_new key other value t h

  inserted-Parts :
      (key value : Str) (t : Lsm)
      → Inv t
      → Fits t.options (new_record key value t)
      → Parts (inserted (new_record key value t) t)
  unfolding inserted
  inserted-Parts key value t v f =
      let p = v.parts in
      let r = new_record key value t in
      record {
        mem_tables = (put-TableOk t.options r t.mem_table p.mem_tables.0 v.room f, p.mem_tables.1);
        ss_tables = p.ss_tables;
        mem_below =
            All-put (λ x. x.seq_no < t.next_seq_no + 1) r t.mem_table (omega arith)
              (raise-below t.next_seq_no t.mem_table p.mem_below);
        of_key = λ other.
            let kept = raise-of_key other t.next_seq_no (versions_of other t) (p.of_key other) in
            subst (All (λ x. (x.key ≡ other) × (x.seq_no < t.next_seq_no + 1)))
              (sym (inserted-versions key value other t p.mem_below))
              (elim (Bool-cases (str_eq key other)) [
                | inl e ↦ rw e ((ground (arith, str_eq_iff key other), omega arith), kept)
                | inr e ↦ rw e kept
              ]);
        newest_first = λ other.
            subst IsSorted (sym (inserted-versions key value other t p.mem_below))
              (elim (Bool-cases (str_eq key other)) [
                | inl e ↦
                    let same : other ≡ key = ground (arith, str_eq_iff key other) in
                    rw e (
                      newer-first r t.next_seq_no (versions_of other t) (omega arith) (
                          subst
                            (λ k.
                              All (λ x. (x.key ≡ k) × (x.seq_no < t.next_seq_no))
                                (versions_of other t))
                            same (p.of_key other)),
                      p.newest_first other,
                    )
                | inr e ↦ rw e (p.newest_first other)
              ]);
      }

  -- A put of a record that fits into a page keeps the invariant.
  pub put-Inv :
      (key value : Str) (t : Lsm)
      → Inv t
      → Fits t.options (new_record key value t)
      → Inv (put key value t).1
  put-Inv key value t v f =
      subst Inv (sym (put-inserted key value t))
        (freeze-Inv _ (inserted-Parts key value t v f) (unfold inserted in v.setup))
