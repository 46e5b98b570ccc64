-- ===== src/Lsm/Disk/Build.antt =====
-- The builder writes a file of the described layout that holds the records it was given.
use structuredb.Base.{
  ℕ, ◌+◌, ◌≤◌, ◌<◌, ◌≡◌, refl, sym, ap, subst, ◌∙◌, max, List, [], ◌∷◌, ◌++◌, length, replicate,
  arith, length-append, All, All-append, Bool-cases, inl, inr, some, true, false, ◌==◌,
}
use structuredb.Base.Str.{Str}
use structuredb.Lsm.Types.{Record}
use structuredb.Lsm.Codec.{write_record, page_header_size}
use structuredb.Lsm.Page.{Page}
use structuredb.Lsm.SsTable.Seek.{flat, Filled}
use structuredb.Lsm.Disk.{
  SsTableBuilder, FileWriter, is_enough_space, add_record, extract, flush_page, append_record, add,
  add_all, file_write,
}
use structuredb.Lsm.Disk.Layout.{
  raws, encode_page, encode_pages, FitsPage, extract-encode_page, file_write-end,
}
use mathlib.Core.List.{append-nil, append_assoc}

-- The largest sequence number, 0 for no record.
unfoldable pub max_seq : List Record → ℕ
max_seq [] = 0
max_seq (r ∷ rs) = max r.seq_no (max_seq rs)

max_seq-snoc : (rs : List Record) (r : Record) → max_seq (rs ++ r ∷ []) ≡ max (max_seq rs) r.seq_no
unfolding max_seq
max_seq-snoc [] r = omega arith
max_seq-snoc (x ∷ rs) r = omega (arith, max_seq-snoc rs r)

raws-snoc : (rs : List Record) (r : Record) → raws (rs ++ r ∷ []) ≡ raws rs ++ write_record r []
unfolding raws
raws-snoc [] r = append-nil _
raws-snoc (x ∷ rs) r =
    rw (raws-snoc rs r) (sym (append_assoc (write_record x []) (raws rs) (write_record r [])))

pub flat-snoc : (ps : List Page) (p : Page) → flat (ps ++ p ∷ []) ≡ flat ps ++ p
unfolding flat
flat-snoc [] p = append-nil p
flat-snoc (q ∷ ps) p = rw (flat-snoc ps p) (sym (append_assoc q (flat ps) p))

encode_pages-snoc :
    (crc : Str → ℕ) (size : ℕ) (ps : List Page) (p : Page)
    → encode_pages crc size (ps ++ p ∷ []) ≡ encode_pages crc size ps ++ encode_page crc size p
unfolding encode_pages
encode_pages-snoc crc size [] p = append-nil _
encode_pages-snoc crc size (q ∷ ps) p = rw (encode_pages-snoc crc size ps p) (
    sym (append_assoc (encode_page crc size q) (encode_pages crc size ps) (encode_page crc size p)))

module _ (crc : Str → ℕ) (size : ℕ) where
  -- The writer behind the last byte.
  abbrev pub at_end : Str → FileWriter
  at_end bytes = record { content = bytes; offset = length bytes }

  -- The builder that has flushed these pages and holds these records in the open one, behind the
  -- given first bytes of the file.
  abbrev pub state : Str → List Page → Page → ℕ → SsTableBuilder
  state front done open_page max_seq_no = record {
    header = record { page_size = size; page_count = length done; max_seq_no = max_seq_no };
    page_builder = record {
      page_size = size;
      current_page = replicate page_header_size 0 ++ raws open_page;
      header = record { count = length open_page; checksum = 0 };
    };
    file_writer = at_end (front ++ encode_pages crc size done);
  }

  length-snoc : (p : Page) (r : Record) → length p + 1 ≡ length (p ++ r ∷ [])
  length-snoc p r = omega (arith, length-append p (r ∷ []))

  written :
      (front : Str) (done : List Page) (p : Page)
      → FitsPage size p
      → file_write
          (extract crc (state front done p 0).page_builder)
          (at_end (front ++ encode_pages crc size done))
        ≡ at_end (front ++ encode_pages crc size (done ++ p ∷ []))
  written front done p fits =
      ap (λ s. file_write s (at_end (front ++ encode_pages crc size done)))
        (extract-encode_page crc size p 0 fits)
      ∙ file_write-end (encode_page crc size p) (front ++ encode_pages crc size done)
      ∙ ap at_end (
          append_assoc front (encode_pages crc size done) (encode_page crc size p)
          ∙ ap (◌++◌ front) (sym (encode_pages-snoc crc size done p)))

  pub flush_page-state :
      (front : Str) (done : List Page) (p : Page) (m : ℕ)
      → FitsPage size p
      → 0 < length p
      → flush_page crc (state front done p m) ≡ some (state front (done ++ p ∷ []) [] m)
  unfolding flush_page raws
  flush_page-state front done p m fits filled =
      let not_empty : (length p == 0) ≡ false = ground arith in
      rw (not_empty, flush_page)
        (λ i. some (record {
          header = record { page_size = size; page_count = pages i; max_seq_no = m };
          page_builder = (state front [] [] 0).page_builder;
          file_writer = written front done p fits i;
        }))
    where
      pages : length done + 1 ≡ length (done ++ p ∷ [])
      pages = omega (arith, length-append done (p ∷ []))

  append_record-state :
      (front : Str) (done : List Page) (p : Page) (m : ℕ) (r : Record)
      → append_record r (state front done p m) ≡ state front done (p ++ r ∷ []) (max m r.seq_no)
  unfolding add_record
  append_record-state front done p m r = λ i. record {
    header = (state front done p (max m r.seq_no)).header;
    page_builder = record {
      page_size = size;
      current_page = replicate page_header_size 0 ++ sym (raws-snoc p r) i;
      header = record { count = length-snoc p r i; checksum = 0 };
    };
    file_writer = (state front done p m).file_writer;
  }

  -- A record that fits a page by itself.
  abbrev pub FitsAlone : Record → Type 0
  FitsAlone r = page_header_size + length (write_record r []) ≤ size

  -- The pages that a builder has made of the records `seen`.
  pub record Built (front : Str) (seen : List Record) (b : SsTableBuilder) : Type 0 where
    pub done : List Page
    pub open_page : Page
    pub at_state : b ≡ state front done open_page (max_seq seen)
    pub holds : flat done ++ open_page ≡ seen
    pub open_fits : FitsPage size open_page
    pub done_fit : All (FitsPage size) done
    pub done_filled : Filled done

  -- The state after one more record.
  record Grown (front : Str) (seen : List Record) (r : Record) (b : SsTableBuilder) : Type 0 where
    after : SsTableBuilder
    added : add crc r b ≡ some after
    built : Built front (seen ++ r ∷ []) after

  fits-snoc :
      (p : Page) (r : Record)
      → page_header_size + length (raws p) + length (write_record r []) ≤ size
      → FitsPage size (p ++ r ∷ [])
  fits-snoc p r h =
      subst (λ s. page_header_size + length s ≤ size) (sym (raws-snoc p r))
        (omega (arith, length-append (raws p) (write_record r [])))

  add-same_page :
      (r : Record) (b : SsTableBuilder)
      → is_enough_space (length (write_record r [])) b.page_builder ≡ true
      → add crc r b ≡ some (append_record r b)
  unfolding add
  add-same_page r b h = rw (h, add)

  add-new_page :
      (r : Record) (b b' : SsTableBuilder)
      → is_enough_space (length (write_record r [])) b.page_builder ≡ false
      → flush_page crc b ≡ some b'
      → add crc r b ≡ some (append_record r b')
  unfolding add
  add-new_page r b b' h e = rw (h, e, add)

  filled-page :
      (p : Page) (n : ℕ)
      → FitsPage size []
      → page_header_size + n ≤ size
      → size < page_header_size + length (raws p) + n
      → 0 < length p
  unfolding raws
  filled-page [] n h k l = absurd (omega arith)
  filled-page (r ∷ p) n h k l = omega arith

  add-state :
      (front : Str) (seen : List Record) (done : List Page) (p : Page) (r : Record)
      → FitsAlone r
      → flat done ++ p ≡ seen
      → FitsPage size p
      → All (FitsPage size) done
      → Filled done
      → Grown front seen r (state front done p (max_seq seen))
  unfolding is_enough_space
  add-state front seen done p r alone e fits done_fit filled =
      elim (Bool-cases
        (is_enough_space (length (write_record r [])) (state front done p 0).page_builder)) [
          | inl room ↦ record {
            after = append_record r (state front done p (max_seq seen));
            added = add-same_page r (state front done p (max_seq seen)) room;
            built = record {
              done = done;
              open_page = p ++ r ∷ [];
              at_state =
                  append_record-state front done p (max_seq seen) r
                  ∙ ap (state front done (p ++ r ∷ [])) (sym (max_seq-snoc seen r));
              holds = sym (append_assoc (flat done) p (r ∷ [])) ∙ ap (λ l. l ++ r ∷ []) e;
              open_fits = fits-snoc p r (ground arith);
              done_fit = done_fit;
              done_filled = filled;
            };
          }
          | inr full ↦
              let nonempty : 0 < length p =
                filled-page p (length (write_record r [])) (unfold raws in omega arith) alone
                  (ground arith) in
              record {
                after = append_record r (state front (done ++ p ∷ []) [] (max_seq seen));
                added =
                    add-new_page r (state front done p (max_seq seen))
                      (state front (done ++ p ∷ []) [] (max_seq seen)) full
                      (flush_page-state front done p (max_seq seen) fits nonempty);
                built = record {
                  done = done ++ p ∷ [];
                  open_page = r ∷ [];
                  at_state =
                      append_record-state front (done ++ p ∷ []) [] (max_seq seen) r
                      ∙ ap (state front (done ++ p ∷ []) (r ∷ [])) (sym (max_seq-snoc seen r));
                  holds = ap (λ l. l ++ r ∷ []) (flat-snoc done p ∙ e);
                  open_fits = fits-snoc [] r (unfold raws in omega arith);
                  done_fit = All-append _ done (p ∷ []) done_fit (fits, tt);
                  done_filled = All-append _ done (p ∷ []) filled (nonempty, tt);
                };
              }
        ]

  add_lem :
      (front : Str) (seen : List Record) (r : Record) (b : SsTableBuilder)
      → FitsAlone r
      → Built front seen b
      → Grown front seen r b
  add_lem front seen r b alone v =
      subst (Grown front seen r) (sym v.at_state) (
        add-state front seen v.done v.open_page r alone v.holds v.open_fits v.done_fit
          v.done_filled)

  pub add_all_lem :
      (front : Str) (seen rs : List Record) (b : SsTableBuilder)
      → All FitsAlone rs
      → Built front seen b
      → (after : SsTableBuilder) × (add_all crc rs b ≡ some after) × Built front (seen ++ rs) after
  unfolding add_all
  add_all_lem front seen [] b h v =
      (b, refl, subst (λ l. Built front l b) (sym (append-nil seen)) v)
  add_all_lem front seen (r ∷ rs) b h v =
      let g = add_lem front seen r b h.0 v in
      let (after, e, built) = add_all_lem front (seen ++ r ∷ []) rs g.after h.1 g.built in
      (
        after,
        rw (g.added, add_all) e,
        subst (λ l. Built front l after) (append_assoc seen (r ∷ []) rs) built,
      )
