-- ===== src/Wal/Reader/Pages.antt =====
-- Reading a directory with a new last segment (wal/reader.cpp): the segments before it are read as
-- they were, and a segment of at most a page is read by one call of `OnPage`.
use structuredb.Base.{
  ℕ, zero, suc, ◌≤◌, ◌≡◌, refl, ap, subst, All-left, All-map, ◌∙◌, true, Option, none, some, List,
  [], ◌∷◌, ◌++◌, length, take, drop, arith, All, inl, inr, Bool-cases,
}
use structuredb.Base.Str.{Str, str_lt, str_eq, str_eq_iff, str_eq_refl, str_lt_irrefl}
use structuredb.Base.Assoc.{str_key, lookup, assign, lookup-assign, lookup-assigned}
use structuredb.Sdb.{has_more}
use structuredb.Wal.{wal_page_size}
use structuredb.Wal.Event.{Event}
use structuredb.Wal.Segment.{get_segment_no_from_name}
use structuredb.Wal.Files.{
  Directory, list_directory, sort, create_file_reader, Below, sort-last, All-sort,
}
use structuredb.Wal.Reader.{
  Position, End, finished, thrown, out_of_fuel, read_events, on_page, read_pages, read_segment,
  read_segments, read,
}

take-all : {A : Type 0} (n : ℕ) (xs : List A) → length xs ≤ n → take n xs ≡ xs
take-all zero [] h = refl
take-all zero (x ∷ xs) h = absurd (omega arith)
take-all (suc n) [] h = refl
take-all (suc n) (x ∷ xs) h = ap (λ ys. x ∷ ys) (take-all n xs (omega arith))

drop-all : {A : Type 0} (n : ℕ) (xs : List A) → length xs ≤ n → drop n xs ≡ []
drop-all zero [] h = refl
drop-all zero (x ∷ xs) h = absurd (omega arith)
drop-all (suc n) [] h = refl
drop-all (suc n) (x ∷ xs) h = drop-all n xs (omega arith)

-- The names that a directory has a file for.
abbrev pub Present : Directory → Str → Type 0
Present d name = (content : Str) × (lookup name d ≡ some content)

Present-assign :
    (name content n : Str) (d : Directory) → Present d n → Present ((name, content) ∷ d) n
unfolding lookup
Present-assign name content n d (c, h) = elim (Bool-cases (str_eq name n)) [
  | inl e ↦ (content, rw e refl)
  | inr e ↦ (c, rw e h)
]

pub present : (d : Directory) → All (Present d) (list_directory d)
unfolding list_directory lookup
present [] = tt
present ((name, content) ∷ d) = (
  (content, rw (str_eq_refl name) refl),
  All-map (λ n. Present-assign name content n d) (list_directory d) (present d),
)

module _ {ℓ} {S : Type ℓ} (on_event : Position → Event → S → Option S) where
  read_pages-end :
      (fuel : ℕ) (segment_no : Option ℕ) (s : S) → read_pages fuel on_event segment_no [] s ≡ s
  unfolding read_pages
  read_pages-end zero segment_no s = refl
  read_pages-end (suc fuel) segment_no s = refl

  -- What `read_pages` does behind a page.
  unfoldable pub after_page : ℕ → Option ℕ → S × End → Str → S
  after_page fuel segment_no (s, finished) rest = read_pages fuel on_event segment_no rest s
  after_page fuel segment_no (s, thrown) rest = s
  after_page fuel segment_no (s, out_of_fuel) rest = s

  pub read_pages-step :
      (fuel : ℕ) (segment_no : Option ℕ) (b : ℕ) (content : Str) (s : S)
      → read_pages (suc fuel) on_event segment_no (b ∷ content) s
        ≡ after_page fuel segment_no
            (on_page on_event
              (record { segment_no = segment_no; page_no = 0 })
              (take wal_page_size (b ∷ content))
              s)
            (drop wal_page_size (b ∷ content))
  unfolding read_pages after_page
  read_pages-step fuel segment_no b content s =
      let p =
        on_page on_event (record { segment_no = segment_no; page_no = 0 })
          (take wal_page_size (b ∷ content)) s in
      let rest = drop wal_page_size (b ∷ content) in
      elim p.1
        as (λ e.
          elim e as (λ x. S) [
            | finished ↦ read_pages fuel on_event segment_no rest p.0
            | thrown ↦ p.0
            | out_of_fuel ↦ p.0
          ]
          ≡ after_page fuel segment_no (p.0, e) rest) [
            | finished ↦ refl
            | thrown ↦ refl
            | out_of_fuel ↦ refl
          ]

  stop : (fuel : ℕ) (segment_no : Option ℕ) (p : S × End) → after_page fuel segment_no p [] ≡ p.0
  unfolding after_page
  stop fuel segment_no (s, finished) = read_pages-end fuel segment_no s
  stop fuel segment_no (s, thrown) = refl
  stop fuel segment_no (s, out_of_fuel) = refl

  -- A segment that is no longer than a page.
  pub read_segment-page :
      (segment_no : Option ℕ) (content : Str) (s : S)
      → length content ≤ wal_page_size
      → read_segment on_event segment_no content s
        ≡ (read_events
            (suc (length content))
            (on_event (record { segment_no = segment_no; page_no = 0 }))
            content
            s).0
  unfolding read_segment read_pages on_page read_events has_more
  read_segment-page segment_no [] s h = refl
  read_segment-page segment_no (b ∷ content) s h =
      let page = on_page on_event (record { segment_no = segment_no; page_no = 0 }) in
      read_pages-step (length (b ∷ content)) segment_no b content s
      ∙ ap
          (λ c.
            after_page (length (b ∷ content)) segment_no (page c s)
              (drop wal_page_size (b ∷ content)))
          (take-all wal_page_size (b ∷ content) h)
      ∙ ap (after_page (length (b ∷ content)) segment_no (page (b ∷ content) s))
          (drop-all wal_page_size (b ∷ content) h)
      ∙ stop (length (b ∷ content)) segment_no (page (b ∷ content) s)

  read_segments-append :
      (d : Directory) (names : List Str) (name content : Str) (s : S)
      → All (Present d) names
      → lookup name d ≡ some content
      → read_segments on_event d (names ++ name ∷ []) s
        ≡ read_segment on_event
            (get_segment_no_from_name name)
            content
            (read_segments on_event d names s)
  unfolding read_segments create_file_reader
  read_segments-append d [] name content s p e = rw (e, read_segments) refl
  read_segments-append d (n ∷ names) name content s p e =
      rw (p.0.1, read_segments) (read_segments-append d names name content _ p.1 e)

  read_segments-assign :
      (d : Directory) (name content : Str) (names : List Str) (s : S)
      → All (λ n. str_lt n name ≡ true) names
      → read_segments on_event (assign name content d) names s ≡ read_segments on_event d names s
  unfolding read_segments create_file_reader
  read_segments-assign d name content [] s h = refl
  read_segments-assign d name content (n ∷ names) s h =
      rw (kept n h.0, read_segments)
        (elim (lookup n d)
          as (λ o.
            elim o as (λ x. S) [
              | none ↦ s
              | some c ↦
                  read_segments on_event (assign name content d) names
                    (read_segment on_event (get_segment_no_from_name n) c s)
            ]
            ≡ elim o as (λ x. S) [
              | none ↦ s
              | some c ↦
                  read_segments on_event d names
                    (read_segment on_event (get_segment_no_from_name n) c s)
            ]) [ none ↦ refl | some c ↦ read_segments-assign d name content names _ h.1 ])
    where
      kept : (n : Str) → str_lt n name ≡ true → lookup n (assign name content d) ≡ lookup n d
      kept n h = lookup-assign name n content d ∙ ground (arith, str_eq_iff name n, str_lt_irrefl n)

  -- Reading with a new last segment of at most a page.
  pub read-last :
      (d : Directory) (name content : Str) (s : S)
      → Below name d
      → length content ≤ wal_page_size
      → read on_event (assign name content d) s
        ≡ (read_events
            (suc (length content))
            (on_event (record { segment_no = get_segment_no_from_name name; page_no = 0 }))
            content
            (read on_event d s)).0
  unfolding read
  read-last d name content s b h =
      ap (λ names. read_segments on_event (assign name content d) names s)
        (sort-last name content d b)
      ∙ read_segments-append (assign name content d) (sort (list_directory d)) name content s
          (All-left (Present (assign name content d)) (sort (list_directory d)) (name ∷ []) (
            subst (All (Present (assign name content d))) (sort-last name content d b)
              (All-sort _ _ (present (assign name content d)))))
          (lookup-assigned name content d)
      ∙ ap (read_segment on_event (get_segment_no_from_name name) content) (
          read_segments-assign d name content (sort (list_directory d)) s
            (All-sort _ (list_directory d) b))
      ∙ read_segment-page (get_segment_no_from_name name) content
          (read_segments on_event d (sort (list_directory d)) s) h
