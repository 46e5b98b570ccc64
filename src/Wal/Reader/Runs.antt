-- ===== src/Wal/Reader/Runs.antt =====
-- The events of a segment, read with no effect, and reading as going through them.
use structuredb.Base.{
  ℕ, zero, suc, ◌≡◌, refl, sym, ap, subst, ◌∙◌, true, false, Option, none, some, List, [], ◌∷◌,
  ◌++◌, length, take, drop, All, All-left, All-right, Option-cases, inl, inr,
}
use structuredb.Base.Str.{Str}
use structuredb.Sdb.{Fault, ok, err, has_more}
use structuredb.Wal.{wal_page_size}
use structuredb.Wal.Event.{Event, parse_event}
use structuredb.Wal.Segment.{get_segment_no_from_name}
use structuredb.Wal.Files.{Directory, create_file_reader}
use structuredb.Wal.Reader.{
  Position, End, finished, thrown, out_of_fuel, read_events, on_page, read_pages, read_segment,
  read_segments,
}
use structuredb.Wal.Reader.Pages.{after_page, read_pages-step}
use structuredb.Wal.Reader.Parse.{run, run-append, events-err, events-threw, events-next}
use structuredb.Wal.Reader.Takes.{Result-cases}

-- The events of a page up to the first that cannot be parsed, and how the page ends.
unfoldable pub page_events : ℕ → Str → List Event × End
page_events zero bytes = ([], out_of_fuel)
page_events (suc fuel) bytes = elim (has_more bytes) [
  | false ↦ ([], finished)
  | true ↦ elim (parse_event bytes) [
    | err e ↦ ([], thrown)
    | ok (event, rest) ↦ let more = page_events fuel rest in (event ∷ more.0, more.1)
  ]
]

-- The events of the pages of a segment, up to the first page that ends by a throw.
unfoldable pub pages_events : ℕ → Str → List Event
unfolding page_events
pages_events zero content = []
pages_events (suc fuel) [] = []
pages_events (suc fuel) (b ∷ content) =
    let page = take wal_page_size (b ∷ content) in
    let (events, end) = page_events (suc (length page)) page in
    elim end [
      | finished ↦ events ++ pages_events fuel (drop wal_page_size (b ∷ content))
      | _ ↦ events
    ]

unfoldable pub segment_events : Str → List Event
unfolding pages_events
segment_events content = pages_events (suc (length content)) content

page_events-err :
    (fuel b : ℕ) (bytes : Str) {e : Fault}
    → parse_event (b ∷ bytes) ≡ err e
    → page_events (suc fuel) (b ∷ bytes) ≡ ([], thrown)
unfolding page_events has_more
page_events-err fuel b bytes h = rw (h, page_events) refl

page_events-next :
    (fuel b : ℕ) (bytes : Str) {event : Event} {rest : Str}
    → parse_event (b ∷ bytes) ≡ ok (event, rest)
    → page_events (suc fuel) (b ∷ bytes)
      ≡ (event ∷ (page_events fuel rest).0, (page_events fuel rest).1)
unfolding page_events has_more
page_events-next fuel b bytes h = rw (h, page_events) refl

-- The events behind a page.
more_events : ℕ → List Event × End → Str → List Event
more_events fuel (events, finished) rest = events ++ pages_events fuel rest
more_events fuel (events, thrown) rest = events
more_events fuel (events, out_of_fuel) rest = events

pages_events-step :
    (fuel b : ℕ) (content : Str)
    → pages_events (suc fuel) (b ∷ content)
      ≡ more_events fuel
          (page_events
            (suc (length (take wal_page_size (b ∷ content))))
            (take wal_page_size (b ∷ content)))
          (drop wal_page_size (b ∷ content))
unfolding pages_events more_events
pages_events-step fuel b content =
    let p =
      page_events (suc (length (take wal_page_size (b ∷ content))))
        (take wal_page_size (b ∷ content)) in
    let rest = drop wal_page_size (b ∷ content) in
    elim p.1
      as (λ e.
        elim e as (λ x. List Event) [
          | finished ↦ p.0 ++ pages_events fuel rest
          | thrown ↦ p.0
          | out_of_fuel ↦ p.0
        ]
        ≡ more_events fuel (p.0, e) rest) [ finished ↦ refl | thrown ↦ refl | out_of_fuel ↦ refl ]

-- An effect on events that does not throw on those of a kind.
module _ {ℓ} {S : Type ℓ} (K : Event → Type 0) (f : Event → S → S) where
  page_run :
      (g : Event → S → Option S)
      → ((e : Event) (s : S) → K e → g e s ≡ some (f e s))
      → (fuel : ℕ) (bytes : Str) (s : S) → All K (page_events fuel bytes).0
      → read_events fuel g bytes s
        ≡ (run f (page_events fuel bytes).0 s, (page_events fuel bytes).1)
  unfolding page_events read_events run has_more
  page_run g h zero bytes s k = refl
  page_run g h (suc fuel) [] s k = refl
  page_run g h (suc fuel) (b ∷ bytes) s k = elim (Result-cases (parse_event (b ∷ bytes))) [
    | inr (x, e) ↦
        events-err g fuel (b ∷ bytes) s refl e
        ∙ sym (ap (λ p. (run f p.0 s, p.1)) (page_events-err fuel b bytes e))
    | inl ((event, rest), e) ↦
        let step = page_events-next fuel b bytes e in
        let known = subst (λ p. All K p.0) step k in
        events-next g fuel (b ∷ bytes) s refl e (h event s known.0)
        ∙ page_run g h fuel rest (f event s) known.1
        ∙ sym (ap (λ p. (run f p.0 s, p.1)) step)
  ]

  module _ (g : Position → Event → S → Option S) (segment_no : Option ℕ)
      (h : (e : Event) (s : S)
        → K e
        → g (record { segment_no = segment_no; page_no = 0 }) e s ≡ some (f e s)) where
    after_run :
        (fuel : ℕ) (p : List Event × End) (rest : Str) (s : S)
        → ((t : S)
            → All K (pages_events fuel rest)
            → read_pages fuel g segment_no rest t ≡ run f (pages_events fuel rest) t)
        → All K (more_events fuel p rest)
        → after_page g fuel segment_no (run f p.0 s, p.1) rest ≡ run f (more_events fuel p rest) s
    unfolding more_events after_page
    after_run fuel (events, finished) rest s r k =
        r (run f events s) (All-right K events _ k)
        ∙ sym (run-append f events (pages_events fuel rest) s)
    after_run fuel (events, thrown) rest s r k = refl
    after_run fuel (events, out_of_fuel) rest s r k = refl

    more-known :
        (fuel : ℕ) (p : List Event × End) (rest : Str) → All K (more_events fuel p rest) → All K p.0
    unfolding more_events
    more-known fuel (events, finished) rest k = All-left K events _ k
    more-known fuel (events, thrown) rest k = k
    more-known fuel (events, out_of_fuel) rest k = k

    pages_run :
        (fuel : ℕ) (content : Str) (s : S)
        → All K (pages_events fuel content)
        → read_pages fuel g segment_no content s ≡ run f (pages_events fuel content) s
    unfolding pages_events read_pages run on_page
    pages_run zero content s k = refl
    pages_run (suc fuel) [] s k = refl
    pages_run (suc fuel) (b ∷ content) s k =
        let pos : Position = record { segment_no = segment_no; page_no = 0 } in
        let page = take wal_page_size (b ∷ content) in
        let rest = drop wal_page_size (b ∷ content) in
        let here = page_events (suc (length page)) page in
        let known = subst (All K) (pages_events-step fuel b content) k in
        read_pages-step g fuel segment_no b content s
        ∙ ap (λ p. after_page g fuel segment_no p rest)
            (page_run (g pos) h (suc (length page)) page s (more-known fuel here rest known))
        ∙ after_run fuel here rest s (λ t. pages_run fuel rest t) known
        ∙ sym (ap (λ l. run f l s) (pages_events-step fuel b content))

    -- Where nothing that is done with an event of the segment throws, reading the segment goes through
    -- its events.
    pub segment_run :
        (content : Str) (s : S)
        → All K (segment_events content)
        → read_segment g segment_no content s ≡ run f (segment_events content) s
    unfolding segment_events read_segment
    segment_run content s k = pages_run (suc (length content)) content s k

-- What every effect keeps, reading keeps.
module _ {ℓ κ} {S : Type ℓ} (P : S → Type κ) where
  events_keep :
      (g : Event → S → Option S)
      → ((e : Event) (s s' : S) → P s → g e s ≡ some s' → P s')
      → (fuel : ℕ) (bytes : Str) (s : S) → P s
      → P (read_events fuel g bytes s).0
  unfolding read_events has_more
  events_keep g h zero bytes s p = p
  events_keep g h (suc fuel) [] s p = p
  events_keep g h (suc fuel) (b ∷ bytes) s p = elim (Result-cases (parse_event (b ∷ bytes))) [
    | inr (x, e) ↦ subst (λ r. P r.0) (sym (events-err g fuel (b ∷ bytes) s refl e)) p
    | inl ((event, rest), e) ↦ elim (Option-cases (g event s)) [
      | inl n ↦ subst (λ r. P r.0) (sym (events-threw g fuel (b ∷ bytes) s refl e n)) p
      | inr (s', n) ↦
          subst (λ r. P r.0) (sym (events-next g fuel (b ∷ bytes) s refl e n))
            (events_keep g h fuel rest s' (h event s s' p n))
    ]
  ]

  module _ (g : Position → Event → S → Option S)
      (h : (pos : Position) (e : Event) (s s' : S) → P s → g pos e s ≡ some s' → P s') where
    after_keep :
        (fuel : ℕ) (segment_no : Option ℕ) (p : S × End) (rest : Str)
        → ((t : S) → P t → P (read_pages fuel g segment_no rest t))
        → P p.0
        → P (after_page g fuel segment_no p rest)
    unfolding after_page
    after_keep fuel segment_no (s, finished) rest r k = r s k
    after_keep fuel segment_no (s, thrown) rest r k = k
    after_keep fuel segment_no (s, out_of_fuel) rest r k = k

    pages_keep :
        (fuel : ℕ) (segment_no : Option ℕ) (content : Str) (s : S)
        → P s
        → P (read_pages fuel g segment_no content s)
    unfolding read_pages on_page
    pages_keep zero segment_no content s p = p
    pages_keep (suc fuel) segment_no [] s p = p
    pages_keep (suc fuel) segment_no (b ∷ content) s p =
        let pos : Position = record { segment_no = segment_no; page_no = 0 } in
        let page = take wal_page_size (b ∷ content) in
        let rest = drop wal_page_size (b ∷ content) in
        subst P (sym (read_pages-step g fuel segment_no b content s)) (
          after_keep fuel segment_no (on_page g pos page s) rest
            (λ t. pages_keep fuel segment_no rest t)
            (events_keep (g pos) (h pos) (suc (length page)) page s p))

    pub segments_keep :
        (d : Directory) (names : List Str) (s : S) → P s → P (read_segments g d names s)
    unfolding read_segments read_segment
    segments_keep d [] s p = p
    segments_keep d (name ∷ names) s p =
        elim (create_file_reader name d)
          as (λ o. P (elim o as (λ x. S) [
            | none ↦ s
            | some content ↦
                read_segments g d names (read_segment g (get_segment_no_from_name name) content s)
          ])) [
            | none ↦ p
            | some content ↦
                segments_keep d names _
                  (pages_keep (suc (length content)) (get_segment_no_from_name name) content s p)
          ]
