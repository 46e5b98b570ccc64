-- ===== src/Wal/Cleaner/Marks.antt =====
-- What the reading of the cleaner finds out of each segment (wal/cleaner.cpp).
use structuredb.Base.{
  ℕ, ◌≡◌, ◌≢◌, refl, sym, ap, subst, ◌∙◌, Bool, true, false, ◌&&◌, Option, none, some, List, [],
  ◌∷◌, arith, All, ◌||◌, some_inj, Bool-cases, Option-cases, inl, inr, ◌⊎◌,
}
use structuredb.Base.Str.{Str, str_eq, str_eq_iff}
use structuredb.Base.Assoc.{
  option_key, str_key, nat_key, lookup, assign, lookup-assign, lookup-assigned, option_eq,
  option_eq_iff, IsMap, assign-IsMap, member,
}
use structuredb.Wal.Event.{Event}
use structuredb.Wal.Segment.{get_segment_no_from_name}
use structuredb.Wal.Files.{Directory, create_file_reader}
use structuredb.Wal.Reader.{Position, read_segments, read_segment}
use structuredb.Wal.Reader.Parse.{run}
use structuredb.Wal.Reader.Runs.{segment_events, segment_run, segments_keep}
use structuredb.Wal.Reader.Pages.{Present}
use structuredb.Wal.Cleaner.{Persistence, accumutae_persistence, on_event}
use structuredb.Table.Engine.{Database, is_event_persistent}

none≢some : {A : Type 0} {a : A} → none ≢ some a
none≢some h = cc

lookup-accumutae :
    (k : Option ℕ) (b : Bool) (m : Persistence)
    → lookup k (accumutae_persistence k b m)
      ≡ some (elim (lookup k m) [ none ↦ b | some before ↦ before && b ])
unfolding accumutae_persistence
lookup-accumutae k b m = elim (Option-cases (lookup k m)) [
  | inl e ↦ rw (e, accumutae_persistence) (lookup-assigned k b m)
  | inr (x, e) ↦ rw (e, accumutae_persistence) (lookup-assigned k (x && b) m)
]

lookup-accumutae_other :
    (k j : Option ℕ) (b : Bool) (m : Persistence)
    → option_eq k j ≡ false
    → lookup j (accumutae_persistence k b m) ≡ lookup j m
unfolding accumutae_persistence
lookup-accumutae_other k j b m n = elim (Option-cases (lookup k m)) [
  | inl e ↦ rw (e, accumutae_persistence) (lookup-assign k j b m ∙ rw n refl)
  | inr (x, e) ↦ rw (e, accumutae_persistence) (lookup-assign k j (x && b) m ∙ rw n refl)
]

false-stays :
    (k j : Option ℕ) (b : Bool) (m : Persistence)
    → lookup j m ≡ some false
    → lookup j (accumutae_persistence k b m) ≡ some false
false-stays k j b m h = elim (Bool-cases (option_eq k j)) [
  | inl e ↦
      subst (λ i. lookup i (accumutae_persistence k b m) ≡ some false) ((option_eq_iff k j).0 e)
        (lookup-accumutae k b m
          ∙ ap (λ o. some (elim o as (λ x. Bool) [ none ↦ b | some before ↦ before && b ]))
              (ap (λ i. lookup i m) ((option_eq_iff k j).0 e) ∙ h))
  | inr e ↦ lookup-accumutae_other k j b m e ∙ h
]

on_event-some :
    (db : Database) (pos : Position) (e : Event) (m m' : Persistence)
    → on_event db pos e m ≡ some m'
    → (b : Bool) × (accumutae_persistence pos.segment_no b m ≡ m')
unfolding on_event
on_event-some db pos e m m' h = elim (Option-cases (is_event_persistent e db)) [
  | inl n ↦ absurd (none≢some (sym (rw (n, on_event) refl) ∙ h))
  | inr (b, n) ↦ (b, some_inj (sym (rw (n, on_event) refl) ∙ h))
]

-- A segment that was found to hold an event that is in no file stays so.
failed-stays :
    (db : Database) (j : Option ℕ) (pos : Position) (e : Event) (m m' : Persistence)
    → lookup j m ≡ some false
    → on_event db pos e m ≡ some m'
    → lookup j m' ≡ some false
failed-stays db j pos e m m' h k =
    let (b, q) = on_event-some db pos e m m' k in
    subst (λ n. lookup j n ≡ some false) q (false-stays pos.segment_no j b m h)

accumutae-IsMap :
    (k : Option ℕ) (b : Bool) (m : Persistence) → IsMap m → IsMap (accumutae_persistence k b m)
unfolding accumutae_persistence
accumutae-IsMap k b m h =
    elim (lookup k m)
      as (λ o. IsMap (elim o as (λ x. Persistence) [
        | none ↦ assign k b m
        | some before ↦ assign k (before && b) m
      ])) [ none ↦ assign-IsMap k b m h | some before ↦ assign-IsMap k (before && b) m h ]

pub on_event-IsMap :
    (db : Database) (pos : Position) (e : Event) (m m' : Persistence)
    → IsMap m
    → on_event db pos e m ≡ some m'
    → IsMap m'
on_event-IsMap db pos e m m' h k =
    let (b, q) = on_event-some db pos e m m' k in
    subst IsMap q (accumutae-IsMap pos.segment_no b m h)

-- Whether an event is in a table file; `false` where its storage is missing.
abbrev pub persistent : Database → Event → Bool
persistent db e = elim (is_event_persistent e db) [ none ↦ false | some b ↦ b ]

persistent-some :
    (db : Database) (e : Event) (b : Bool) → is_event_persistent e db ≡ some b → persistent db e ≡ b
persistent-some db e b h = rw (h, persistent) refl

-- An event whose storage is there.
abbrev pub IsKnown : Database → Event → Type 0
IsKnown db e = is_event_persistent e db ≢ none

on_event-known :
    (db : Database) (segment_no : Option ℕ) (e : Event) (m : Persistence)
    → IsKnown db e
    → on_event db (record { segment_no = segment_no; page_no = 0 }) e m
      ≡ some (accumutae_persistence segment_no (persistent db e) m)
unfolding on_event
on_event-known db segment_no e m h = elim (Option-cases (is_event_persistent e db)) [
  | inl n ↦ absurd (h n)
  | inr (b, n) ↦
      rw (n, on_event) refl
      ∙ ap (λ x. some (accumutae_persistence segment_no x m)) (sym (persistent-some db e b n))
]

run-false :
    (db : Database) (k : Option ℕ) (es : List Event) (m : Persistence)
    → lookup k m ≡ some false
    → lookup k (run (λ e m. accumutae_persistence k (persistent db e) m) es m) ≡ some false
unfolding run
run-false db k [] m h = h
run-false db k (e ∷ es) m h = run-false db k es _ (false-stays k k (persistent db e) m h)

new-false :
    (db : Database) (k : Option ℕ) (e : Event) (m : Persistence)
    → persistent db e ≡ false
    → lookup k (accumutae_persistence k (persistent db e) m) ≡ some false
new-false db k e m h =
    lookup-accumutae k (persistent db e) m
    ∙ ap some
        (elim (lookup k m)
          as (λ o.
            elim o as (λ x. Bool) [
              | none ↦ persistent db e
              | some before ↦ before && persistent db e
            ]
            ≡ false) [ none ↦ h | some before ↦ ground (arith, h) ])

-- Going through the events of a segment: all are in files, or the segment is marked.
go_through :
    (db : Database) (k : Option ℕ) (es : List Event) (m : Persistence)
    → All (λ e. persistent db e ≡ true) es
      ⊎ (lookup k (run (λ e m. accumutae_persistence k (persistent db e) m) es m) ≡ some false)
unfolding run
go_through db k [] m = inl tt
go_through db k (e ∷ es) m = elim (Bool-cases (persistent db e)) [
  | inl h ↦ elim (go_through db k es (accumutae_persistence k (persistent db e) m)) [
    | inl all ↦ inl (h, all)
    | inr failed ↦ inr failed
  ]
  | inr h ↦ inr (run-false db k es _ (new-false db k e m h))
]

segments-step :
    (db : Database) (d : Directory) (name content : Str) (names : List Str) (m : Persistence)
    → lookup name d ≡ some content
    → read_segments (on_event db) d (name ∷ names) m
      ≡ read_segments
          (on_event db)
          d
          names
          (read_segment (on_event db) (get_segment_no_from_name name) content m)
unfolding read_segments create_file_reader
segments-step db d name content names m h = rw (h, read_segments) refl

-- Reading the segments meets the events of each of them.
pub meets :
    (db : Database) (d : Directory) (name content : Str) (names : List Str) (m : Persistence)
    → lookup name d ≡ some content
    → All (IsKnown db) (segment_events content)
    → All (Present d) names
    → member name names ≡ true
    → All (λ e. persistent db e ≡ true) (segment_events content)
      ⊎ (lookup (get_segment_no_from_name name) (read_segments (on_event db) d names m)
          ≡ some false)
unfolding member
meets db d name content [] m h k p q = cc
meets db d name content (n ∷ names) m h k p q = elim (Bool-cases (str_eq n name)) [
  | inl e ↦
      let number = get_segment_no_from_name name in
      elim (go_through db number (segment_events content) m) [
        | inl all ↦ inl all
        | inr failed ↦ inr (
            ap (λ z. lookup number (read_segments (on_event db) d (z ∷ names) m))
              ((str_eq_iff n name).0 e)
            ∙ ap (lookup number) (segments-step db d name content names m h)
            ∙ segments_keep (λ s. lookup number s ≡ some false) (on_event db)
                (failed-stays db number) d names _
                (ap (lookup number) (
                    segment_run (IsKnown db)
                      (λ e m. accumutae_persistence number (persistent db e) m) (on_event db) number
                      (λ e m. on_event-known db number e m) content m k)
                  ∙ failed))
      ]
  | inr e ↦
      let rest = read_segment (on_event db) (get_segment_no_from_name n) p.0.0 m in
      elim (meets db d name content names rest h k p.1
        (subst (λ b. (b || member name names) ≡ true) e q)) [
          | inl all ↦ inl all
          | inr failed ↦ inr (
              ap (lookup (get_segment_no_from_name name)) (segments-step db d n p.0.0 names m p.0.1)
              ∙ failed)
        ]
]
