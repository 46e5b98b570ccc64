-- ===== src/Wal/Cleaner/Safety.antt =====
-- What the cleaner removes (wal/cleaner.cpp).
use structuredb.Base.{
  ℕ, ◌≤◌, true≢false, ◌<◌, ◌≡◌, ◌≢◌, refl, sym, ap, subst, ◌∙◌, Bool, true, false, ◌&&◌, not,
  Option, none, some, [], arith, All, All-map, Option-cases, inl, inr, if◌then◌else◌,
}
use structuredb.Base.Str.{Str}
use structuredb.Base.Assoc.{option_key, str_key, nat_key, lookup, IsMap}
use structuredb.Wal.Event.{Event, lsm_storage_upsert, tx_storage_commit}
use structuredb.Wal.Segment.{segment_name, number-segment_name}
use structuredb.Wal.Files.{Directory, list_directory, sort, All-sort, member-listed}
use structuredb.Wal.Reader.{read, read_segments}
use structuredb.Wal.Reader.Runs.{segment_events, segments_keep}
use structuredb.Wal.Reader.Pages.{Present, present}
use structuredb.Wal.Cleaner.{Persistence, on_event, is_retained, clean}
use structuredb.Wal.Cleaner.Marks.{persistent, IsKnown, meets, on_event-IsMap}
use structuredb.Wal.Cleaner.Deletion.{marked, delete_lem}
use structuredb.Table.Engine.{
  Database, LsmEngine, is_event_persistent, is_persistent, get_storage_for_recover,
}

is_obsolete :
    (marks retains : Bool) {o : Option Str} {content : Str}
    → o ≡ some content
    → (if marks && not retains then none else o) ≡ none
    → (marks ≡ true) × (retains ≡ false)
is_obsolete true true h k = cc
is_obsolete true false h k = (refl, refl)
is_obsolete false retains h k = cc

known-persistent :
    (db : Database) (e : Event) → persistent db e ≡ true → is_event_persistent e db ≡ some true
known-persistent db e h = elim (Option-cases (is_event_persistent e db)) [
  | inl n ↦ absurd (true≢false (sym h ∙ rw (n, persistent) refl))
  | inr (b, n) ↦ n ∙ ap some (sym (rw (n, persistent) refl) ∙ h)
]

marked-failed :
    (n : ℕ) (m : Persistence) → marked (some n) m ≡ true → lookup (some n) m ≢ some false
marked-failed n m h k = true≢false (sym h ∙ rw (k, marked) refl)

-- What the cleaner has to know before an event may go: the engine of an upsert is there, and has table files
-- up to the upsert's sequence number at least. A commit is in no table file and is never waited for.
abbrev pub IsSaved : Database → Event → Type 0
IsSaved db (lsm_storage_upsert id seq_no key value) =
    (e : LsmEngine) × (lookup id db.engines ≡ some e) × (seq_no ≤ e.lsm.max_persistent_seq_no)
IsSaved db (tx_storage_commit tx) = Unit

persistent-IsSaved :
    (db : Database) (e : Event) → is_event_persistent e db ≡ some true → IsSaved db e
unfolding is_event_persistent get_storage_for_recover is_persistent
persistent-IsSaved db (tx_storage_commit tx) h = tt
persistent-IsSaved db (lsm_storage_upsert id seq_no key value) h =
    elim (Option-cases (lookup id db.engines)) [
      | inl n ↦ absurd (ground (arith, h, n))
      | inr (e, n) ↦ (e, n, ground (arith, h, n))
    ]

-- Let a segment's number be below 10000, and let the storages of its events be there, as recovery makes them.
-- If a cleaning removes the segment, then each upsert that is read from it has a sequence number that its
-- engine's table files have reached, and no follower retains the segment. Of the commits in the segment
-- nothing is promised.
pub clean-safe :
    (db : Database) (retain : Option (Option ℕ)) (d : Directory) (n : ℕ) (content : Str)
    → n < 10000
    → lookup (segment_name n) d ≡ some content
    → All (IsKnown db) (segment_events content)
    → lookup (segment_name n) (clean db retain d) ≡ none
    → All (IsSaved db) (segment_events content) × (is_retained retain (some n) ≡ false)
unfolding clean read
clean-safe db retain d n content h f k gone =
    let m = read_segments (on_event db) d (sort (list_directory d)) [] in
    let name = segment_name n in
    let left =
      sym (
        delete_lem retain n m d h
          (segments_keep IsMap (on_event db) (on_event-IsMap db) d (sort (list_directory d)) [] tt))
      ∙ gone in
    let obsolete = is_obsolete (marked (some n) m) (is_retained retain (some n)) f left in
    (
      (elim (meets db d name content (sort (list_directory d)) [] f k
          (All-sort (Present d) (list_directory d) (present d)) (member-listed name content d f)) [
            | inl all ↦
                All-map (λ e h. persistent-IsSaved db e (known-persistent db e h))
                  (segment_events content) all
            | inr failed ↦ absurd (
                marked-failed n m obsolete.0
                  (subst (λ j. lookup j m ≡ some false) (number-segment_name n h) failed))
          ]),
      obsolete.1,
    )

and_false : (b : Bool) → (b && false) ≡ false
and_false b = ground arith

-- A segment that a follower retains is kept as it is.
pub clean-kept :
    (db : Database) (retain : Option (Option ℕ)) (d : Directory) (n : ℕ)
    → n < 10000
    → is_retained retain (some n) ≡ true
    → lookup (segment_name n) (clean db retain d) ≡ lookup (segment_name n) d
unfolding clean read
clean-kept db retain d n h r =
    let m = read_segments (on_event db) d (sort (list_directory d)) [] in
    delete_lem retain n m d h
      (segments_keep IsMap (on_event db) (on_event-IsMap db) d (sort (list_directory d)) [] tt)
    ∙ ap (λ b. if b then none else lookup (segment_name n) d)
        (ap (λ x. marked (some n) m && not x) r ∙ and_false (marked (some n) m))
