-- ===== src/Wal/Reader/Parse.antt =====
-- The loop over the events of a page (wal/recovery.cpp and wal/cleaner.cpp, `OnPage`): it ends, it stops
-- in the padding, and it meets the events in the order of their bytes.
use structuredb.Base.{
  ℕ, zero, suc, ◌+◌, ◌*◌, ◌<◌, ◌≡◌, ◌≢◌, refl, sym, ap, ◌∙◌, true, Option, none, some, List, [],
  ◌∷◌, ◌++◌, length, replicate, arith, All, inl, inr, Option-cases,
}
use structuredb.Base.Str.{Str}
use structuredb.Sdb.{Fault, ok, err, unknown_event, read, read_int, has_more, return}
use structuredb.Sdb.Bytes.{le_value}
use structuredb.Wal.Event.{
  Event, parse_event, flush_event, IsEncodable, parse_event-flush_event, parser_of,
}
use structuredb.Wal.Reader.{read_events, thrown, out_of_fuel}
use structuredb.Wal.Reader.Takes.{
  Takes-parse_event, Result-cases, ok_rest, err_rest, read-suc, read-suc-err,
}
use mathlib.Core.List.{append_assoc}

-- The first byte of the padding makes no type that is known, whatever follows it.
parser_of-even : (v : ℕ) → parser_of (0 + 256 * v) ≡ (λ bytes. err unknown_event)
unfolding parser_of
parser_of-even v = ground arith

pub padding-throws : (bytes : Str) → (e : Fault) × (parse_event (0 ∷ bytes) ≡ err e)
unfolding parse_event read_int le_value
padding-throws bytes = elim (Result-cases (read 7 bytes)) [
  | inl ((s, rest), e) ↦ (
    unknown_event,
    ok_rest read_int parser_of (0 ∷ bytes)
          (ok_rest (read 8) (λ raw. return (le_value raw)) (0 ∷ bytes) (read-suc 7 0 bytes e))
        ∙ ap (λ m. m rest) (parser_of-even (le_value s)),
  )
  | inr (f, e) ↦ (
    f,
    err_rest read_int parser_of (0 ∷ bytes)
        (err_rest (read 8) (λ raw. return (le_value raw)) (0 ∷ bytes) (read-suc-err 7 0 bytes e)),
  )
]

has_more-ok : (bytes : Str) {p : Event × Str} → parse_event bytes ≡ ok p → has_more bytes ≡ true
unfolding has_more parse_event read_int read
has_more-ok [] h = cc
has_more-ok (b ∷ bytes) h = refl

-- What the loop does with the events of a list.
unfoldable pub run {ℓ} : {S : Type ℓ} → (Event → S → S) → List Event → S → S
run f [] s = s
run f (e ∷ es) s = run f es (f e s)

pub run-append {ℓ} :
    {S : Type ℓ} (f : Event → S → S) (xs ys : List Event) (s : S)
    → run f (xs ++ ys) s ≡ run f ys (run f xs s)
unfolding run
run-append f [] ys s = refl
run-append f (x ∷ xs) ys s = run-append f xs ys (f x s)

-- The bytes of events written one behind the other.
unfoldable pub flush_all : List Event → Str
flush_all [] = []
flush_all (e ∷ es) = flush_event e [] ++ flush_all es

module _ {ℓ} {S : Type ℓ} where
  module _ (on_event : Event → S → Option S) (fuel : ℕ) (bytes : Str) (s : S) where
    pub events-err :
        {e : Fault}
        → has_more bytes ≡ true
        → parse_event bytes ≡ err e
        → read_events (suc fuel) on_event bytes s ≡ (s, thrown)
    unfolding read_events
    events-err m e = rw (m, e, read_events) refl

    pub events-threw :
        {event : Event} {rest : Str}
        → has_more bytes ≡ true
        → parse_event bytes ≡ ok (event, rest)
        → on_event event s ≡ none
        → read_events (suc fuel) on_event bytes s ≡ (s, thrown)
    unfolding read_events
    events-threw m e n = rw (m, e, n, read_events) refl

    pub events-next :
        {event : Event} {rest : Str} {s' : S}
        → has_more bytes ≡ true
        → parse_event bytes ≡ ok (event, rest)
        → on_event event s ≡ some s'
        → read_events (suc fuel) on_event bytes s ≡ read_events fuel on_event rest s'
    unfolding read_events
    events-next m e n = rw (m, e, n, read_events) refl

  -- The loop over the events of a page ends, whatever the bytes of the page are and whatever is done
  -- with an event: the fuel, which is more than the number of bytes, is never used up.
  pub read_events-ends :
      (on_event : Event → S → Option S) (fuel : ℕ) (bytes : Str) (s : S)
      → length bytes < fuel
      → (read_events fuel on_event bytes s).1 ≢ out_of_fuel
  unfolding read_events has_more
  read_events-ends on_event zero bytes s h = omega arith
  read_events-ends on_event (suc fuel) [] s h = λ e. cc
  read_events-ends on_event (suc fuel) (b ∷ bytes) s h =
      elim (Result-cases (parse_event (b ∷ bytes))) [
        | inr (f, e) ↦ λ k. cc (events-err on_event fuel (b ∷ bytes) s refl e)
        | inl ((event, rest), e) ↦ elim (Option-cases (on_event event s)) [
          | inl n ↦ λ k. cc (events-threw on_event fuel (b ∷ bytes) s refl e n)
          | inr (s', n) ↦ λ k.
              read_events-ends on_event fuel rest s'
                (omega (arith, Takes-parse_event.takes _ _ _ e))
                (ap (λ p. p.1) (sym (events-next on_event fuel (b ∷ bytes) s refl e n)) ∙ k)
        ]
      ]

  read_events-padding :
      (on_event : Event → S → Option S) (fuel k : ℕ) (s : S)
      → (read_events (suc fuel) on_event (replicate k 0) s).0 ≡ s
  unfolding read_events has_more
  read_events-padding on_event fuel zero s = refl
  read_events-padding on_event fuel (suc k) s =
      ap (λ p. p.0)
        (events-err on_event fuel (0 ∷ replicate k 0) s refl (padding-throws (replicate k 0)).1)

  -- Events that were written one behind the other and padded are met in their order, once each.
  pub read_events-flush_all :
      (f : Event → S → S) (es : List Event) (fuel k : ℕ) (s : S)
      → All IsEncodable es
      → length (flush_all es ++ replicate k 0) < fuel
      → (read_events fuel (λ e t. some (f e t)) (flush_all es ++ replicate k 0) s).0 ≡ run f es s
  unfolding flush_all run
  read_events-flush_all f [] zero k s h l = absurd (omega arith)
  read_events-flush_all f [] (suc fuel) k s h l = read_events-padding _ fuel k s
  read_events-flush_all f (e ∷ es) zero k s h l = absurd (omega arith)
  read_events-flush_all f (e ∷ es) (suc fuel) k s h l =
      let rest = flush_all es ++ replicate k 0 in
      let parsed =
        ap parse_event (append_assoc (flush_event e []) (flush_all es) (replicate k 0))
        ∙ (parse_event-flush_event e h.0).reads rest in
      ap (λ p. p.0) (events-next _ fuel _ s (has_more-ok _ parsed) parsed refl)
      ∙ read_events-flush_all f es fuel k (f e s) h.1
          (omega (arith, Takes-parse_event.takes _ _ _ parsed))
