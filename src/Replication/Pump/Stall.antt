-- ===== src/Replication/Pump/Stall.antt =====
-- A stream that never goes on (services/replication_service).
use structuredb.Base.{
  ◌≡◌, refl, ap, ◌∙◌, Bool, true, false, ◌&&◌, not, some, List, [], ◌∷◌, ◌++◌, arith, All,
}
use structuredb.Base.Assoc.{option_eq_iff}
use structuredb.Wal.Files.{Directory}
use structuredb.Wal.Tail.{WalPageData, collect_pages_from}
use structuredb.Replication.Pump.{
  Reactor, Callback, is_already_sent_tail, is_completed, Flow, next_page, stop, finish,
  growing_page, poll, pump, pump_page, deliver_all,
}
use structuredb.Replication.Pump.Streaming.{
  accepted, IsOpen, completed_pages, behind, pump_pages-step, pump_page-open, page_sent-tail,
  completed_pages-IsOpen, pump_pages-completed, poll-collected, poll-blocked,
}
use mathlib.Core.List.{append-nil}

-- A poll stops behind the first page that is not completed.
poll-stops :
    (d : Directory) (r : Reactor) (full : List WalPageData) (tail : WalPageData)
    (later : List WalPageData)
    → IsOpen r
    → collect_pages_from d r.next_pos ≡ some (full ++ tail ∷ later)
    → All (λ page. is_completed page ≡ true) full
    → is_completed tail ≡ false
    → is_already_sent_tail tail (completed_pages full r) ≡ false
    → poll accepted d r ≡ ((growing_page tail (completed_pages full r), stop), full ++ tail ∷ [])
poll-stops d r full tail later h e c t s =
    let at_tail = completed_pages full r in
    let last : pump_page accepted tail at_tail ≡ ((growing_page tail at_tail, stop), tail ∷ []) =
      pump_page-open tail at_tail (completed_pages-IsOpen full r h)
        (ap (λ x. not x && is_already_sent_tail tail at_tail) t ∙ s)
      ∙ ap (λ q. (q, tail ∷ [])) (page_sent-tail tail at_tail t) in
    poll-collected accepted d r (full ++ tail ∷ later) e
    ∙ pump_pages-completed full (tail ∷ later) r h c
    ∙ ap (λ q. (q.0, full ++ q.1))
        (pump_pages-step accepted tail later at_tail ∙ ap (behind accepted later) last)

-- What the polls find: a log that from the page on begins with it, and no callback in the waits.
abbrev pub Unchanged : WalPageData → List (Directory × List Callback) → Type 0
Unchanged tail = All (λ x.
    (x.1 ≡ [])
    × (later : List WalPageData) × (collect_pages_from x.0 tail.position ≡ some (tail ∷ later)))

growing-sent :
    (tail : WalPageData) (r : Reactor) → is_already_sent_tail tail (growing_page tail r) ≡ true
unfolding is_already_sent_tail growing_page
growing-sent tail r =
    ground (arith, (option_eq_iff tail.position.segment_no tail.position.segment_no).1 refl)

-- What follows a poll.
abbrev onward :
    List (Directory × List Callback)
    → List Callback
    → (Reactor × Flow) × List WalPageData
    → Reactor × List WalPageData
onward polls callbacks ((r, finish), sent) = (r, sent)
onward polls callbacks ((r, next_page), sent) =
    let rest = pump accepted polls (deliver_all callbacks r) in (rest.0, sent ++ rest.1)
onward polls callbacks ((r, stop), sent) =
    let rest = pump accepted polls (deliver_all callbacks r) in (rest.0, sent ++ rest.1)

if_open :
    {A : Type 0} (b : Bool) (x y : A)
    → b ≡ false
    → (elim b as (λ z. A) [ true ↦ x | false ↦ y ]) ≡ y
if_open true x y h = cc
if_open false x y h = refl

pump-step :
    (d : Directory) (callbacks : List Callback) (polls : List (Directory × List Callback))
    (r : Reactor)
    → r.cancelled ≡ false
    → pump accepted ((d, callbacks) ∷ polls) r ≡ onward polls callbacks (poll accepted d r)
unfolding pump
pump-step d callbacks polls r o =
    let p = poll accepted d r in
    let rest = pump accepted polls (deliver_all callbacks p.0.0) in
    if_open r.cancelled (r, []) _ o
    ∙ elim p.0.1
        as (λ flow.
          elim flow as (λ x. Reactor × List WalPageData) [
            | finish ↦ (p.0.0, p.1)
            | next_page ↦ (rest.0, p.1 ++ rest.1)
            | stop ↦ (rest.0, p.1 ++ rest.1)
          ]
          ≡ onward polls callbacks ((p.0.0, flow), p.1)) [
            | finish ↦ refl
            | next_page ↦ refl
            | stop ↦ refl
          ]

pump-blocked :
    (polls : List (Directory × List Callback)) (tail : WalPageData) (r : Reactor)
    → r.cancelled ≡ false
    → r.next_pos ≡ tail.position
    → is_completed tail ≡ false
    → is_already_sent_tail tail r ≡ true
    → Unchanged tail polls
    → pump accepted polls r ≡ (r, [])
unfolding pump deliver_all
pump-blocked [] tail r o n t s u = refl
pump-blocked ((d, callbacks) ∷ polls) tail r o n t s ((quiet, later, e), u) =
    pump-step d callbacks polls r o
    ∙ ap (onward polls callbacks)
        (poll-blocked accepted d r tail later (ap (collect_pages_from d) n ∙ e) t s)
    ∙ ap (λ cs. onward polls cs ((r, stop), [])) quiet
    ∙ ap (λ q. (q.0, q.1)) (pump-blocked polls tail r o n t s u)

-- Let a reactor's stream be open, every write succeed, and the pages from its position on be completed ones,
-- then one that is shorter than a page and was not sent with this length, and then whatever follows in
-- later segments. If the short page never grows, as after a restart of the leader, and no callback arrives
-- in the waits, then however many polls follow, and whatever later segments they find, the completed pages
-- and the short one are all that is ever sent: no page behind the short one reaches the follower.
pub pump-stalls :
    (d : Directory) (polls : List (Directory × List Callback)) (r : Reactor)
    (full : List WalPageData) (tail : WalPageData) (later : List WalPageData)
    → IsOpen r
    → collect_pages_from d r.next_pos ≡ some (full ++ tail ∷ later)
    → All (λ page. is_completed page ≡ true) full
    → is_completed tail ≡ false
    → is_already_sent_tail tail (completed_pages full r) ≡ false
    → Unchanged tail polls
    → (pump accepted ((d, []) ∷ polls) r).1 ≡ full ++ tail ∷ []
unfolding growing_page completed_pages deliver_all
pump-stalls d polls r full tail later h e c t s u =
    let at_tail = completed_pages full r in
    ap (λ q. q.1) (pump-step d [] polls r h.0)
    ∙ ap (λ q. (onward polls [] q).1) (poll-stops d r full tail later h e c t s)
    ∙ ap (λ q. (full ++ tail ∷ []) ++ q.1)
        (pump-blocked polls tail (growing_page tail at_tail) (completed_pages-IsOpen full r h).0
          refl t (growing-sent tail at_tail) u)
    ∙ append-nil (full ++ tail ∷ [])
