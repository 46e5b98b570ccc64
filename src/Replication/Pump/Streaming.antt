-- ===== src/Replication/Pump/Streaming.antt =====
-- What a poll of the reactor sends (services/replication_service).
use structuredb.Base.{
  ◌≡◌, refl, sym, ap, ◌∙◌, Bool, true, false, ◌&&◌, ◌||◌, not, some, List, [], ◌∷◌, ◌++◌, length,
  arith, All, if◌then◌else◌,
}
use structuredb.Wal.Files.{Directory}
use structuredb.Wal.Tail.{WalPageData, collect_pages_from}
use structuredb.Replication.Pump.{
  Reactor, Callback, on_write_done, deliver, deliver_all, is_already_sent_tail, is_completed, Flow,
  next_page, stop, finish, answer, page_sent, completed_page, growing_page, pump_page, pump_pages,
  poll,
}

-- Every write succeeds.
abbrev pub accepted : WalPageData → List Callback
accepted page = on_write_done true ∷ []

-- A reactor whose stream is open.
abbrev pub IsOpen : Reactor → Type 0
IsOpen r = (r.cancelled ≡ false) × (r.write_ok ≡ true) × (r.write_pending ≡ false)

-- The reactor behind completed pages that were written.
unfoldable pub completed_pages : List WalPageData → Reactor → Reactor
completed_pages [] r = r
completed_pages (page ∷ pages) r = completed_pages pages (completed_page page r)

completed_page-IsOpen :
    (page : WalPageData) (r : Reactor) → IsOpen r → IsOpen (completed_page page r)
unfolding completed_page
completed_page-IsOpen page r h = h

-- A write that succeeds leaves the reactor as it was.
answered :
    (page : WalPageData) (r : Reactor)
    → IsOpen r
    → deliver_all (accepted page) (record r { write_pending = true }) ≡ r
unfolding deliver_all deliver
answered page r h = λ i. record r { write_ok = sym h.1 i; write_pending = sym h.2 i }

pub pump_page-open :
    (page : WalPageData) (r : Reactor)
    → IsOpen r
    → (not (is_completed page) && is_already_sent_tail page r) ≡ false
    → pump_page accepted page r ≡ (page_sent page r, page ∷ [])
unfolding pump_page answer
pump_page-open page r h s =
    let wait = deliver_all (accepted page) (record r { write_pending = true }) in
    ap
      (λ b.
        if b || (not (is_completed page) && is_already_sent_tail page r)
        then ((r, stop), [])
        else (answer page wait, page ∷ []))
      h.0
    ∙ ap (λ b. if b then ((r, stop), []) else (answer page wait, page ∷ [])) s
    ∙ ap (λ q. (answer page q, page ∷ [])) (answered page r h)
    ∙ ap (λ b. (if not b || r.cancelled then (r, finish) else page_sent page r, page ∷ [])) h.1
    ∙ ap (λ b. (if b then (r, finish) else page_sent page r, page ∷ [])) h.0

page_sent-completed :
    (page : WalPageData) (r : Reactor)
    → is_completed page ≡ true
    → page_sent page r ≡ (completed_page page r, next_page)
unfolding page_sent
page_sent-completed page r c =
    ap (λ b. if b then (completed_page page r, next_page) else (growing_page page r, stop)) c

pub page_sent-tail :
    (page : WalPageData) (r : Reactor)
    → is_completed page ≡ false
    → page_sent page r ≡ (growing_page page r, stop)
unfolding page_sent
page_sent-tail page r c =
    ap (λ b. if b then (completed_page page r, next_page) else (growing_page page r, stop)) c

or_true : (a : Bool) → (a || true) ≡ true
or_true a = ground arith

pump_page-sent :
    (answers : WalPageData → List Callback) (page : WalPageData) (r : Reactor)
    → is_completed page ≡ false
    → is_already_sent_tail page r ≡ true
    → pump_page answers page r ≡ ((r, stop), [])
unfolding pump_page
pump_page-sent answers page r c t =
    ap
      (λ b. if b then ((r, stop), []) else (
        answer page (deliver_all (answers page) (record r { write_pending = true })),
        page ∷ [],
      ))
      (ap (λ x. r.cancelled || (not x && is_already_sent_tail page r)) c
        ∙ ap (λ x. r.cancelled || x) t
        ∙ or_true r.cancelled)

-- The rest of the loop behind a page.
abbrev pub behind :
    (WalPageData → List Callback)
    → List WalPageData
    → (Reactor × Flow) × List WalPageData
    → (Reactor × Flow) × List WalPageData
behind answers pages ((r, next_page), sent) =
    let rest = pump_pages answers pages r in (rest.0, sent ++ rest.1)
behind answers pages ((r, stop), sent) = ((r, stop), sent)
behind answers pages ((r, finish), sent) = ((r, finish), sent)

pub pump_pages-step :
    (answers : WalPageData → List Callback) (page : WalPageData) (pages : List WalPageData)
    (r : Reactor)
    → pump_pages answers (page ∷ pages) r ≡ behind answers pages (pump_page answers page r)
unfolding pump_pages
pump_pages-step answers page pages r =
    let p = pump_page answers page r in
    elim p.0.1
      as (λ flow.
        elim flow as (λ x. (Reactor × Flow) × List WalPageData) [
          | next_page ↦ let rest = pump_pages answers pages p.0.0 in (rest.0, p.1 ++ rest.1)
          | stop ↦ ((p.0.0, stop), p.1)
          | finish ↦ ((p.0.0, finish), p.1)
        ]
        ≡ behind answers pages ((p.0.0, flow), p.1)) [
          | next_page ↦ refl
          | stop ↦ refl
          | finish ↦ refl
        ]

completed-page :
    (page : WalPageData) (r : Reactor)
    → IsOpen r
    → is_completed page ≡ true
    → pump_page accepted page r ≡ ((completed_page page r, next_page), page ∷ [])
completed-page page r h c =
    pump_page-open page r h (ap (λ x. not x && is_already_sent_tail page r) c)
    ∙ ap (λ q. (q, page ∷ [])) (page_sent-completed page r c)

pub pump_pages-completed :
    (full rest : List WalPageData) (r : Reactor)
    → IsOpen r
    → All (λ page. is_completed page ≡ true) full
    → pump_pages accepted (full ++ rest) r ≡ (
        let behind_full = pump_pages accepted rest (completed_pages full r) in
        (behind_full.0, full ++ behind_full.1))
unfolding completed_pages
pump_pages-completed [] rest r h c = refl
pump_pages-completed (page ∷ full) rest r h c =
    pump_pages-step accepted page (full ++ rest) r
    ∙ ap (behind accepted (full ++ rest)) (completed-page page r h c.0)
    ∙ ap (λ q. (q.0, page ∷ q.1))
        (pump_pages-completed full rest (completed_page page r) (completed_page-IsOpen page r h)
          c.1)

pub completed_pages-IsOpen :
    (full : List WalPageData) (r : Reactor) → IsOpen r → IsOpen (completed_pages full r)
unfolding completed_pages
completed_pages-IsOpen [] r h = h
completed_pages-IsOpen (page ∷ full) r h =
    completed_pages-IsOpen full (completed_page page r) (completed_page-IsOpen page r h)

pub poll-collected :
    (answers : WalPageData → List Callback) (d : Directory) (r : Reactor) (pages : List WalPageData)
    → collect_pages_from d r.next_pos ≡ some pages
    → poll answers d r ≡ pump_pages answers pages r
unfolding poll
poll-collected answers d r pages e = rw (e, poll) refl

-- Let a reactor's stream be open and every write succeed, and let the pages from its position on be
-- completed ones and then a growing one that was not sent with this length. Then a poll sends all of
-- them, once each and in order, the growing page of the open segment too, and the next poll begins at the
-- growing page.
pub poll-sends :
    (d : Directory) (r : Reactor) (full : List WalPageData) (tail : WalPageData)
    → IsOpen r
    → collect_pages_from d r.next_pos ≡ some (full ++ tail ∷ [])
    → All (λ page. is_completed page ≡ true) full
    → is_completed tail ≡ false
    → is_already_sent_tail tail (completed_pages full r) ≡ false
    → (poll accepted d r).1 ≡ full ++ tail ∷ []
      × ((poll accepted d r).0.0.next_pos ≡ tail.position)
      × ((poll accepted d r).0.0.tail_sent_size ≡ some (length tail.content))
unfolding growing_page
poll-sends d r full tail h e c t s = rw (sent) (refl, refl, refl)
  where
    at_tail : Reactor
    at_tail = completed_pages full r

    last : pump_page accepted tail at_tail ≡ ((growing_page tail at_tail, stop), tail ∷ [])
    last =
        pump_page-open tail at_tail (completed_pages-IsOpen full r h)
          (ap (λ x. not x && is_already_sent_tail tail at_tail) t ∙ s)
        ∙ ap (λ q. (q, tail ∷ [])) (page_sent-tail tail at_tail t)

    sent : poll accepted d r ≡ ((growing_page tail at_tail, stop), full ++ tail ∷ [])
    sent =
        poll-collected accepted d r (full ++ tail ∷ []) e
        ∙ pump_pages-completed full (tail ∷ []) r h c
        ∙ ap (λ q. (q.0, full ++ q.1))
            (pump_pages-step accepted tail [] at_tail ∙ ap (behind accepted []) last)

-- A growing page that was sent with its length blocks the stream: as long as it does not grow, a poll
-- sends nothing and changes nothing, whatever pages of later segments are in the log.
pub poll-blocked :
    (answers : WalPageData → List Callback) (d : Directory) (r : Reactor) (page : WalPageData)
    (later : List WalPageData)
    → collect_pages_from d r.next_pos ≡ some (page ∷ later)
    → is_completed page ≡ false
    → is_already_sent_tail page r ≡ true
    → poll answers d r ≡ ((r, stop), [])
poll-blocked answers d r page later e c t =
    poll-collected answers d r (page ∷ later) e
    ∙ pump_pages-step answers page later r
    ∙ ap (behind answers later) (pump_page-sent answers page r c t)
