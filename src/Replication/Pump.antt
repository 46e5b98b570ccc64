-- ===== src/Replication/Pump.antt =====
-- services/replication_service/replication_service.cpp: the reactor that streams the pages of the log
-- to a follower. What gRPC answers to a write is an argument: the callbacks that arrive until the wait
-- for the write returns.
pub mod Streaming
pub mod Stall
use structuredb.Base.{
  ℕ, ◌+◌, Bool, true, false, ◌&&◌, ◌||◌, not, Option, none, some, List, [], ◌∷◌, ◌++◌, length, ◌==◌,
  if◌then◌else◌,
}
use structuredb.Base.Assoc.{option_eq}
use structuredb.Wal.{wal_page_size}
use structuredb.Wal.Files.{Directory}
use structuredb.Wal.Reader.{Position}
use structuredb.Wal.Tail.{WalPageData, collect_pages_from}
use structuredb.Replication.Registry.{FollowerRegistry, register, update, unregister}

-- The fields of `GetEventsReactor` that change.
pub record Reactor : Type 0 where
  pub next_pos : Position
  pub followers : FollowerRegistry
  pub token : ℕ
  -- `none` is -1
  pub tail_sent_size : Option ℕ
  pub write_pending : Bool
  pub write_ok : Bool
  pub cancelled : Bool

-- The constructor of the reactor, which `GetEvents` calls.
unfoldable pub get_events : Position → FollowerRegistry → Reactor
get_events from followers =
    let registered = register from followers in
    record {
      next_pos = from;
      followers = registered.1;
      token = registered.0;
      tail_sent_size = none;
      write_pending = false;
      write_ok = true;
      cancelled = false;
    }

-- The callbacks of gRPC.
pub data Callback : Type 0 where
  on_write_done : Bool → Callback
  on_cancel : Callback

unfoldable pub deliver : Callback → Reactor → Reactor
deliver (on_write_done ok) r = record r { write_ok = ok; write_pending = false }
deliver on_cancel r = record r { cancelled = true }

unfoldable pub deliver_all : List Callback → Reactor → Reactor
unfolding deliver
deliver_all [] r = r
deliver_all (c ∷ cs) r = deliver_all cs (deliver c r)

-- `OnDone`
unfoldable pub on_done : Reactor → FollowerRegistry
on_done r = unregister r.token r.followers

unfoldable pub is_already_sent_tail : WalPageData → Reactor → Bool
is_already_sent_tail page r =
    option_eq page.position.segment_no r.next_pos.segment_no
    && (page.position.page_no == r.next_pos.page_no)
    && option_eq (some (length page.content)) r.tail_sent_size

abbrev pub is_completed : WalPageData → Bool
is_completed page = length page.content == wal_page_size

-- How the body of the loop over the pages ends.
pub data Flow : Type 0 where
  next_page : Flow
  stop : Flow
  finish : Flow

-- A completed page is left behind.
unfoldable pub completed_page : WalPageData → Reactor → Reactor
completed_page page r =
    let next : Position = record {
      segment_no = page.position.segment_no;
      page_no = page.position.page_no + 1;
    } in
    record r { next_pos = next; followers = update r.token next r.followers; tail_sent_size = none }

-- A growing page is read again by the next poll.
unfoldable pub growing_page : WalPageData → Reactor → Reactor
growing_page page r = record r {
  next_pos = page.position;
  tail_sent_size = some (length page.content);
}

unfoldable pub page_sent : WalPageData → Reactor → Reactor × Flow
unfolding completed_page growing_page
page_sent page r =
    if is_completed page then (completed_page page r, next_page) else (growing_page page r, stop)

-- What follows the wait for a write.
unfoldable pub answer : WalPageData → Reactor → Reactor × Flow
unfolding page_sent
answer page r = if not r.write_ok || r.cancelled then (r, finish) else page_sent page r

-- The body of the loop over the pages: the reactor, the pages that were written, and what comes next.
unfoldable pub pump_page :
    (WalPageData → List Callback) → WalPageData → Reactor → (Reactor × Flow) × List WalPageData
unfolding answer deliver_all is_already_sent_tail
pump_page answers page r =
    if r.cancelled || (not (is_completed page) && is_already_sent_tail page r)
    then ((r, stop), [])
    else (answer page (deliver_all (answers page) (record r { write_pending = true })), page ∷ [])

unfoldable pub pump_pages :
    (WalPageData → List Callback) → List WalPageData → Reactor → (Reactor × Flow) × List WalPageData
unfolding pump_page
pump_pages answers [] r = ((r, next_page), [])
pump_pages answers (page ∷ pages) r =
    let ((r', flow), sent) = pump_page answers page r in
    elim flow [
      | next_page ↦ let rest = pump_pages answers pages r' in (rest.0, sent ++ rest.1)
      | stop ↦ ((r', stop), sent)
      | finish ↦ ((r', finish), sent)
    ]

-- One poll of `Pump`; a throw of the collection leaves no pages.
unfoldable pub poll :
    (WalPageData → List Callback) → Directory → Reactor → (Reactor × Flow) × List WalPageData
unfolding pump_pages
poll answers d r = elim (collect_pages_from d r.next_pos) [
  | none ↦ pump_pages answers [] r
  | some pages ↦ pump_pages answers pages r
]

-- `Pump`, poll after poll: the directory that each poll finds, and the callbacks that arrive in the wait
-- behind it. With the reactor come the pages that were written.
unfoldable pub pump :
    (WalPageData → List Callback)
    → List (Directory × List Callback)
    → Reactor
    → Reactor × List WalPageData
unfolding poll deliver_all
pump answers [] r = (r, [])
pump answers ((d, callbacks) ∷ polls) r = elim r.cancelled [
  | true ↦ (r, [])
  | false ↦
      let ((r', flow), sent) = poll answers d r in
      elim flow [
        | finish ↦ (r', sent)
        | _ ↦ let rest = pump answers polls (deliver_all callbacks r') in (rest.0, sent ++ rest.1)
      ]
]
