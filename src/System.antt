-- ===== src/System.antt =====
-- cmd/api, cmd/outbox-publisher and cmd/matcher: the three programs on one database.
--
-- A step is a request that the API handles, some ticks of the publisher, or some rounds of the
-- matcher, each with calls of Postgres and Redis that fail as they may. The rows that a transaction
-- locks keep the others away from it, so transactions are taken one after the other. What the stream
-- delivers is any sequence of messages.
mod Fresh
mod Calls
mod Requests
mod Polls
pub mod Invariant
use order_book_vibranium.Base.{ℕ, ◌<◌, Bool, List, All}
use order_book_vibranium.Base.Int64.{Int64}
use order_book_vibranium.Order.{Uuid, Time}
use order_book_vibranium.Store.{OutboxEvent, Session, Faults}
use order_book_vibranium.Service.Place.{PlaceOrderInput, place}
use order_book_vibranium.Service.Withdraw.{request_cancel}
use order_book_vibranium.Publisher
use order_book_vibranium.Publisher.Rows.{Unique, Delivered}
use order_book_vibranium.Matcher.{Message}
use order_book_vibranium.Matcher.Loop
use order_book_vibranium.Matcher.Running.{Committed}
use order_book_vibranium.Matcher.Supply.{Distinct}

pub data Step (s : Session) : Session → Type 0 where
  place_order :
      (stream_name : List ℕ) (id : Uuid) (now : Time) (input : PlaceOrderInput) (faults : Faults)
      → Step s (place stream_name id now input faults s).1
  cancel_order :
      (stream_name : List ℕ) (order_id user_id : Uuid) (faults : Faults)
      → Step s (request_cancel stream_name order_id user_id faults s).1
  publish_events :
      (stops : ℕ → Bool) (batch_size : Int64) (interval : Int64) (ticks : ℕ) (faults : Faults)
      → Step s (Publisher.run stops batch_size interval ticks faults s).1
  match_orders :
      (replies : ℕ → List Message) (stops : ℕ → Bool) (pulls rounds : ℕ) (faults : Faults)
      → Step s (Loop.run replies stops pulls rounds faults s).1

pub data Reach (s : Session) : Session → Type 0 where
  here : Reach s s
  next : {t u : Session} → Reach s t → Step t u → Reach s u

-- Each user has one wallet, the ids of the outbox differ and stay below the next one, a row that is
-- marked as published is in its stream, and an entry that is acknowledged is marked as processed.
pub record IsConsistent (s : Session) : Type 0 where
  pub distinct : Distinct s.db.wallets
  pub unique : Unique s.db.outbox_events
  pub numbered : All (λ (e : OutboxEvent). e.id < s.db.next_outbox_id) s.db.outbox_events
  pub delivered : Delivered s.db.outbox_events s.sent
  pub committed : Committed s
