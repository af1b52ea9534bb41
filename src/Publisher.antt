-- ===== src/Publisher.antt =====
-- internal/application/outboxapp/publisher_loop.go: moving outbox events to the stream.
--
-- `stops n` says whether the context is cancelled by the n-th call; `poll` takes as many ticks of the
-- ticker as its fuel.
pub mod Publishing
pub mod Rows
pub mod Delivered
pub mod Progress
pub mod Polling
pub mod Rounds
use order_book_vibranium.Base.{
  ℕ, zero, suc, Bool, true, false, Option, none, some, List, [], ◌∷◌, ◌++◌, if◌then◌else◌,
}
use order_book_vibranium.Base.Int64
use order_book_vibranium.Base.Int64.{Int64, pos}
use order_book_vibranium.Base.Run.{Result, ok, err}
use order_book_vibranium.Store.{
  OutboxEvent, Session, Action, Failure, context_done, panicked, no_fuel, pure, raise, attempt,
  command, ◌>>=◌, ◌>>◌, transaction, transaction_if,
}
use order_book_vibranium.Store.Repositories.{
  fetch_unpublished_batch, lock_if_unpublished, mark_published,
}

-- Producer.Publish: XADD of the event's payload to the event's stream.
unfoldable pub publish : OutboxEvent → Action (Unit {0})
publish e = command (λ s. record s { sent = s.sent ++ e ∷ [] })

-- fetchBatch
unfoldable pub fetch_batch : Int64 → Action (List OutboxEvent)
fetch_batch batch_size = transaction (fetch_unpublished_batch batch_size)

-- What is done with the row once it is locked; false is a row that was not there to lock.
unfoldable pub publish_locked : OutboxEvent → Bool → Action (Bool × Bool)
unfolding publish
publish_locked e false = pure (false, false)
publish_locked e true = do publish e; mark_published e.id; pure (true, true)

-- publishAndMarkOne
unfoldable pub publish_and_mark_one : OutboxEvent → Action Bool
unfolding publish_locked
publish_and_mark_one e =
    transaction_if (do locked ← lock_if_unpublished e.id; publish_locked e locked)

-- The loop of PublishOnce: how many were published, and the error that ended it.
unfoldable pub publish_each : ℕ → List OutboxEvent → Action (ℕ × Option Failure)
publish_each n [] = pure (n, none)
publish_each n (e ∷ es) = do
  r ← attempt (publish_and_mark_one e)
  elim r [
    | err f ↦ pure (n, some f)
    | ok true ↦ publish_each (suc n) es
    | ok false ↦ publish_each n es
  ]

-- PublishOnce
unfoldable pub publish_once : Int64 → Action (ℕ × Option Failure)
unfolding fetch_batch publish_each
publish_once batch_size = do
  r ← attempt (fetch_batch batch_size)
  elim r [ err f ↦ pure (0, some f) | ok events ↦ publish_each 0 events ]

module _ (stops : ℕ → Bool) (batch_size : Int64) where
  -- The loop of Run on the ticks; an error of PublishOnce is logged and dropped.
  unfoldable pub poll : ℕ → Action (Unit {0})
  unfolding publish_once
  poll zero = raise no_fuel
  poll (suc ticks) = do
    (λ faults s. (if stops s.calls then err context_done else ok tt, s))
    outcome ← publish_once batch_size
    poll ticks

  -- Run; time.NewTicker panics on an interval that is not positive.
  unfoldable pub run : Int64 → ℕ → Action (Unit {0})
  unfolding poll
  run interval ticks = if Int64.le interval (pos 0) then raise panicked else poll ticks
