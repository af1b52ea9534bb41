-- ===== src/Service/Withdraw.antt =====
-- internal/application/orders/cancel_order_service.go: asking for the cancellation of an order.
pub mod Queued
use order_book_vibranium.Base.{
  ℕ, Bool, true, false, not, Option, none, some, List, ◌==◌, if◌then◌else◌,
}
use order_book_vibranium.Base.Int64.{Int64, pos}
use order_book_vibranium.Order.{Order, Side, OrderType, Status, cancel_queued, is_done, Uuid}
use order_book_vibranium.Store.{
  EventType, StreamEvent, cancel_order, encoded, Session, Action, Failure, forbidden, pure, raise,
  ◌>>=◌, ◌>>◌, transaction_if,
}
use order_book_vibranium.Store.Repositories.{get_order, insert_outbox}

pub record CancelResult : Type 0 where
  pub order_id : Uuid
  pub status : Status
  pub already_terminal : Bool

unfoldable pub cancel_event : Order → Uuid → StreamEvent
cancel_event o requested_by = record {
  event_type = cancel_order;
  order_id = o.id;
  user_id = o.user_id;
  side = Side.other;
  order_type = OrderType.other;
  price_cents = none;
  quantity = pos 0;
  requested_by = some requested_by;
}

-- What is done with the order that GetTx reads, and whether the transaction is committed.
unfoldable pub decide : List ℕ → Uuid → Order → Action (Bool × CancelResult)
unfolding cancel_event
decide stream_name requesting_user_id o =
    if not (o.user_id == requesting_user_id)
    then raise forbidden
    else if is_done o
    then pure (false, record { order_id = o.id; status = o.status; already_terminal = true })
    else (do
      insert_outbox stream_name (encoded (cancel_event o requesting_user_id))
      pure (true, record { order_id = o.id; status = cancel_queued; already_terminal = false }))

-- CancelOrderService.Cancel
unfoldable pub request_cancel : List ℕ → Uuid → Uuid → Action CancelResult
unfolding decide
request_cancel stream_name order_id requesting_user_id =
    transaction_if (do o ← get_order order_id; decide stream_name requesting_user_id o)
