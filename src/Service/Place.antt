-- ===== src/Service/Place.antt =====
-- internal/application/orders/place_order_service.go: validation, reservation and the outbox event.
--
-- `uuid.New()` and `time.Now()` are the arguments `id` and `now`. Marshal does not fail on an event.
pub mod Accepted
pub mod Stored
use order_book_vibranium.Base.{ℕ, Bool, true, false, ◌||◌, Option, none, some, List, if◌then◌else◌}
use order_book_vibranium.Base.Int64
use order_book_vibranium.Base.Int64.{Int64, pos, max_int64}
use order_book_vibranium.Base.Run.{Result, ok, err}
use order_book_vibranium.Order.{Order, Side, OrderType, open_, Uuid, Time}
use order_book_vibranium.Wallet.{Wallet, WalletError, reserve_brl, reserve_vibranium}
use order_book_vibranium.Store.{
  EventType, StreamEvent, new_order, encoded, Session, Action, Failure, user_not_found,
  insufficient_balance, invalid_quantity, invalid_order_request, panicked, pure, raise, lift, ◌>>=◌,
  ◌>>◌, transaction,
}
use order_book_vibranium.Store.Repositories.{
  user_exists, get_wallet, update_wallet, insert_order, insert_outbox,
}

pub record PlaceOrderInput : Type 0 where
  pub user_id : Uuid
  pub side : Side
  pub order_type : OrderType
  pub price_cents : Option Int64
  pub quantity : Int64

-- `in.PriceCents == nil || *in.PriceCents <= 0`
unfoldable pub lacks_price : Option Int64 → Bool
lacks_price none = true
lacks_price (some p) = Int64.le p (pos 0)

-- The guard on the cost of a BUY LIMIT order.
unfoldable pub cost_overflows : Option Int64 → Int64 → Bool
cost_overflows none quantity = false
cost_overflows (some p) quantity = Int64.lt (Int64.quot max_int64 quantity) p

unfoldable pub has_price : Option Int64 → Bool
has_price none = false
has_price (some p) = true

-- The cases of side and type; true refuses.
unfoldable pub mismatch : Side → OrderType → Option Int64 → Int64 → Bool
unfolding lacks_price cost_overflows has_price
mismatch Side.buy OrderType.limit p quantity = lacks_price p || cost_overflows p quantity
mismatch Side.sell OrderType.limit p quantity = lacks_price p
mismatch Side.sell OrderType.market p quantity = has_price p
mismatch Side.buy OrderType.market p quantity = has_price p
mismatch _ _ p quantity = true

-- validatePlaceOrderInput
unfoldable pub validate : PlaceOrderInput → Result Failure (Unit {0})
unfolding mismatch
validate input =
    if Int64.le input.quantity (pos 0)
    then err invalid_quantity
    else if mismatch input.side input.order_type input.price_cents input.quantity
    then err invalid_order_request
    else ok tt

unfoldable pub order_of : Uuid → Time → PlaceOrderInput → Order
order_of id now input = record {
  id = id;
  user_id = input.user_id;
  side = input.side;
  order_type = input.order_type;
  price_cents = input.price_cents;
  quantity = input.quantity;
  filled_quantity = pos 0;
  status = open_;
  created_at = now;
  updated_at = now;
}

abbrev refused : WalletError → Failure
refused e = insufficient_balance

-- The reservation of the wallet; every error of it is reported as ErrInsufficientBalance.
unfoldable pub reserve : Side → OrderType → Option Int64 → Int64 → Wallet → Action Wallet
reserve Side.buy OrderType.limit none quantity w = raise panicked
reserve Side.buy OrderType.limit (some p) quantity w =
    lift refused (reserve_brl (Int64.mul p quantity) w)
reserve Side.sell t p quantity w = lift refused (reserve_vibranium quantity w)
reserve _ _ p quantity w = pure w

unfoldable pub event_of : Order → StreamEvent
event_of o = record {
  event_type = new_order;
  order_id = o.id;
  user_id = o.user_id;
  side = o.side;
  order_type = o.order_type;
  price_cents = o.price_cents;
  quantity = o.quantity;
  requested_by = none;
}

-- The body of the transaction.
unfoldable pub place_in_transaction : List ℕ → Uuid → Time → PlaceOrderInput → Action Order
unfolding reserve order_of event_of
place_in_transaction stream_name id now input = do
  w ← get_wallet input.user_id
  let o = order_of id now input
  w' ← reserve input.side input.order_type input.price_cents input.quantity w
  insert_order o
  update_wallet w'
  insert_outbox stream_name (encoded (event_of o))
  pure o

unfoldable pub place : List ℕ → Uuid → Time → PlaceOrderInput → Action Order
unfolding validate place_in_transaction
place stream_name id now input = do
  lift (λ e. e) (validate input)
  exists ← user_exists input.user_id
  if exists
      then transaction (place_in_transaction stream_name id now input)
      else raise user_not_found
