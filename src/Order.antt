-- ===== src/Order.antt =====
-- internal/domain/order/order.go: an order, its fills and its cancellation.
--
-- A UUID is the number of its 128 bits, and a time a number of ticks. `time.Now().UTC()` is the
-- argument `now`. The string types Side, Type and Status have the values that the code declares,
-- and `other` for any other text, which a JSON payload may hold.
pub mod Lifecycle
use order_book_vibranium.Base.{ℕ, Bool, true, false, Option, if◌then◌else◌}
use order_book_vibranium.Base.Int64
use order_book_vibranium.Base.Int64.{Int64, pos}
use order_book_vibranium.Base.Run.{Result, ok, err}

abbrev pub Uuid : Type 0
Uuid = ℕ

abbrev pub Time : Type 0
Time = ℕ

pub data Side : Type 0 where
  buy sell other : Side

pub data OrderType : Type 0 where
  limit market other : OrderType

pub data Status : Type 0 where
  open_ partially_filled filled cancelled cancel_queued : Status

pub data OrderError : Type 0 where
  fill_exceeds_remaining invalid_quantity : OrderError

pub record Order : Type 0 where
  pub id : Uuid
  pub user_id : Uuid
  pub side : Side
  pub order_type : OrderType
  pub price_cents : Option Int64
  pub quantity : Int64
  pub filled_quantity : Int64
  pub status : Status
  pub created_at : Time
  pub updated_at : Time

unfoldable pub is_buy : Side → Bool
is_buy Side.buy = true
is_buy _ = false

unfoldable pub is_sell : Side → Bool
is_sell Side.sell = true
is_sell _ = false

unfoldable pub is_limit : OrderType → Bool
is_limit OrderType.limit = true
is_limit _ = false

unfoldable pub is_market : OrderType → Bool
is_market OrderType.market = true
is_market _ = false

unfoldable pub remaining : Order → Int64
remaining o = Int64.sub o.quantity o.filled_quantity

-- The test of IsDone, on the status.
unfoldable pub is_done_status : Status → Bool
is_done_status filled = true
is_done_status cancelled = true
is_done_status _ = false

unfoldable pub is_done : Order → Bool
unfolding is_done_status
is_done o = is_done_status o.status

unfoldable pub fill : Time → Int64 → Order → Result OrderError Order
unfolding remaining
fill now qty o =
    if Int64.le qty (pos 0)
    then err invalid_quantity
    else if Int64.lt (remaining o) qty
    then err fill_exceeds_remaining
    else (let o' = record o { filled_quantity = Int64.add o.filled_quantity qty } in
        ok (record o' {
          status = if Int64.eq (remaining o') (pos 0) then filled else partially_filled;
          updated_at = now;
        }))

unfoldable pub cancel : Time → Order → Order
unfolding is_done
cancel now o = if is_done o then o else record o { status = cancelled; updated_at = now }
