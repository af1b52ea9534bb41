-- ===== src/Http/Answers.antt =====
-- internal/infra/httpapi/order_handler.go: requests that the tags let through.
use order_book_vibranium.Base.{ℕ, ◌≡◌, ◌<◌, Bool, Option, some, List, if◌then◌else◌, arith}
use order_book_vibranium.Base.Int64.{Int64, pos_part}
use order_book_vibranium.Base.Run.{ok}
use order_book_vibranium.Order.{OrderType, Uuid, Time}
use order_book_vibranium.Store.{Session, Faults}
use order_book_vibranium.Service.Place.{place, validate, mismatch, has_price}
use order_book_vibranium.Http.{
  PlaceOrderRequest, write_error, invalid_payload, internal_error, place_order, place_response,
  input_of,
}

-- A MARKET order with a price and a positive quantity, which passes the tags
-- `required_if=Type LIMIT,omitempty,gt=0` of the request, is refused by the validation of Place:
-- whatever the tags are, the answer to it is an error that blames the server or the payload, never
-- success, and the tables stay as they were.
pub market_price_refused :
    (parse_uuid : List ℕ → Option Uuid) (passes_tags : PlaceOrderRequest → Bool)
    (stream_name : List ℕ) (id : Uuid) (now : Time) (r : PlaceOrderRequest) (price : Int64)
    (faults : Faults) (s : Session)
    → r.order_type ≡ OrderType.market
    → r.price_cents ≡ some price
    → 0 < pos_part r.quantity
    → place_order parse_uuid passes_tags stream_name id now (some r) faults s ≡ (
      ok (
          if passes_tags r
          then write_error 500 internal_error
          else write_error 400 invalid_payload),
      s,
    )
unfolding place_order place_response place validate mismatch has_price input_of
market_price_refused parse_uuid passes_tags stream_name id now r price faults s m p q = ground arith
