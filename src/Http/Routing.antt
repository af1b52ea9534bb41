-- ===== src/Http/Routing.antt =====
-- internal/infra/httpapi/router.go and middleware.go: a request on its way through the middleware
-- to its handler.
--
-- chi is a parameter: `match_route` is its search for the route of a method and a path, which gives
-- the route with its `{id}` or chi's own answer (404 or 405), and `recoverer` is its middleware
-- Recoverer. A panic of a handler passes RequestLogging, which then logs nothing. The header
-- X-Request-Id is set before the handler runs, so that the answer to a panic has it too.
use order_book_vibranium.Base.{ℕ, Bool, Option, some, List, ltb, ◌||◌, if◌then◌else◌, length}
use order_book_vibranium.Base.Bytes.{Bytes, is_empty}
use order_book_vibranium.Base.Run.{Result, ok, err}
use order_book_vibranium.Order.{Uuid, Time}
use order_book_vibranium.Store.{Action, pure, ◌>>=◌}
use order_book_vibranium.Listing.{Cursor}
use order_book_vibranium.Http.{
  PlaceOrderRequest, Response, no_body, Given, place_order, withdraw_order, show_order, show_wallet,
  show_user, show_users, list_trades,
}

pub data Method : Type 0 where
  get post delete other_method : Method

-- What the handlers read of a request; an absent header is empty.
pub record Request : Type 0 where
  pub method : Method
  pub path : List Bytes
  pub x_request_id : Bytes
  pub order : Option PlaceOrderRequest
  pub canceller : Option Bytes
  pub user_filter : Given Uuid
  pub order_filter : Given Uuid
  pub limit : Given ℕ
  pub cursor : Cursor

-- The routes of NewRouter, each named for the handler that it calls.
pub data Route : Type 0 where
  to_ping to_place_order to_list_trades to_list_users : Route
  to_cancel_order to_get_order to_get_wallet to_get_user : Bytes → Route

-- The method that NewRouter registers the route with.
unfoldable pub method_of : Route → Method
method_of to_place_order = post
method_of (to_cancel_order id) = delete
method_of _ = get

-- CorrelationID
abbrev pub max_request_id_len : ℕ
max_request_id_len = 128

unfoldable pub correlation_id : Bytes → Bytes → Bytes
correlation_id id new_id = if is_empty id || ltb max_request_id_len (length id) then new_id else id

-- The answer, the X-Request-Id that it carries, and the status of the log line, if there is one.
pub record Served : Type 0 where
  pub response : Response
  pub request_id : Bytes
  pub logged : Option ℕ

unfoldable pub answer : ℕ → Response
answer status = record { status = status; body = no_body }

-- RequestLogging: the answer, and the status that is logged after the handler.
unfoldable pub request_logging : Action Response → Action (Response × Option ℕ)
request_logging handler = do response ← handler; pure (response, some response.status)

-- chi's search for a route.
abbrev pub Router : Type 0
Router = Method → List Bytes → Result Response Route

-- chi's Recoverer around the rest of the middleware.
abbrev pub Recoverer : Type 0
Recoverer = Action (Response × Option ℕ) → Action (Response × Option ℕ)

module _ (parse_uuid : Bytes → Option Uuid) (passes_tags : PlaceOrderRequest → Bool)
    (passes : Bytes → Bool) (before : Bytes → Bytes → Bool) (stream_name : Bytes) where
  -- The handler of a route of NewRouter; `id` and `now` are what a new order gets.
  unfoldable pub handle : Uuid → Time → Request → Route → Action Response
  unfolding answer
  handle id now r to_ping = pure (answer 200)
  handle id now r to_place_order = place_order parse_uuid passes_tags stream_name id now r.order
  handle id now r (to_cancel_order text) =
      withdraw_order parse_uuid passes_tags passes stream_name text r.canceller
  handle id now r (to_get_order text) = show_order parse_uuid passes_tags text
  handle id now r (to_get_wallet text) = show_wallet parse_uuid passes_tags text
  handle id now r to_list_trades = list_trades r.user_filter r.order_filter r.limit r.cursor
  handle id now r to_list_users = show_users before
  handle id now r (to_get_user text) = show_user parse_uuid passes_tags text

  unfoldable pub handle_routed : Uuid → Time → Request → Result Response Route → Action Response
  unfolding handle
  handle_routed id now r (err response) = pure response
  handle_routed id now r (ok route) = handle id now r route

  module _ (match_route : Router) (recoverer : Recoverer) where
    -- The handler that NewRouter returns.
    unfoldable pub serve : Bytes → Uuid → Time → Request → Action Served
    unfolding correlation_id request_logging handle_routed
    serve new_id id now r = do
      (response, logged) ←
          recoverer (request_logging (handle_routed id now r (match_route r.method r.path)))
      pure (record {
        response = response;
        request_id = correlation_id r.x_request_id new_id;
        logged = logged;
      })
