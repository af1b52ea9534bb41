-- ===== src/Http.antt =====
-- internal/infra/httpapi: the handlers of orders, wallets, users and trades.
--
-- The JSON decoder gives the request or nothing. `uuid.Parse` and the check of the validation tags
-- are third-party code, and so the parameters `parse_uuid` and `passes_tags`.
pub mod Answers
pub mod Routing
mod Reading
pub mod Served
use order_book_vibranium.Base.{
  ℕ, zero, Bool, true, false, Option, none, some, List, [], ◌∷◌, map, ltb, leb, ◌==◌, ◌||◌,
  if◌then◌else◌, length,
}
use order_book_vibranium.Base.Int64.{Int64, pos}
use order_book_vibranium.Base.Run.{Result, ok, err}
use order_book_vibranium.Order.{Order, Side, OrderType, Status, Uuid, Time}
use order_book_vibranium.Wallet.{Wallet, available_brl_cents, available_vibranium}
use order_book_vibranium.Trade
use order_book_vibranium.Store.{
  User, Session, Faults, Action, Failure, user_not_found, wallet_not_found, order_not_found,
  insufficient_balance, forbidden, invalid_cursor, pure, attempt, ◌>>=◌, ◌>>◌,
}
use order_book_vibranium.Store.Repositories.{get_wallet, get_user, get_order, list_users}
use order_book_vibranium.Service.Place.{PlaceOrderInput, place}
use order_book_vibranium.Service.Withdraw.{CancelResult, request_cancel}
use order_book_vibranium.Listing.{Position, Cursor, TradeFilter, list_paginated}

-- PlaceOrderRequest
pub record PlaceOrderRequest : Type 0 where
  pub user_id : List ℕ
  pub side : Side
  pub order_type : OrderType
  pub price_cents : Option Int64
  pub quantity : Int64

-- GetWalletResponse
pub record WalletView : Type 0 where
  pub user_id : Uuid
  pub balance_brl_cents : Int64
  pub reserved_brl_cents : Int64
  pub available_brl_cents : Int64
  pub balance_vibranium : Int64
  pub reserved_vibranium : Int64
  pub available_vibranium : Int64

-- TradeDTO
pub record TradeView : Type 0 where
  pub trade_id : Uuid
  pub buy_order_id : Uuid
  pub sell_order_id : Uuid
  pub price_cents : Int64
  pub quantity : Int64
  pub executed_at : Time

-- The error codes of the responses.
pub data Code : Type 0 where
  invalid_payload invalid_order_id invalid_user_id invalid_limit bad_cursor : Code
  no_user no_wallet no_order not_owner low_balance internal_error : Code

pub data Body : Type 0 where
  error_body : Code → Body
  placed : Uuid → Status → Time → Body
  cancel_body : Uuid → Status → Body
  order_body : Order → Body
  wallet_body : WalletView → Body
  user_body : User → Body
  trades_body : List TradeView → Option Position → Body
  users_body : List User → Body
  no_body : Body

pub record Response : Type 0 where
  pub status : ℕ
  pub body : Body

-- writeError and writeJSON
unfoldable pub write_error : ℕ → Code → Response
write_error status code = record { status = status; body = error_body code }

unfoldable pub write_json : ℕ → Body → Response
write_json status body = record { status = status; body = body }

-- The answer to the outcome of Place.
unfoldable pub place_response : Result Failure Order → Response
unfolding write_error write_json
place_response (ok o) = write_json 202 (placed o.id o.status o.created_at)
place_response (err user_not_found) = write_error 404 no_user
place_response (err wallet_not_found) = write_error 404 no_wallet
place_response (err insufficient_balance) = write_error 409 low_balance
place_response (err e) = write_error 500 internal_error

unfoldable pub cancel_response : Result Failure CancelResult → Response
unfolding write_error write_json
cancel_response (ok r) =
    write_json (if r.already_terminal then 200 else 202) (cancel_body r.order_id r.status)
cancel_response (err order_not_found) = write_error 404 no_order
cancel_response (err forbidden) = write_error 403 not_owner
cancel_response (err e) = write_error 500 internal_error

unfoldable pub order_response : Result Failure Order → Response
unfolding write_error write_json
order_response (ok o) = write_json 200 (order_body o)
order_response (err order_not_found) = write_error 404 no_order
order_response (err e) = write_error 500 internal_error

unfoldable pub wallet_response : Result Failure Wallet → Response
unfolding write_error write_json
wallet_response (ok w) = write_json 200 (
    wallet_body (record {
      user_id = w.user_id;
      balance_brl_cents = w.balance_brl_cents;
      reserved_brl_cents = w.reserved_brl_cents;
      available_brl_cents = available_brl_cents w;
      balance_vibranium = w.balance_vibranium;
      reserved_vibranium = w.reserved_vibranium;
      available_vibranium = available_vibranium w;
    }))
wallet_response (err wallet_not_found) = write_error 404 no_user
wallet_response (err e) = write_error 500 internal_error

unfoldable pub user_response : Result Failure User → Response
unfolding write_error write_json
user_response (ok u) = write_json 200 (user_body u)
user_response (err user_not_found) = write_error 404 no_user
user_response (err e) = write_error 500 internal_error

unfoldable pub users_response : Result Failure (List User) → Response
unfolding write_error write_json
users_response (ok us) = write_json 200 (users_body us)
users_response (err e) = write_error 500 internal_error

-- ListUsers; `before` is the collation of the database.
unfoldable pub show_users : (List ℕ → List ℕ → Bool) → Action Response
unfolding users_response
show_users before = do r ← attempt (list_users before); pure (users_response r)

unfoldable pub trade_view : Trade.Trade → TradeView
trade_view t = record {
  trade_id = t.id;
  buy_order_id = t.buy_order_id;
  sell_order_id = t.sell_order_id;
  price_cents = t.price_cents;
  quantity = t.quantity;
  executed_at = t.executed_at;
}

unfoldable pub trades_response : Result Failure (List Trade.Trade × Option Position) → Response
unfolding write_error write_json trade_view
trades_response (ok (trades, next)) = write_json 200 (trades_body (map trade_view trades) next)
trades_response (err invalid_cursor) = write_error 400 bad_cursor
trades_response (err e) = write_error 500 internal_error

-- An optional part of the query: absent, malformed, or read.
pub data Given (A : Type 0) : Type 0 where
  absent malformed : Given A
  given : A → Given A

-- The filter of GET /trades, or the error of the first part that is malformed. `Atoi` gives the
-- limit, and a limit that is not positive is malformed.
unfoldable pub trade_filter : Given Uuid → Given Uuid → Given ℕ → Cursor → Result Code TradeFilter
trade_filter malformed o n c = err invalid_user_id
trade_filter u malformed n c = err invalid_order_id
trade_filter u o malformed c = err invalid_limit
trade_filter u o (given zero) c = err invalid_limit
trade_filter u o n c = ok (record {
  user_id = elim u [ given id ↦ some id | _ ↦ none ];
  order_id = elim o [ given id ↦ some id | _ ↦ none ];
  limit = elim n [ given k ↦ k | _ ↦ 0 ];
  cursor = c;
})

-- ListTrades
unfoldable pub list_trades : Given Uuid → Given Uuid → Given ℕ → Cursor → Action Response
unfolding trade_filter trades_response
list_trades u o n c = elim (trade_filter u o n c) [
  | err code ↦ pure (write_error 400 code)
  | ok f ↦ (do r ← attempt (list_paginated f); pure (trades_response r))
]

module _ (parse_uuid : List ℕ → Option Uuid) (passes_tags : PlaceOrderRequest → Bool) where
  -- `id, _ := uuid.Parse(text)`
  unfoldable pub uuid_or_zero : List ℕ → Uuid
  uuid_or_zero text = elim (parse_uuid text) [ none ↦ 0 | some id ↦ id ]

  unfoldable pub input_of : PlaceOrderRequest → PlaceOrderInput
  unfolding uuid_or_zero
  input_of r = record {
    user_id = uuid_or_zero r.user_id;
    side = r.side;
    order_type = r.order_type;
    price_cents = r.price_cents;
    quantity = r.quantity;
  }

  -- PlaceOrder
  unfoldable pub place_order : List ℕ → Uuid → Time → Option PlaceOrderRequest → Action Response
  unfolding input_of place_response
  place_order stream_name id now none = pure (write_error 400 invalid_payload)
  place_order stream_name id now (some r) =
      if passes_tags r
      then (do
        result ← attempt (place stream_name id now (input_of r))
        pure (place_response result))
      else pure (write_error 400 invalid_payload)

  -- CancelOrder, with the user of the body, if the body decodes
  unfoldable pub withdraw_order :
      (List ℕ → Bool) → List ℕ → List ℕ → Option (List ℕ) → Action Response
  unfolding uuid_or_zero cancel_response
  withdraw_order passes stream_name text body = elim (parse_uuid text) [
    | none ↦ pure (write_error 400 invalid_order_id)
    | some id ↦ elim body [
      | none ↦ pure (write_error 400 invalid_payload)
      | some user_id ↦
          if passes user_id
          then (do
            r ← attempt (request_cancel stream_name id (uuid_or_zero user_id))
            pure (cancel_response r))
          else pure (write_error 400 invalid_payload)
    ]
  ]

  -- GetOrder, GetWallet and GetUser
  unfoldable pub show_order : List ℕ → Action Response
  unfolding order_response
  show_order text = elim (parse_uuid text) [
    | none ↦ pure (write_error 400 invalid_order_id)
    | some id ↦ (do r ← attempt (get_order id); pure (order_response r))
  ]

  unfoldable pub show_wallet : List ℕ → Action Response
  unfolding wallet_response
  show_wallet text = elim (parse_uuid text) [
    | none ↦ pure (write_error 400 invalid_user_id)
    | some id ↦ (do r ← attempt (get_wallet id); pure (wallet_response r))
  ]

  unfoldable pub show_user : List ℕ → Action Response
  unfolding user_response
  show_user text = elim (parse_uuid text) [
    | none ↦ pure (write_error 400 invalid_user_id)
    | some id ↦ (do r ← attempt (get_user id); pure (user_response r))
  ]
