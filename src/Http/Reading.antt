-- ===== src/Http/Reading.antt =====
-- internal/infra/httpapi: handlers that only read the tables.
use order_book_vibranium.Base.{
  ℕ, ◌≡◌, refl, ◌∙◌, Bool, true, false, Option, none, some, List, [], ◌∷◌, arith,
}
use order_book_vibranium.Base.Bytes.{Bytes}
use order_book_vibranium.Base.Run.{Result, ok, err}
use order_book_vibranium.Order.{Uuid, Time}
use order_book_vibranium.Store.{
  Database, Session, Faults, Action, Failure, panicked, no_fuel, pure, attempt, query, or_raise,
  lift, invalid_trade, ◌>>=◌,
}
use order_book_vibranium.Store.Repositories.{get_wallet, get_user, get_order, list_users}
use order_book_vibranium.Trade
use order_book_vibranium.Listing.{
  Cursor, first_page, after, undecodable, TradeFilter, Position, decode, check_rows, page, clamp,
  select_trades, list_paginated,
}
use order_book_vibranium.Matcher.Frames.{Keeps, >>=-Keeps}
use order_book_vibranium.Http.{
  PlaceOrderRequest, Response, Code, invalid_order_id, invalid_user_id, Given, show_order,
  show_wallet, show_user, show_users, list_trades, trade_filter, trades_response, users_response,
  order_response, wallet_response, user_response, write_error,
}
use order_book_vibranium.Http.Routing.{
  Route, to_ping, to_place_order, to_list_trades, to_list_users, to_cancel_order, to_get_order,
  to_get_wallet, to_get_user, Request, handle, handle_routed,
}

abbrev pub tables : Session → Database
tables s = s.db

query-Keeps : {A : Type 0} (f : Database → A) → Keeps tables (query f)
unfolding query
query-Keeps f faults s = ground arith

or_raise-Keeps : {A : Type 0} (o : Option A) (e : Failure) → Keeps tables (or_raise o e)
or_raise-Keeps none e faults s = refl
or_raise-Keeps (some a) e faults s = refl

attempt_result :
    {A : Type 0} (p : Result Failure A × Session)
    → (faults : Faults) (s : Session) → tables (attempt (λ _ _. p) faults s).1 ≡ tables p.1
attempt_result (ok a, t) faults s = refl
attempt_result {A} (err e, t) faults s =
    elim e as (λ k. tables (attempt {A = A} (λ _ _. (err k, t)) faults s).1 ≡ tables t) [
      | panicked ↦ refl
      | no_fuel ↦ refl
      | _ ↦ refl
    ]

attempt-Keeps : {A : Type 0} (m : Action A) → Keeps tables m → Keeps tables (attempt m)
attempt-Keeps m h faults s = attempt_result (m faults s) faults s ∙ h faults s

-- A read and its answer.
answered-Keeps :
    {A : Type 0} (m : Action A) (f : Result Failure A → Response)
    → Keeps tables m
    → Keeps tables (attempt m >>= λ r. pure (f r))
answered-Keeps m f h =
    >>=-Keeps tables (attempt m) (λ r. pure (f r)) (attempt-Keeps m h) (λ r faults s. refl)

-- A text that has to be an id, and a filter that has to be read.
given_id :
    (o : Option Uuid) (bad : Response) (f : Uuid → Action Response)
    → ((id : Uuid) → Keeps tables (f id))
    → Keeps tables (elim o [ none ↦ pure bad | some id ↦ f id ])
given_id none bad f h = λ faults s. refl
given_id (some id) bad f h = h id

given_filter :
    (r : Result Code TradeFilter) (f : TradeFilter → Action Response)
    → ((x : TradeFilter) → Keeps tables (f x))
    → Keeps tables (elim r [ err code ↦ pure (write_error 400 code) | ok x ↦ f x ])
given_filter (err code) f h = λ faults s. refl
given_filter (ok x) f h = h x

get_order-Keeps : (id : Uuid) → Keeps tables (get_order id)
unfolding get_order
get_order-Keeps id =
    >>=-Keeps tables (query _) (λ row. or_raise row _) (query-Keeps _) (λ row. or_raise-Keeps row _)

get_user-Keeps : (id : Uuid) → Keeps tables (get_user id)
unfolding get_user
get_user-Keeps id =
    >>=-Keeps tables (query _) (λ row. or_raise row _) (query-Keeps _) (λ row. or_raise-Keeps row _)

get_wallet-Keeps : (id : Uuid) → Keeps tables (get_wallet id)
unfolding get_wallet
get_wallet-Keeps id =
    >>=-Keeps tables (query _) (λ row. or_raise row _) (query-Keeps _) (λ row. or_raise-Keeps row _)

list_users-Keeps : (before : Bytes → Bytes → Bool) → Keeps tables (list_users before)
unfolding list_users
list_users-Keeps before = query-Keeps _

decode-Keeps : (c : Cursor) → Keeps tables (decode c)
unfolding decode
decode-Keeps first_page faults s = refl
decode-Keeps (after p) faults s = refl
decode-Keeps undecodable faults s = refl

lift-Keeps :
    (r : Result Trade.TradeError Trade.Trade)
    → Keeps tables (lift (λ (e : Trade.TradeError). invalid_trade) r)
lift-Keeps (ok t) faults s = refl
lift-Keeps (err e) faults s = refl

check_rows-Keeps : (ts : List Trade.Trade) → Keeps tables (check_rows ts)
unfolding check_rows
check_rows-Keeps [] = λ faults s. refl
check_rows-Keeps (t ∷ ts) =
    let made =
      Trade.new t.id t.buy_order_id t.sell_order_id t.buyer_user_id t.seller_user_id t.price_cents
        t.quantity t.executed_at in
    >>=-Keeps tables (lift (λ (e : Trade.TradeError). invalid_trade) made)
      (λ u. check_rows ts >>= λ us. pure (u ∷ us)) (lift-Keeps made)
      (λ u.
        >>=-Keeps tables (check_rows ts) (λ us. pure (u ∷ us)) (check_rows-Keeps ts)
          (λ us faults s. refl))

list_paginated-Keeps : (f : TradeFilter) → Keeps tables (list_paginated f)
unfolding list_paginated
list_paginated-Keeps f =
    let kept = λ (rows : List Trade.Trade). page (clamp f.limit) rows in
    let select = λ (position : Option Position) (db : Database).
      select_trades f position (clamp f.limit) db.trades in
    let checked =
      λ (rows : List Trade.Trade). check_rows (kept rows).0 >>= λ out. pure (out, (kept rows).1) in
    >>=-Keeps tables (decode f.cursor) (λ position. query (select position) >>= checked)
      (decode-Keeps f.cursor)
      (λ position.
        >>=-Keeps tables (query (select position)) checked (query-Keeps (select position)) (λ rows.
          >>=-Keeps tables (check_rows (kept rows).0) (λ out. pure (out, (kept rows).1))
            (check_rows-Keeps (kept rows).0) (λ out faults s. refl)))

list_trades-Keeps :
    (u o : Given Uuid) (n : Given ℕ) (c : Cursor) → Keeps tables (list_trades u o n c)
unfolding list_trades
list_trades-Keeps u o n c =
    given_filter (trade_filter u o n c)
      (λ f. attempt (list_paginated f) >>= λ r. pure (trades_response r))
      (λ f. answered-Keeps (list_paginated f) trades_response (list_paginated-Keeps f))

-- A route whose handler can change the tables.
abbrev pub may_write : Result Response Route → Bool
may_write (ok to_place_order) = true
may_write (ok (to_cancel_order text)) = true
may_write _ = false

module _ (parse_uuid : Bytes → Option Uuid) (passes_tags : PlaceOrderRequest → Bool)
    (passes : Bytes → Bool) (before : Bytes → Bytes → Bool) (stream_name : Bytes) where
  show_order-Keeps : (text : Bytes) → Keeps tables (show_order parse_uuid passes_tags text)
  unfolding show_order
  show_order-Keeps text =
      given_id (parse_uuid text) (write_error 400 invalid_order_id)
        (λ id. attempt (get_order id) >>= λ r. pure (order_response r))
        (λ id. answered-Keeps (get_order id) order_response (get_order-Keeps id))

  show_wallet-Keeps : (text : Bytes) → Keeps tables (show_wallet parse_uuid passes_tags text)
  unfolding show_wallet
  show_wallet-Keeps text =
      given_id (parse_uuid text) (write_error 400 invalid_user_id)
        (λ id. attempt (get_wallet id) >>= λ r. pure (wallet_response r))
        (λ id. answered-Keeps (get_wallet id) wallet_response (get_wallet-Keeps id))

  show_user-Keeps : (text : Bytes) → Keeps tables (show_user parse_uuid passes_tags text)
  unfolding show_user
  show_user-Keeps text =
      given_id (parse_uuid text) (write_error 400 invalid_user_id)
        (λ id. attempt (get_user id) >>= λ r. pure (user_response r))
        (λ id. answered-Keeps (get_user id) user_response (get_user-Keeps id))

  handle-Keeps :
      (id : Uuid) (now : Time) (r : Request) (x : Route)
      → may_write (ok x) ≡ false
      → Keeps tables (handle parse_uuid passes_tags passes before stream_name id now r x)
  unfolding handle show_users
  handle-Keeps id now r to_ping h = λ faults s. refl
  handle-Keeps id now r to_place_order h = absurd (cc h)
  handle-Keeps id now r to_list_trades h =
      list_trades-Keeps r.user_filter r.order_filter r.limit r.cursor
  handle-Keeps id now r to_list_users h =
      answered-Keeps (list_users before) users_response (list_users-Keeps before)
  handle-Keeps id now r (to_cancel_order text) h = absurd (cc h)
  handle-Keeps id now r (to_get_order text) h = show_order-Keeps text
  handle-Keeps id now r (to_get_wallet text) h = show_wallet-Keeps text
  handle-Keeps id now r (to_get_user text) h = show_user-Keeps text

  pub handle_routed-Keeps :
      (id : Uuid) (now : Time) (r : Request) (x : Result Response Route)
      → may_write x ≡ false
      → Keeps tables (handle_routed parse_uuid passes_tags passes before stream_name id now r x)
  unfolding handle_routed
  handle_routed-Keeps id now r (err response) h = λ faults s. refl
  handle_routed-Keeps id now r (ok x) h = handle-Keeps id now r x h
