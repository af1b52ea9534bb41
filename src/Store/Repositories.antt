-- ===== src/Store/Repositories.antt =====
-- internal/infra/postgres: the statements of the repositories.
use order_book_vibranium.Base.{
  ℕ, suc, Bool, true, false, ◌||◌, ◌&&◌, not, Option, none, some, List, [], ◌∷◌, ◌++◌, ltb, ◌==◌,
  if◌then◌else◌, take,
}
use order_book_vibranium.Base.Int64
use order_book_vibranium.Base.Int64.{Int64, pos, pos_part}
use order_book_vibranium.Order.{
  Order, Side, OrderType, Status, cancel_queued, open_, partially_filled, Uuid, Time,
}
use order_book_vibranium.Wallet.{Wallet}
use order_book_vibranium.Trade
use order_book_vibranium.Store.{
  Database, Payload, User, OutboxEvent, Action, wallet_not_found, order_not_found, user_not_found,
  driver, query, exec, exec_rows, raise, or_raise, ◌>>=◌,
}

-- The first row with the property.
unfoldable pub find : {A : Type 0} → (A → Bool) → List A → Option A
find test [] = none
find test (x ∷ xs) = if test x then some x else find test xs

unfoldable pub filter : {A : Type 0} → (A → Bool) → List A → List A
filter test [] = []
filter test (x ∷ xs) = if test x then x ∷ filter test xs else filter test xs

unfoldable pub any : {A : Type 0} → (A → Bool) → List A → Bool
any test [] = false
any test (x ∷ xs) = test x || any test xs

-- `UPDATE ... WHERE`
unfoldable pub update_rows : {A : Type 0} → (A → Bool) → (A → A) → List A → List A
update_rows test f [] = []
update_rows test f (x ∷ xs) = (if test x then f x else x) ∷ update_rows test f xs

-- UserRepository.Exists
unfoldable pub user_exists : Uuid → Action Bool
unfolding any
user_exists id = query (λ db. any (λ (u : User). u.id == id) db.users)

-- UserRepository.Get
unfoldable pub get_user : Uuid → Action User
unfolding find
get_user id = do
  row ← query (λ db. find (λ (u : User). u.id == id) db.users)
  or_raise row user_not_found

-- ORDER BY username, in the collation `before` of the database: "comes before".
unfoldable pub insert_by_name : (List ℕ → List ℕ → Bool) → User → List User → List User
insert_by_name before u [] = u ∷ []
insert_by_name before u (v ∷ vs) =
    if before u.username v.username then u ∷ v ∷ vs else v ∷ insert_by_name before u vs

unfoldable pub sort_by_name : (List ℕ → List ℕ → Bool) → List User → List User
unfolding insert_by_name
sort_by_name before [] = []
sort_by_name before (u ∷ us) = insert_by_name before u (sort_by_name before us)

-- UserRepository.List
unfoldable pub list_users : (List ℕ → List ℕ → Bool) → Action (List User)
unfolding sort_by_name
list_users before = query (λ db. sort_by_name before db.users)

-- WalletRepository.Get, and GetForUpdate, whose row lock keeps other transactions out.
unfoldable pub get_wallet : Uuid → Action Wallet
unfolding find
get_wallet user_id = do
  row ← query (λ db. find (λ (w : Wallet). w.user_id == user_id) db.wallets)
  or_raise row wallet_not_found

abbrev is_negative : Int64 → Bool
is_negative a = Int64.lt a (pos 0)

-- The CHECK constraints of the wallets table.
unfoldable pub violates_wallet_checks : Wallet → Bool
violates_wallet_checks w =
    is_negative w.balance_brl_cents
    || is_negative w.reserved_brl_cents
    || is_negative w.balance_vibranium
    || is_negative w.reserved_vibranium

abbrev pub owns : Uuid → Wallet → Bool
owns user_id w = w.user_id == user_id

-- WalletRepository.Update; an UPDATE that matches no row writes nothing and checks nothing.
unfoldable pub update_wallet : Wallet → Action (Unit {0})
unfolding any update_rows violates_wallet_checks
update_wallet w = exec (λ db.
    if any (owns w.user_id) db.wallets && violates_wallet_checks w
    then none
    else some (record db { wallets = update_rows (owns w.user_id) (λ v. w) db.wallets }))

-- The enumerated types of the orders table.
unfoldable pub is_side : Side → Bool
is_side Side.other = false
is_side _ = true

unfoldable pub is_order_type : OrderType → Bool
is_order_type OrderType.other = false
is_order_type _ = true

unfoldable pub is_status : Status → Bool
is_status cancel_queued = false
is_status _ = true

abbrev pub has_id : Uuid → Order → Bool
has_id id o = o.id == id

-- What the orders table refuses.
unfoldable pub violates_order_checks : Database → Order → Bool
unfolding any is_side is_order_type is_status
violates_order_checks db o =
    not (is_side o.side)
    || not (is_order_type o.order_type)
    || not (is_status o.status)
    || Int64.le o.quantity (pos 0)
    || any (has_id o.id) db.orders
    || not (any (owns o.user_id) db.wallets)

-- OrderRepository.Insert
unfoldable pub insert_order : Order → Action (Unit {0})
unfolding violates_order_checks
insert_order o = exec (λ db.
    if violates_order_checks db o then none else some (record db { orders = db.orders ++ o ∷ [] }))

-- OrderRepository.Get, and GetTx, which also locks the row.
unfoldable pub get_order : Uuid → Action Order
unfolding find
get_order id = do row ← query (λ db. find (has_id id) db.orders); or_raise row order_not_found

-- OrderRepository.Update; `now` is the time of the database.
unfoldable pub update_order : Time → Order → Action (Unit {0})
unfolding update_rows is_status any
update_order now o = exec (λ db.
    if any (has_id o.id) db.orders && not (is_status o.status)
    then none
    else some (record db {
      orders =
          update_rows (has_id o.id)
            (λ p. record p {
              filled_quantity = o.filled_quantity;
              status = o.status;
              updated_at = now;
            })
            db.orders;
    }))

unfoldable pub is_open : Status → Bool
is_open open_ = true
is_open partially_filled = true
is_open _ = false

-- `ORDER BY created_at ASC`
unfoldable pub insert_by_time : Order → List Order → List Order
insert_by_time o [] = o ∷ []
insert_by_time o (p ∷ ps) =
    if ltb o.created_at p.created_at then o ∷ p ∷ ps else p ∷ insert_by_time o ps

unfoldable pub sort_by_time : List Order → List Order → List Order
sort_by_time sorted [] = sorted
sort_by_time sorted (o ∷ os) = sort_by_time (insert_by_time o sorted) os

-- OrderRepository.ListOpenForRecovery
unfoldable pub list_open_for_recovery : Action (List Order)
unfolding filter is_open insert_by_time sort_by_time
list_open_for_recovery =
    query (λ db. sort_by_time [] (filter (λ (o : Order). is_open o.status) db.orders))

-- ProcessedEventsRepository.TryMark: true for an entry that was not marked before.
unfoldable pub try_mark : ℕ → Action Bool
unfolding any
try_mark entry_id = exec_rows (λ db.
    if any (λ id. id == entry_id) db.processed_stream_events then (false, db) else (
      true,
      record db { processed_stream_events = db.processed_stream_events ++ entry_id ∷ [] },
    ))

-- What the trades table refuses.
unfoldable pub violates_trade_checks : Database → Trade.Trade → Bool
unfolding any
violates_trade_checks db t =
    Int64.le t.quantity (pos 0)
    || any (λ (u : Trade.Trade). u.id == t.id) db.trades
    || not (any (has_id t.buy_order_id) db.orders)
    || not (any (has_id t.sell_order_id) db.orders)
    || not (any (owns t.buyer_user_id) db.wallets)
    || not (any (owns t.seller_user_id) db.wallets)

-- TradeRepository.Insert
unfoldable pub insert_trade : Trade.Trade → Action (Unit {0})
unfolding violates_trade_checks
insert_trade t = exec (λ db.
    if violates_trade_checks db t then none else some (record db { trades = db.trades ++ t ∷ [] }))

-- OutboxRepository.Insert
unfoldable pub insert_outbox : List ℕ → Payload → Action (Unit {0})
insert_outbox stream_name payload = exec (λ db.
    let event : OutboxEvent = record {
      id = db.next_outbox_id;
      stream_name = stream_name;
      payload = payload;
      published = false;
    } in
    some (record db {
      outbox_events = db.outbox_events ++ event ∷ [];
      next_outbox_id = suc db.next_outbox_id;
    }))

-- OutboxRepository.FetchUnpublishedBatch; the rows are in the order of their ids, and Postgres refuses
-- a LIMIT below zero.
unfoldable pub fetch_unpublished_batch : Int64 → Action (List OutboxEvent)
unfolding filter
fetch_unpublished_batch limit =
    if Int64.lt limit (pos 0)
    then query (λ db. tt) >>= (λ _. raise driver)
    else query (λ db.
      take (pos_part limit) (filter (λ (e : OutboxEvent). not e.published) db.outbox_events))

-- OutboxRepository.LockIfUnpublished, where no other publisher holds the lock.
unfoldable pub lock_if_unpublished : ℕ → Action Bool
unfolding any
lock_if_unpublished id =
    query (λ db. any (λ (e : OutboxEvent). (e.id == id) && not e.published) db.outbox_events)

-- OutboxRepository.MarkPublished
unfoldable pub mark_published : ℕ → Action (Unit {0})
unfolding update_rows
mark_published id = exec (λ db. some (record db {
  outbox_events =
      update_rows (λ (e : OutboxEvent). e.id == id) (λ e. record e { published = true })
        db.outbox_events;
}))
