-- ===== src/Matcher.antt =====
-- internal/application/matcherapp/consumer_loop.go: applying a batch of stream entries.
--
-- The map walletCache is the cache of the session: a `*wallet.Wallet` that loadWallet returns is the
-- entry of its user, so a buyer who is also the seller has one wallet. `uuid.New()` and the clock
-- are read from `Readings`, one of which goes with each entry of the batch. Go ranges over the
-- cache in any order; the model takes one.
pub mod Recovery
pub mod Frames
pub mod Entries
pub mod Batches
pub mod Redelivery
pub mod Acknowledging
pub mod Safe
pub mod Rounds
pub mod Running
pub mod Rebuilt
pub mod Supply
pub mod Loop
use order_book_vibranium.Base.{
  ℕ, suc, Bool, true, false, ◌&&◌, Option, none, some, List, [], ◌∷◌, if◌then◌else◌,
}
use order_book_vibranium.Base.Int64
use order_book_vibranium.Base.Int64.{Int64, pos}
use order_book_vibranium.Base.Run.{Result, ok, err, Run, done, panic, out_of_fuel}
use order_book_vibranium.Base.Assoc.{lookup, insert}
use order_book_vibranium.Order.{
  Order, Side, Uuid, Time, open_, is_buy, is_sell, is_limit, is_market, remaining,
}
use order_book_vibranium.Order
use order_book_vibranium.Wallet.{
  Wallet, WalletError, available_brl_cents, settle_buy_market_fill, settle_buy_limit_fill,
  settle_sell_fill, release_brl_reservation, release_vibranium_reservation,
}
use order_book_vibranium.Trade
use order_book_vibranium.Book
use order_book_vibranium.Engine.{MatchResult, match}
use order_book_vibranium.Engine
use order_book_vibranium.Store.{
  EventType, new_order, cancel_order, StreamEvent, Payload, encoded, malformed, Session, Action,
  Failure, from_wallet, invalid_trade, panicked, no_fuel, pure, raise, lift, when, for_each, ◌>>=◌,
  ◌>>◌, transaction,
}
use order_book_vibranium.Store.Repositories.{
  get_wallet, update_wallet, update_order, insert_trade, try_mark,
}

-- What an entry reads of the clock and of the source of ids.
pub record Readings : Type 0 where
  pub now : Time
  pub clock : ℕ → Time
  pub trade_id : ℕ → Uuid

-- A message of the stream.
pub record Message : Type 0 where
  pub id : ℕ
  pub payload : Payload
  pub readings : Readings

-- `walletCache[userID] = w`
unfoldable pub keep_wallet : Uuid → Wallet → Action (Unit {0})
keep_wallet user_id w faults s = (ok tt, record s { cache = insert user_id w s.cache })

-- loadWallet
unfoldable pub load_wallet : Uuid → Action Wallet
unfolding keep_wallet
load_wallet user_id faults s = elim (lookup user_id s.cache) [
  | some w ↦ (ok w, s)
  | none ↦ (do w ← get_wallet user_id; keep_wallet user_id w; pure w) faults s
]

-- A method call on the wallet of a user.
unfoldable pub change_wallet : Uuid → (Wallet → Result WalletError Wallet) → Action (Unit {0})
unfolding load_wallet
change_wallet user_id method = do
  w ← load_wallet user_id
  w' ← lift from_wallet (method w)
  keep_wallet user_id w'

-- The call of Match, which changes the book of the process.
unfoldable pub match_on_book : (ℕ → Time) → Order → Option Int64 → Action MatchResult
match_on_book clock o funds faults s = elim (match clock s.book o funds) [
  | done (b, r) ↦ (ok r, record s { book = b })
  | panic ↦ (err panicked, s)
  | out_of_fuel ↦ (err no_fuel, s)
]

unfoldable pub order_of_event : Time → StreamEvent → Order
order_of_event now e = record {
  id = e.order_id;
  user_id = e.user_id;
  side = e.side;
  order_type = e.order_type;
  price_cents = e.price_cents;
  quantity = e.quantity;
  filled_quantity = pos 0;
  status = open_;
  created_at = now;
  updated_at = now;
}

abbrev pub is_buy_market : Order → Bool
is_buy_market o = is_buy o.side && is_market o.order_type

-- The funds of the buyer, read for a BUY MARKET order only.
unfoldable pub available_funds : Order → Action (Option Int64)
available_funds o =
    if is_buy_market o
    then (do w ← load_wallet o.user_id; pure (some (available_brl_cents w)))
    else pure none

-- The release of what a BUY LIMIT order reserved above the price of the trade.
unfoldable pub release_improvement : Option Int64 → Engine.Trade → Action (Unit {0})
release_improvement none tr = raise panicked
release_improvement (some p) tr =
    let improvement = Int64.mul (Int64.sub p tr.price_cents) tr.quantity in
    when (Int64.lt (pos 0) improvement)
      (change_wallet tr.buyer_user_id (release_brl_reservation improvement))

unfoldable pub settle_buyer : Order → Engine.Trade → Action (Unit {0})
unfolding release_improvement
settle_buyer o tr =
    if is_buy_market o
    then change_wallet tr.buyer_user_id (settle_buy_market_fill tr.price_cents tr.quantity)
    else (do
      change_wallet tr.buyer_user_id (settle_buy_limit_fill tr.price_cents tr.quantity)
      when (is_buy o.side && is_limit o.order_type) (release_improvement o.price_cents tr))

-- The wallets and the row of one trade.
unfoldable pub settle_trade : Time → Uuid → Order → Engine.Trade → Action (Unit {0})
unfolding settle_buyer
settle_trade now id o tr = do
  buyer ← load_wallet tr.buyer_user_id
  seller ← load_wallet tr.seller_user_id
  settle_buyer o tr
  change_wallet tr.seller_user_id (settle_sell_fill tr.price_cents tr.quantity)
  t ←
      lift (λ e. invalid_trade)
        (Trade.new id tr.buy_order_id tr.sell_order_id tr.buyer_user_id tr.seller_user_id
          tr.price_cents tr.quantity now)
  insert_trade t

unfoldable pub settle_trades : Readings → ℕ → Order → List Engine.Trade → Action (Unit {0})
settle_trades r k o [] = pure tt
settle_trades r k o (tr ∷ trs) =
    settle_trade r.now (r.trade_id k) o tr >> settle_trades r (suc k) o trs

-- The Vibranium that a SELL MARKET order reserved for the remainder that is cancelled.
unfoldable pub release_cancelled : Order → Int64 → Action (Unit {0})
release_cancelled o cancelled_quantity =
    when (Int64.lt (pos 0) cancelled_quantity && is_sell o.side) (do
      w ← load_wallet o.user_id
      change_wallet o.user_id (release_vibranium_reservation cancelled_quantity))

-- applyNewOrder
unfoldable pub apply_new_order : Readings → StreamEvent → Action (Unit {0})
unfolding available_funds match_on_book settle_trades release_cancelled order_of_event
apply_new_order r e = do
  let o = order_of_event r.now e
  funds ← available_funds o
  result ← match_on_book r.clock o funds
  settle_trades r 0 o result.trades
  for_each result.touched_makers (update_order r.now)
  release_cancelled o result.cancelled_quantity
  update_order r.now result.incoming

-- The call of Book.Cancel.
unfoldable pub cancel_on_book : Uuid → Action (Option Order)
cancel_on_book id faults s =
    let (removed, b) = Book.cancel id s.book in (ok removed, record s { book = b })

-- The release of what a cancelled order still has reserved.
unfoldable pub release_remaining : Order → Action (Unit {0})
release_remaining o =
    if is_buy o.side
    then (do
      w ← load_wallet o.user_id
      elim o.price_cents [
        | none ↦ raise panicked
        | some p ↦ change_wallet o.user_id (release_brl_reservation (Int64.mul p (remaining o)))
      ])
    else (do
      w ← load_wallet o.user_id
      change_wallet o.user_id (release_vibranium_reservation (remaining o)))

unfoldable pub finish_cancel : Time → Option Order → Action (Unit {0})
unfolding release_remaining
finish_cancel now none = pure tt
finish_cancel now (some removed) = do
  release_remaining removed
  update_order now (Order.cancel now removed)

-- applyCancel
unfoldable pub apply_cancel : Readings → StreamEvent → Action (Unit {0})
unfolding cancel_on_book finish_cancel
apply_cancel r e = do removed ← cancel_on_book e.order_id; finish_cancel r.now removed

unfoldable pub apply_type : EventType → Readings → StreamEvent → Action (Unit {0})
apply_type new_order r e = apply_new_order r e
apply_type cancel_order r e = apply_cancel r e
apply_type EventType.other r e = pure tt

-- applyEntry
unfoldable pub apply_entry : Readings → StreamEvent → Action (Unit {0})
unfolding apply_type
apply_entry r e = apply_type e.event_type r e

unfoldable pub apply_payload : Readings → Payload → Action (Unit {0})
apply_payload r malformed = pure tt
apply_payload r (encoded e) = apply_entry r e

-- The body of the loop over the messages.
unfoldable pub apply_message : Message → Action (Unit {0})
unfolding apply_payload
apply_message m = do
  first_time ← try_mark m.id
  when first_time (apply_payload m.readings m.payload)

-- The UPDATE of every wallet in the cache.
unfoldable pub flush_wallets : Action (Unit {0})
flush_wallets faults s = for_each s.cache (λ e. update_wallet e.1) faults s

unfoldable pub empty_cache : Action (Unit {0})
empty_cache faults s = (ok tt, record s { cache = [] })

-- applyBatch
unfoldable pub apply_batch : List Message → Action (Unit {0})
unfolding apply_message flush_wallets empty_cache
apply_batch msgs = transaction (do empty_cache; for_each msgs apply_message; flush_wallets)
