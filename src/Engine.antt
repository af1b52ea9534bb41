-- ===== src/Engine.antt =====
-- internal/domain/matching/engine.go: matching one incoming order against the book.
--
-- The loop of Match is `match_loop` over the variables that it changes: the book, the incoming
-- order, the buyer's funds and the result so far. Each round that goes on makes one trade; the fuel
-- is the quantity that is left of the order and two more, and is proved to be enough.
-- `time.Now()` is a clock whose readings are arguments. The makers in the result are the values
-- that the orders have after their fill, which no later round changes.
pub mod Quantity
pub mod Ready
pub mod Rounds
pub mod Loop
pub mod Outcome
pub mod Totals
pub mod Correct
pub mod Uncrossed
pub mod Settling
pub mod Known
use order_book_vibranium.Base.{
  ℕ, zero, suc, ◌+◌, ◌*◌, Bool, true, false, ◌&&◌, Option, none, some, List, [], ◌∷◌, ◌++◌,
  if◌then◌else◌,
}
use order_book_vibranium.Base.Int64
use order_book_vibranium.Base.Int64.{Int64, pos, pos_part}
use order_book_vibranium.Base.Run.{Result, ok, err, Run, done, panic, out_of_fuel}
use order_book_vibranium.Order.{
  Order, Side, Uuid, Time, is_buy, is_sell, is_limit, is_market, remaining, fill,
}
use order_book_vibranium.Order
use order_book_vibranium.Level.{Level, front_order, set_front}
use order_book_vibranium.Book.{
  Book, LevelRef, best_opposite, add_resting, write_level, remove_front,
}

-- The result of one execution; the price is that of the resting order.
pub record Trade : Type 0 where
  pub buy_order_id : Uuid
  pub sell_order_id : Uuid
  pub buyer_user_id : Uuid
  pub seller_user_id : Uuid
  pub price_cents : Int64
  pub quantity : Int64

pub record MatchResult : Type 0 where
  pub trades : List Trade
  pub incoming : Order
  pub touched_makers : List Order
  pub rested_on_book : Bool
  pub cancelled_quantity : Int64

-- The variables of the loop; `funds` is what `availableBuyerFundsCents` points to, if not nil.
pub record Matching : Type 0 where
  pub book : Book
  pub incoming : Order
  pub funds : Option Int64
  pub trades : List Trade
  pub touched_makers : List Order

unfoldable pub min64 : Int64 → Int64 → Int64
min64 a b = if Int64.lt a b then a else b

-- `oppositeSide`
unfoldable pub opposite_side : Side → Side
opposite_side Side.sell = Side.buy
opposite_side _ = Side.sell

-- The side of the level that BestOpposite returns.
unfoldable pub level_side : Side → Side
level_side Side.buy = Side.sell
level_side _ = Side.buy

-- Whether a LIMIT order stops at the price of the level; `none` is a nil price, which panics.
unfoldable pub price_stops : Side → Option Int64 → Int64 → Option Bool
price_stops Side.buy none level_price = none
price_stops Side.buy (some p) level_price = some (Int64.lt p level_price)
price_stops Side.sell none level_price = none
price_stops Side.sell (some p) level_price = some (Int64.lt level_price p)
price_stops Side.other p level_price = some false

unfoldable pub limit_stops : Order → Int64 → Option Bool
unfolding is_limit price_stops
limit_stops o level_price =
    if is_limit o.order_type then price_stops o.side o.price_cents level_price else some false

-- The funds, for a BUY MARKET order.
unfoldable pub limiting_funds : Order → Option Int64 → Option Int64
unfolding is_buy is_market
limiting_funds o funds = if is_buy o.side && is_market o.order_type then funds else none

unfoldable pub affordable_quantity : Option Int64 → Int64 → Int64 → Int64
affordable_quantity none level_price qty = qty
affordable_quantity (some f) level_price qty =
    let affordable = Int64.quot f level_price in if Int64.lt affordable qty then affordable else qty

unfoldable pub match_quantity : Order → Order → Option Int64 → Int64 → Int64
unfolding min64
match_quantity incoming maker funds level_price =
    affordable_quantity (limiting_funds incoming funds) level_price
      (min64 (remaining incoming) (remaining maker))

unfoldable pub make_trade : Order → Order → Int64 → Int64 → Trade
make_trade incoming maker price qty =
    if is_buy incoming.side
    then record {
      buy_order_id = incoming.id;
      sell_order_id = maker.id;
      buyer_user_id = incoming.user_id;
      seller_user_id = maker.user_id;
      price_cents = price;
      quantity = qty;
    }
    else record {
      buy_order_id = maker.id;
      sell_order_id = incoming.id;
      buyer_user_id = maker.user_id;
      seller_user_id = incoming.user_id;
      price_cents = price;
      quantity = qty;
    }

-- `_ = o.Fill(qty)`: an error changes nothing and is dropped.
unfoldable pub fill_or_keep : Time → Int64 → Order → Order
fill_or_keep now qty o = elim (fill now qty o) [ ok o' ↦ o' | err e ↦ o ]

unfoldable pub spend : Option Int64 → Int64 → Int64 → Option Int64
spend none qty level_price = none
spend (some f) qty level_price = some (Int64.sub f (Int64.mul qty level_price))

-- The book once the maker, at the front of the level, has been filled.
unfoldable pub settle_maker : Side → Int64 → Order → Book → Book
settle_maker incoming_side price maker b =
    let ref : LevelRef = record { side = level_side incoming_side; price_cents = price } in
    let b' = write_level ref (set_front maker) b in
    if Int64.eq (remaining maker) (pos 0)
    then remove_front maker (opposite_side incoming_side) ref b'
    else b'

-- One trade of `qty` with `maker`, the order at the front of the level with `price`.
unfoldable pub execute : Time → Time → Matching → Int64 → Order → Int64 → Matching
execute t t' s price maker qty =
    let maker' = fill_or_keep t' qty maker in
    record {
      book = settle_maker s.incoming.side price maker' s.book;
      incoming = fill_or_keep t qty s.incoming;
      funds = (elim (limiting_funds s.incoming s.funds) [
        | none ↦ s.funds
        | some f ↦ spend (some f) qty price
      ]);
      trades = s.trades ++ make_trade s.incoming maker price qty ∷ [];
      touched_makers = s.touched_makers ++ maker' ∷ [];
    }

-- Whether the division in `affordable_quantity` panics, which `Int64.quot` does not.
unfoldable pub divides_by_zero : Option Int64 → Int64 → Bool
divides_by_zero none level_price = false
divides_by_zero (some f) level_price = Int64.eq level_price (pos 0)

-- How a round of the loop ends; a nil price of a LIMIT order and a division by zero panic.
pub data Round : Type 0 where
  stop panics : Round
  next : Matching → Round

unfoldable pub round_maker : Time → Time → Matching → Level → Option Order → Round
round_maker t t' s lvl none = stop
round_maker t t' s lvl (some maker) =
    let qty = match_quantity s.incoming maker s.funds lvl.price_cents in
    if divides_by_zero (limiting_funds s.incoming s.funds) lvl.price_cents
    then panics
    else if Int64.eq qty (pos 0)
    then stop
    else next (execute t t' s lvl.price_cents maker qty)

unfoldable pub round_price : Time → Time → Matching → Level → Option Bool → Round
round_price t t' s lvl none = panics
round_price t t' s lvl (some true) = stop
round_price t t' s lvl (some false) = round_maker t t' s lvl (front_order lvl.orders)

unfoldable pub round_level : Time → Time → Matching → Option Level → Round
round_level t t' s none = stop
round_level t t' s (some lvl) = round_price t t' s lvl (limit_stops s.incoming lvl.price_cents)

unfoldable pub round : Time → Time → Matching → Round
round t t' s =
    if Int64.lt (pos 0) (remaining s.incoming)
    then round_level t t' s (best_opposite s.incoming.side s.book)
    else stop

unfoldable pub match_loop : (ℕ → Time) → ℕ → Matching → Run Matching
match_loop clock zero s = out_of_fuel
match_loop clock (suc k) s = elim (round (clock (2 * k + 1)) (clock (2 * k + 2)) s) [
  | stop ↦ done s
  | panics ↦ panic
  | next s' ↦ match_loop clock k s'
]

-- The part of Match after the loop.
unfoldable pub rest_or_cancel : Time → Matching → Run (Book × MatchResult)
rest_or_cancel now s =
    let result : MatchResult = record {
      trades = s.trades;
      incoming = s.incoming;
      touched_makers = s.touched_makers;
      rested_on_book = false;
      cancelled_quantity = pos 0;
    } in
    if Int64.lt (pos 0) (remaining s.incoming)
    then (if is_limit s.incoming.order_type
        then (elim (add_resting s.incoming s.book) [
          | done b ↦ done (b, record result { rested_on_book = true })
          | panic ↦ panic
          | out_of_fuel ↦ out_of_fuel
        ])
        else done (
          s.book,
          record result {
            cancelled_quantity = remaining s.incoming;
            incoming = Order.cancel now s.incoming;
          },
        ))
    else done (s.book, result)

-- Enough rounds for an incoming order: each round that goes on fills at least one unit of it.
unfoldable pub enough_rounds : Order → ℕ
enough_rounds o = suc (suc (pos_part (remaining o)))

unfoldable pub match : (ℕ → Time) → Book → Order → Option Int64 → Run (Book × MatchResult)
match clock b incoming funds =
    let start : Matching = record {
      book = b;
      incoming = incoming;
      funds = funds;
      trades = [];
      touched_makers = [];
    } in
    elim (match_loop clock (enough_rounds incoming) start) [
      | done s ↦ rest_or_cancel (clock 0) s
      | panic ↦ panic
      | out_of_fuel ↦ out_of_fuel
    ]
