-- ===== src/Ranking.antt =====
-- internal/domain/matching/book.go and engine.go: what the book and Match are meant to do, without
-- heaps, maps, queues or references.
--
-- A side of the book is one list of orders, the one to trade with first in front: by price, and by
-- arrival at one price. Match takes the orders from the front of the other side; the quantity, the
-- record and the cost of one trade are computed by the functions of Engine.
pub mod Sorted
pub mod Shown
pub mod Views
pub mod Joining
pub mod Leaving
pub mod Heads
pub mod Trading
pub mod Rounds
pub mod Resting
pub mod Looping
pub mod Concluding
pub mod Refined
mod Found
pub mod Withdrawn
pub mod Commands
pub mod Answers
pub mod History
use order_book_vibranium.Base.{
  ℕ, zero, suc, ◌+◌, ◌*◌, Bool, true, false, Option, none, some, List, [], ◌∷◌, ◌++◌, ◌==◌,
  if◌then◌else◌,
}
use order_book_vibranium.Base.Int64
use order_book_vibranium.Base.Int64.{Int64, pos}
use order_book_vibranium.Base.Run.{Run, done, panic, out_of_fuel}
use order_book_vibranium.Order.{Order, OrderType, Side, Time, Uuid, is_limit, remaining}
use order_book_vibranium.Order
use order_book_vibranium.Engine.{
  Trade, MatchResult, enough_rounds, limiting_funds, match_quantity, make_trade, fill_or_keep,
  spend,
}

-- The price of an order that rests.
abbrev pub price_of : Order → Int64
price_of o = elim o.price_cents [ none ↦ pos 0 | some p ↦ p ]

-- Price `p` is better than price `q` on a side of the book.
unfoldable pub is_better : Side → Int64 → Int64 → Bool
is_better Side.buy p q = Int64.lt q p
is_better _ p q = Int64.lt p q

-- A new order stands behind every order of its price or a better one.
unfoldable pub enqueue : Side → Order → List Order → List Order
enqueue s o [] = o ∷ []
enqueue s o (x ∷ xs) =
    if is_better s (price_of o) (price_of x) then o ∷ x ∷ xs else x ∷ enqueue s o xs

unfoldable pub withdraw : Uuid → List Order → List Order
withdraw id [] = []
withdraw id (x ∷ xs) = if x.id == id then withdraw id xs else x ∷ withdraw id xs

unfoldable pub find_order : Uuid → List Order → Option Order
find_order id [] = none
find_order id (x ∷ xs) = if x.id == id then some x else find_order id xs

-- The two sides of the book.
pub record Ranks : Type 0 where
  pub bids : List Order
  pub asks : List Order

abbrev pub ranked : Ranks → Side → List Order
ranked r Side.buy = r.bids
ranked r _ = r.asks

abbrev pub set_ranked : Ranks → Side → List Order → Ranks
set_ranked r Side.buy os = record r { bids = os }
set_ranked r _ os = record r { asks = os }

abbrev pub other_side : Side → Side
other_side Side.buy = Side.sell
other_side _ = Side.buy

-- The variables of a match; `opposite` is the side that the order trades against.
pub record Racing : Type 0 where
  pub opposite : List Order
  pub incoming : Order
  pub funds : Option Int64
  pub trades : List Trade
  pub touched_makers : List Order

-- The order accepts to trade at the price.
unfoldable pub crosses : Order → Int64 → Bool
crosses o q = elim o.order_type [
  | OrderType.limit ↦ elim o.price_cents [
    | none ↦ false
    | some p ↦ elim o.side [
      | Side.buy ↦ Int64.le q p
      | Side.sell ↦ Int64.le p q
      | Side.other ↦ false
    ]
  ]
  | OrderType.market ↦ true
  | OrderType.other ↦ false
]

-- A trade with the order in front at its price; it leaves once it is filled.
unfoldable pub trade_with : Time → Time → Racing → Order → List Order → Int64 → Int64 → Racing
trade_with t t' r maker rest price qty =
    let maker' = fill_or_keep t' qty maker in
    record {
      opposite = if Int64.eq (remaining maker') (pos 0) then rest else maker' ∷ rest;
      incoming = fill_or_keep t qty r.incoming;
      funds = (elim (limiting_funds r.incoming r.funds) [
        | none ↦ r.funds
        | some f ↦ spend (some f) qty price
      ]);
      trades = r.trades ++ make_trade r.incoming maker price qty ∷ [];
      touched_makers = r.touched_makers ++ maker' ∷ [];
    }

-- The trade, if the order crosses the price and has a quantity to trade at it.
unfoldable pub race_at : Time → Time → Racing → Order → List Order → Int64 → Option Racing
unfolding crosses trade_with
race_at t t' r maker rest price =
    let qty = match_quantity r.incoming maker r.funds price in
    if crosses r.incoming price
    then (if Int64.eq qty (pos 0) then none else some (trade_with t t' r maker rest price qty))
    else none

unfoldable pub race_front : Time → Time → Racing → List Order → Option Racing
unfolding race_at
race_front t t' r [] = none
race_front t t' r (maker ∷ rest) = race_at t t' r maker rest (price_of maker)

unfoldable pub race_round : Time → Time → Racing → Option Racing
unfolding race_front
race_round t t' r =
    if Int64.lt (pos 0) (remaining r.incoming) then race_front t t' r r.opposite else none

unfoldable pub race : (ℕ → Time) → ℕ → Racing → Option Racing
unfolding race_round
race clock zero r = none
race clock (suc k) r = elim (race_round (clock (2 * k + 1)) (clock (2 * k + 2)) r) [
  | none ↦ some r
  | some r' ↦ race clock k r'
]

-- What is left of a LIMIT order joins its own side; the rest of another order is cancelled.
unfoldable pub conclude : Time → List Order → Racing → List Order × MatchResult
unfolding enqueue
conclude now own r =
    let result : MatchResult = record {
      trades = r.trades;
      incoming = r.incoming;
      touched_makers = r.touched_makers;
      rested_on_book = false;
      cancelled_quantity = pos 0;
    } in
    if Int64.lt (pos 0) (remaining r.incoming)
    then (if is_limit r.incoming.order_type
        then (enqueue r.incoming.side r.incoming own, record result { rested_on_book = true })
        else (
          own,
          record result {
            cancelled_quantity = remaining r.incoming;
            incoming = Order.cancel now r.incoming;
          },
        ))
    else (own, result)

-- Match, on the two sides as lists.
unfoldable pub rank_match : (ℕ → Time) → Ranks → Order → Option Int64 → Option (Ranks × MatchResult)
unfolding race conclude
rank_match clock rk o funds =
    let opposite = other_side o.side in
    let start : Racing = record {
      opposite = ranked rk opposite;
      incoming = o;
      funds = funds;
      trades = [];
      touched_makers = [];
    } in
    elim (race clock (enough_rounds o) start) [
      | none ↦ none
      | some r ↦
          let (own, result) = conclude (clock 0) (ranked rk o.side) r in
          some (set_ranked (set_ranked rk opposite r.opposite) o.side own, result)
    ]

-- Cancel, on the two sides as lists.
unfoldable pub rank_cancel : Uuid → Ranks → Option Order × Ranks
unfolding find_order withdraw
rank_cancel id rk = (
  elim (find_order id rk.bids) [ none ↦ find_order id rk.asks | some o ↦ some o ],
  record { bids = withdraw id rk.bids; asks = withdraw id rk.asks },
)
