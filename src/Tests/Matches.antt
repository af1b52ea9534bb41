-- ===== src/Tests/Matches.antt =====
-- internal/domain/matching/engine.go: matching against the book with one resting order.
use order_book_vibranium.Base.{◌≡◌, refl, none, some, arith}
use order_book_vibranium.Base.Int64.{pos}
use order_book_vibranium.Base.Assoc.{lookup, insert}
use order_book_vibranium.Order.{Order, Side, OrderType, Time}
use order_book_vibranium.Book.{add_to_side, new_book, heap_and_index, set_heap_and_index}
use order_book_vibranium.Engine.{match, limiting_funds}
use order_book_vibranium.Engine.Uncrossed.{IsUncrossed, Uncrosses, match-Uncrosses}
use order_book_vibranium.Engine.Ready.{IsReady}
use order_book_vibranium.Engine.Outcome.{MatchIs, start, match-MatchIs}
use order_book_vibranium.Engine.Correct.{
  Conserves, Allows, Costs, match-Conserves, match-Allows, match-Costs,
}
use order_book_vibranium.Tests.Orders.{new_order, new_order-IsValid}
use order_book_vibranium.Tests.Books.{one_ask, one_ask-IsValid, hundred-IsPrice}

abbrev pub clock : Time → Time
clock n = n

abbrev pub limit_buy : Order
limit_buy = new_order Side.buy OrderType.limit

abbrev market_buy : Order
market_buy = new_order Side.buy OrderType.market

unknown_buy : lookup 7 one_ask.locations ≡ none
unfolding add_to_side new_book lookup insert
unknown_buy = refl

pub limit_buy-IsReady : IsReady (start one_ask limit_buy none)
unfolding limiting_funds
limit_buy-IsReady = record {
  book = one_ask-IsValid;
  taker = record {
    valid = new_order-IsValid Side.buy OrderType.limit;
    traded = tt;
    priced = hundred-IsPrice;
  };
  fresh = unknown_buy;
  funds = tt;
}

market_buy-IsReady : IsReady (start one_ask market_buy (some (pos 150)))
unfolding limiting_funds
market_buy-IsReady = record {
  book = one_ask-IsValid;
  taker = record { valid = new_order-IsValid Side.buy OrderType.market; traded = tt; priced = tt };
  fresh = unknown_buy;
  funds = (refl, omega arith);
}

match-MatchIs_example : MatchIs (start one_ask limit_buy none) (match clock one_ask limit_buy none)
match-MatchIs_example = match-MatchIs clock one_ask limit_buy none limit_buy-IsReady

match-Conserves_example : Conserves limit_buy (match clock one_ask limit_buy none)
match-Conserves_example = match-Conserves clock one_ask limit_buy none limit_buy-IsReady

match-Allows_example : Allows limit_buy (match clock one_ask limit_buy none)
match-Allows_example = match-Allows clock one_ask limit_buy none limit_buy-IsReady

match-Costs_example :
    Costs
      (limiting_funds market_buy (some (pos 150)))
      (match clock one_ask market_buy (some (pos 150)))
match-Costs_example = match-Costs clock one_ask market_buy (some (pos 150)) market_buy-IsReady

one_ask-IsUncrossed : IsUncrossed one_ask
unfolding add_to_side new_book heap_and_index set_heap_and_index
one_ask-IsUncrossed = record { apart = λ p q es fs (i, lt, k, o) h. absurd (omega (arith, lt)) }

match-Uncrosses_example : Uncrosses (match clock one_ask limit_buy none)
match-Uncrosses_example =
    match-Uncrosses clock one_ask limit_buy none limit_buy-IsReady one_ask-IsUncrossed
