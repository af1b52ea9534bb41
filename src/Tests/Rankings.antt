-- ===== src/Tests/Rankings.antt =====
-- internal/domain/matching/book.go and engine.go: calls on the book and on sorted lists.
use order_book_vibranium.Base.{refl, none, List, [], ◌∷◌, arith}
use order_book_vibranium.Base.Int64.{pos}
use order_book_vibranium.Book.{cancel, new_book}
use order_book_vibranium.Book.Start.{new_book-IsValid}
use order_book_vibranium.Engine.{match, level_side}
use order_book_vibranium.Ranking.{Ranks, enqueue, rank_cancel, rank_match}
use order_book_vibranium.Ranking.Resting.{IsRanked, add_to_side-IsRanked, joined-Represents}
use order_book_vibranium.Ranking.Refined.{Refines, match-Refines}
use order_book_vibranium.Ranking.Withdrawn.{RefinesCancel, cancel-Refines}
use order_book_vibranium.Ranking.Commands.{
  Command, submit, withdrawal, restore, AreCalls, run_commands, rank_commands,
}
use order_book_vibranium.Ranking.History.{RefinesAll, run_commands-Refines, new_book-IsRanked}
use order_book_vibranium.Tests.Orders.{resting_ask, resting_ask-IsValid}
use order_book_vibranium.Tests.Books.{
  one_ask, one_ask-IsValid, hundred-IsPrice, ask-Rests, unknown_ask,
}
use order_book_vibranium.Tests.Matches.{clock, limit_buy, limit_buy-IsReady}

-- An ask is restored, a larger BUY takes it and rests, and is withdrawn.
abbrev three_calls : List Command
three_calls = restore resting_ask ∷ submit clock limit_buy none ∷ withdrawal 7 ∷ []

three_calls-AreCalls : AreCalls three_calls
three_calls-AreCalls = (
  (
    record { valid = resting_ask-IsValid; traded = tt; priced = hundred-IsPrice },
    refl,
    omega arith,
  ),
  (λ e. omega (arith, e), (tt, tt)),
  ((limit_buy-IsReady.taker, limit_buy-IsReady.funds), (tt, tt), (tt, tt, tt)),
)

run_commands-Refines_example :
    RefinesAll
      (run_commands three_calls new_book)
      (rank_commands three_calls (record { bids = []; asks = [] }))
run_commands-Refines_example = run_commands-Refines three_calls three_calls-AreCalls

abbrev one_order : Ranks
one_order = record { bids = []; asks = resting_ask ∷ [] }

one_ask-IsRanked : IsRanked one_ask one_order
unfolding enqueue level_side new_book
one_ask-IsRanked =
    let r = new_book-IsRanked in
    let (valid, opposite, own) =
      joined-Represents new_book resting_ask (pos 100) [] [] new_book-IsValid tt hundred-IsPrice
        ask-Rests unknown_ask r.bids r.asks in
    add_to_side-IsRanked new_book (record { bids = []; asks = [] }) resting_ask (pos 100) tt
      opposite own

match-Refines_example :
    Refines (match clock one_ask limit_buy none) (rank_match clock one_order limit_buy none)
match-Refines_example =
    match-Refines clock one_ask one_order limit_buy none limit_buy-IsReady one_ask-IsRanked

cancel-Refines_example : RefinesCancel (cancel 3 one_ask) (rank_cancel 3 one_order)
cancel-Refines_example = cancel-Refines one_ask one_ask-IsValid one_order one_ask-IsRanked 3
