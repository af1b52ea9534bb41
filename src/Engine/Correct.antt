-- ===== src/Engine/Correct.antt =====
-- internal/domain/matching/engine.go: the quantities, prices and funds of one call of Match.
use order_book_vibranium.Base.{
  ℕ, ◌+◌, ◌≤◌, ◌≡◌, refl, inl, inr, Option, none, some, arith, if◌then◌else◌,
}
use order_book_vibranium.Base.Int64.{Int64, pos_part}
use order_book_vibranium.Base.Run.{Run, done, panic, out_of_fuel}
use order_book_vibranium.Order.{Order, Time}
use order_book_vibranium.Order.Lifecycle.{left}
use order_book_vibranium.Book.{Book}
use order_book_vibranium.Engine.{MatchResult, match, limiting_funds}
use order_book_vibranium.Engine.Ready.{IsReady}
use order_book_vibranium.Engine.Outcome.{MatchIs, start, match-MatchIs}
use order_book_vibranium.Engine.Totals.{
  volume, cost, AreAllowed, Balances, Trading-Keeps, Trading-AreAllowed,
}

-- The units of the order are traded, cancelled, or rest on the book.
abbrev pub Conserves : Order → Run (Book × MatchResult) → Type 0
Conserves o panic = ⊥
Conserves o out_of_fuel = ⊥
Conserves o (done (b, r)) =
    left o
    ≡ volume r.trades
      + pos_part r.cancelled_quantity
      + (if r.rested_on_book then left r.incoming else 0)

-- The trades cost no more than the funds.
abbrev pub Costs : Option Int64 → Run (Book × MatchResult) → Type 0
Costs none r = Unit
Costs (some f) panic = ⊥
Costs (some f) out_of_fuel = ⊥
Costs (some f) (done (b, r)) = cost r.trades ≤ pos_part f

abbrev pub Allows : Order → Run (Book × MatchResult) → Type 0
Allows o panic = ⊥
Allows o out_of_fuel = ⊥
Allows o (done (b, r)) = AreAllowed o r.trades

module _ (b : Book) (o : Order) (funds : Option Int64) where
  conserved : (r : Run (Book × MatchResult)) → MatchIs (start b o funds) r → Conserves o r
  conserved panic m = m.4
  conserved out_of_fuel m = m.4
  conserved (done (b', r)) (s, v, stopped, more, (valid, trades, makers, inl x)) =
      let k = (Trading-Keeps more).units in
      rw (trades, x.not_cancelled, x.not_rested) (omega (arith, k, x.complete))
  conserved (done (b', r)) (s, v, stopped, more, (valid, trades, makers, inr (inl x))) =
      let k = (Trading-Keeps more).units in
      rw (trades, x.not_cancelled, x.rested, x.incoming) (omega (arith, k))
  conserved (done (b', r)) (s, v, stopped, more, (valid, trades, makers, inr (inr x))) =
      let k = (Trading-Keeps more).units in
      rw (trades, x.remainder, x.not_rested) (omega (arith, k))

  allowed : (r : Run (Book × MatchResult)) → MatchIs (start b o funds) r → Allows o r
  allowed panic m = m.4
  allowed out_of_fuel m = m.4
  allowed (done (b', r)) (s, v, stopped, more, (valid, trades, makers, how)) = rw trades (
      Trading-AreAllowed o more
        (record { id = refl; user_id = refl; side = refl; order_type = refl; price = refl }) tt)

Costs-no_more :
    (f f' : Option Int64) (c : ℕ) (r : Run (Book × MatchResult))
    → Balances f 0 f' c
    → ((g : Int64) → c ≤ pos_part g → Costs (some g) r)
    → Costs f r
Costs-no_more none f' c r x within = tt
Costs-no_more (some f) none c r x within = elim x [ ]
Costs-no_more (some f) (some f') c r x within = within f (omega (arith, x))

costed :
    (b : Book) (o : Order) (funds : Option Int64) (r : Run (Book × MatchResult))
    → MatchIs (start b o funds) r
    → Costs (limiting_funds o funds) r
costed b o funds panic m = absurd m.4
costed b o funds out_of_fuel m = absurd m.4
costed b o funds (done (b', r)) (s, v, stopped, more, (valid, trades, makers, how)) =
    Costs-no_more (limiting_funds o funds) (limiting_funds s.incoming s.funds) (cost s.trades)
      (done (b', r)) (Trading-Keeps more).balances (λ g h. rw trades h)

module _ (clock : ℕ → Time) (b : Book) (o : Order) (funds : Option Int64)
    (ready : IsReady (start b o funds)) where
  -- On a consistent book that does not know the order's id, for a valid order and funds that are
  -- an int64 and not negative where they are given for a BUY MARKET order, Match returns, and every unit that was left of the order is traded, is the
  -- remainder that rests on the book, or is reported as cancelled.
  pub match-Conserves : Conserves o (match clock b o funds)
  match-Conserves =
      conserved b o funds (match clock b o funds) (match-MatchIs clock b o funds ready)

  -- On a consistent book that does not know the order's id, for a valid order and funds that are
  -- an int64 and not negative where they are given for a BUY MARKET order, Match returns, and every
  -- trade has a positive quantity and a price that the
  -- limit of the order accepts, and names the order and its user on the order's own side.
  pub match-Allows : Allows o (match clock b o funds)
  match-Allows = allowed b o funds (match clock b o funds) (match-MatchIs clock b o funds ready)

  -- On a consistent book that does not know the order's id, for a valid BUY MARKET order with given
  -- funds that are an int64 and not negative, Match returns and its trades cost, at their exact
  -- prices, no more than these funds; without funds, or for another order, nothing is claimed.
  pub match-Costs : Costs (limiting_funds o funds) (match clock b o funds)
  match-Costs = costed b o funds (match clock b o funds) (match-MatchIs clock b o funds ready)
