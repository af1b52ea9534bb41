-- ===== src/Engine/Outcome.antt =====
-- internal/domain/matching/engine.go: how Match ends.
use order_book_vibranium.Base.{
  ℕ, ◌<◌, ◌≡◌, refl, ◌⊎◌, inl, inr, true, false, Option, none, some, [], arith, Bool-cases,
}
use order_book_vibranium.Base.Int64
use order_book_vibranium.Base.Int64.{Int64, pos, pos_part, neg_part, IsNat}
use order_book_vibranium.Base.Run.{Run, done, panic, out_of_fuel}
use order_book_vibranium.Base.Assoc.{lookup}
use order_book_vibranium.Order.{
  Order, Side, OrderType, Status, cancelled, filled, Time, Uuid, is_limit, remaining, is_done,
}
use order_book_vibranium.Order
use order_book_vibranium.Order.Lifecycle.{left, remaining-eq-left, cancel_absorbs}
use order_book_vibranium.Book.{Book, add_resting}
use order_book_vibranium.Book.Invariant
use order_book_vibranium.Book.Invariant.{Rests, IsPrice, location}
use order_book_vibranium.Book.Resting.{add_resting-IsValid}
use order_book_vibranium.Engine.{
  Matching, MatchResult, match_loop, rest_or_cancel, enough_rounds, match,
}
use order_book_vibranium.Engine.Ready.{IsPriced, IsReady, IsStopped}
use order_book_vibranium.Engine.Loop.{Trading, LoopIs, match_loop-LoopIs}

-- Nothing is left of the order.
pub record IsComplete (s : Matching) (b : Book) (r : MatchResult) : Type 0 where
  pub complete : left s.incoming ≡ 0
  pub book : b ≡ s.book
  pub incoming : r.incoming ≡ s.incoming
  pub not_rested : r.rested_on_book ≡ false
  pub not_cancelled : r.cancelled_quantity ≡ pos 0

-- A LIMIT order rests with its remainder.
pub record IsRested (s : Matching) (b : Book) (r : MatchResult) : Type 0 where
  pub some_left : 0 < left s.incoming
  pub limit_order : s.incoming.order_type ≡ OrderType.limit
  pub book : add_resting s.incoming s.book ≡ done b
  pub incoming : r.incoming ≡ s.incoming
  pub rested : r.rested_on_book ≡ true
  pub not_cancelled : r.cancelled_quantity ≡ pos 0
  pub price : Int64
  pub priced : s.incoming.price_cents ≡ some price
  pub located :
      lookup s.incoming.id b.locations ≡ some (location s.incoming.side price s.book.next_addr)

-- The remainder of a MARKET order is cancelled.
pub record IsCancelled (s : Matching) (b : Book) (r : MatchResult) : Type 0 where
  pub some_left : 0 < left s.incoming
  pub market_order : s.incoming.order_type ≡ OrderType.market
  pub book : b ≡ s.book
  pub done_order : is_done r.incoming ≡ true
  pub same_filled : r.incoming.filled_quantity ≡ s.incoming.filled_quantity
  pub not_rested : r.rested_on_book ≡ false
  pub remainder : r.cancelled_quantity ≡ pos (left s.incoming)

-- How Match ends from the state `s` that the loop leaves.
abbrev pub Finishes : Matching → Run (Book × MatchResult) → Type 0
Finishes s panic = ⊥
Finishes s out_of_fuel = ⊥
Finishes s (done (b, r)) =
    Invariant.IsValid b
    × (r.trades ≡ s.trades)
    × (r.touched_makers ≡ s.touched_makers)
    × (IsComplete s b r ⊎ IsRested s b r ⊎ IsCancelled s b r)

pub is_limit-true : (t : OrderType) → is_limit t ≡ true → t ≡ OrderType.limit
unfolding is_limit
is_limit-true t h = ground arith

pub priced_market :
    (t : OrderType) (p : Option Int64) → IsPriced t p → is_limit t ≡ false → t ≡ OrderType.market
unfolding is_limit
priced_market t p v h = ground arith

pub limit-IsPrice :
    (t : OrderType) (p : Option Int64)
    → IsPriced t p
    → t ≡ OrderType.limit
    → (price : Int64) × IsPrice price × (p ≡ some price)
limit-IsPrice t none v l = absurd (rw l at v)
limit-IsPrice t (some p) v l = (p, rw l at v, refl)

rest_or_cancel-Finishes :
    (now : Time) (s : Matching) → IsReady s → Finishes s (rest_or_cancel now s)
unfolding rest_or_cancel
rest_or_cancel-Finishes now s v =
    let l_is = remaining-eq-left s.incoming v.taker.valid in
    elim (Bool-cases (Int64.lt (pos 0) (remaining s.incoming))) [
      | inr e ↦ rw e (
        v.book,
        refl,
        refl,
        inl (record {
          complete = ground (arith, l_is);
          book = refl;
          incoming = refl;
          not_rested = refl;
          not_cancelled = refl;
        }),
      )
      | inl e ↦ elim (Bool-cases (is_limit s.incoming.order_type)) [
        | inl limit ↦
            let l = is_limit-true s.incoming.order_type limit in
            let (price, is_price, priced) =
              limit-IsPrice s.incoming.order_type s.incoming.price_cents v.taker.priced l in
            let rests : Rests s.incoming.side price s.incoming = record {
              valid = v.taker.valid;
              some_left = ground (arith, l_is);
              side = refl;
              order_type = l;
              price = priced;
            } in
            let (b', added, valid', at) =
              add_resting-IsValid s.book v.book price s.incoming v.fresh is_price s.incoming.side
                v.taker.traded rests in
            rw e (
              rw limit (
                rw added (
                  valid',
                  refl,
                  refl,
                  inr (
                      inl (record {
                        some_left = rests.some_left;
                        limit_order = l;
                        book = added;
                        incoming = refl;
                        rested = refl;
                        not_cancelled = refl;
                        price = price;
                        priced = priced;
                        located = at;
                      })),
                )))
        | inr market ↦ rw e (
            rw market (
              v.book,
              refl,
              refl,
              inr (
                  inr (record {
                    some_left = ground (arith, l_is);
                    market_order =
                        priced_market s.incoming.order_type s.incoming.price_cents v.taker.priced
                          market;
                    book = refl;
                    done_order = (cancel_absorbs now now s.incoming).0;
                    same_filled = unfold Order.cancel in ground arith;
                    not_rested = refl;
                    remainder = l_is;
                  })),
            ))
      ]
    ]

abbrev pub start : Book → Order → Option Int64 → Matching
start b o funds = record { book = b; incoming = o; funds = funds; trades = []; touched_makers = [] }

-- Match returns: trades lead from its arguments to a state where it stops with a reason, and from
-- there it completes, rests or cancels the order.
abbrev pub MatchIs : Matching → Run (Book × MatchResult) → Type 0
MatchIs s0 r = (s : Matching) × IsReady s × IsStopped s × Trading s0 s × Finishes s r

finish :
    (now : Time) (s0 : Matching) (r : Run Matching)
    → LoopIs s0 r
    → MatchIs s0
        (elim r [ done s ↦ rest_or_cancel now s | panic ↦ panic | out_of_fuel ↦ out_of_fuel ])
finish now s0 (done s) (v, stopped, more) = (s, v, stopped, more, rest_or_cancel-Finishes now s v)
finish now s0 panic z = elim z [ ]
finish now s0 out_of_fuel z = elim z [ ]

-- On a consistent book that does not know the order's id, Match of a valid LIMIT or MARKET order
-- returns, with funds that are an int64 and not negative where they are given for a BUY MARKET
-- order, with no panic and within its fuel: it makes a sequence
-- of trades, each with the first order of the best queue at the price of that queue, stops because
-- nothing is left of the order, nothing rests against it, its limit refuses the best price, or the
-- funds do not pay for one unit, and then the order is complete, rests with its remainder if it is
-- a LIMIT order, or has its remainder cancelled if it is a MARKET order; the book stays consistent.
pub match-MatchIs :
    (clock : ℕ → Time) (b : Book) (o : Order) (funds : Option Int64)
    → IsReady (start b o funds)
    → MatchIs (start b o funds) (match clock b o funds)
unfolding match enough_rounds
match-MatchIs clock b o funds v =
    finish (clock 0) (start b o funds) (match_loop clock (enough_rounds o) (start b o funds)) (
      match_loop-LoopIs clock (enough_rounds o) (start b o funds) v
        (ground (arith, remaining-eq-left o v.taker.valid)))
