-- ===== src/Tests/Books.antt =====
-- internal/domain/matching/book.go: a book for the tests, with one resting order.
use order_book_vibranium.Base.{ℕ, zero, suc, ◌≡◌, ◌≢◌, ◌<◌, refl, none, some, List, [], ◌∷◌, arith}
use order_book_vibranium.Base.Int64.{pos}
use order_book_vibranium.Base.Run.{done}
use order_book_vibranium.Base.Assoc.{lookup}
use order_book_vibranium.Order.{Side}
use order_book_vibranium.Level.{Level}
use order_book_vibranium.LevelHeap.{push, remove, key, at}
use order_book_vibranium.LevelHeap.Ordered.{IsHeap}
use order_book_vibranium.LevelHeap.Content.{IsIndexed}
use order_book_vibranium.LevelHeap.Mutate.{Pushed, Removed, push-Pushed, remove-Removed}
use order_book_vibranium.Book.{Book, less_of, new_book, add_to_side, add_resting, cancel}
use order_book_vibranium.Book.Invariant.{IsValid, IsPrice, Rests, hi, lo, less_of-RanksBy, location}
use order_book_vibranium.Book.Start.{new_book-IsValid}
use order_book_vibranium.Book.Resting.{add_to_side-IsValid, add_resting-IsValid}
use order_book_vibranium.Book.Cancelling.{Cancels, cancel-Cancels}
use order_book_vibranium.Tests.Orders.{resting_ask, resting_ask-IsValid}

pub hundred-IsPrice : IsPrice (pos 100)
hundred-IsPrice = (refl, omega arith, omega arith)

pub ask-Rests : Rests Side.sell (pos 100) resting_ask
ask-Rests = record {
  valid = resting_ask-IsValid;
  some_left = omega arith;
  side = refl;
  order_type = refl;
  price = refl;
}

pub unknown_ask : lookup 3 new_book.locations ≡ none
unfolding new_book lookup
unknown_ask = refl

abbrev pub one_ask : Book
one_ask = add_to_side Side.sell (pos 100) resting_ask new_book

pub one_ask-IsValid : IsValid one_ask
one_ask-IsValid =
    add_to_side-IsValid new_book new_book-IsValid (pos 100) resting_ask unknown_ask hundred-IsPrice
      Side.sell tt ask-Rests

add_resting-IsValid_example :
    (b' : Book) × (add_resting resting_ask new_book ≡ done b')
    × IsValid b'
    × (lookup resting_ask.id b'.locations ≡ some (location Side.sell (pos 100) new_book.next_addr))
add_resting-IsValid_example =
    add_resting-IsValid new_book new_book-IsValid (pos 100) resting_ask unknown_ask hundred-IsPrice
      Side.sell tt ask-Rests

cancel-Cancels_example : Cancels one_ask 3 (cancel 3 one_ask)
cancel-Cancels_example = cancel-Cancels one_ask 3 one_ask-IsValid

-- Two levels of bids, the better one at the root.
abbrev two_bids : List Level
two_bids =
    record { price_cents = pos 90; orders = []; index = 0 }
    ∷ record { price_cents = pos 80; orders = []; index = 1 }
    ∷ []

two_bids_index : (i : ℕ) → i < 2 → (at two_bids i).index ≡ i
two_bids_index zero lt = refl
two_bids_index (suc zero) lt = refl
two_bids_index (suc (suc i)) lt = absurd (omega arith)

two_bids_unique : (i j : ℕ) → i < 2 → j < 2 → key two_bids i ≡ key two_bids j → i ≡ j
two_bids_unique zero zero p q e = refl
two_bids_unique (suc zero) (suc zero) p q e = refl
two_bids_unique zero (suc zero) p q e = absurd (ground arith)
two_bids_unique (suc zero) zero p q e = absurd (ground arith)
two_bids_unique (suc (suc i)) j p q e = absurd (omega arith)
two_bids_unique i (suc (suc j)) p q e = absurd (omega arith)

two_bids-IsHeap : IsHeap (hi Side.buy) (lo Side.buy) 2 two_bids
two_bids-IsHeap zero p q = absurd (omega arith)
two_bids-IsHeap (suc zero) p q = omega arith
two_bids-IsHeap (suc (suc c)) p q = absurd (omega arith)

two_bids-IsIndexed : IsIndexed two_bids
two_bids-IsIndexed = record { index = two_bids_index; unique = two_bids_unique }

remove-Removed_example :
    Removed (hi Side.buy) (lo Side.buy) two_bids 0 (remove (less_of Side.buy) two_bids 0)
remove-Removed_example =
    remove-Removed (less_of Side.buy) (hi Side.buy) (lo Side.buy) (less_of-RanksBy Side.buy)
      two_bids two_bids-IsHeap two_bids-IsIndexed 0 (omega arith)

-- A new best bid.
abbrev best_bid : Level
best_bid = record { price_cents = pos 95; orders = []; index = 0 }

two_bids_fresh : (i : ℕ) → i < 2 → key two_bids i ≢ best_bid.price_cents
two_bids_fresh zero lt e = ground arith
two_bids_fresh (suc zero) lt e = ground arith
two_bids_fresh (suc (suc i)) lt e = absurd (omega arith)

push-Pushed_example :
    Pushed (hi Side.buy) (lo Side.buy) two_bids best_bid (push (less_of Side.buy) two_bids best_bid)
push-Pushed_example =
    push-Pushed (less_of Side.buy) (hi Side.buy) (lo Side.buy) (less_of-RanksBy Side.buy) two_bids
      two_bids-IsHeap two_bids-IsIndexed best_bid two_bids_fresh
