-- ===== src/Ranking/Resting.antt =====
-- internal/domain/matching/book.go: the two sides of the book as sorted lists.
use mathlib.Core.Path.{subst}
use order_book_vibranium.Base.{◌≡◌, refl, none, some, List}
use order_book_vibranium.Base.Int64.{Int64}
use order_book_vibranium.Base.Run.{done}
use order_book_vibranium.Order.{Order, Side}
use order_book_vibranium.Book.{Book, add_to_side, add_resting}
use order_book_vibranium.Book.Invariant.{IsValid, IsTraded, IsPrice, Rests, levels}
use order_book_vibranium.Base.Assoc.{lookup}
use order_book_vibranium.Book.Resting.{add_to_side-IsValid}
use order_book_vibranium.Engine.{level_side}
use order_book_vibranium.Ranking.{Ranks, ranked, set_ranked, other_side, enqueue}
use order_book_vibranium.Ranking.Shown.{Represents}
use order_book_vibranium.Ranking.Joining.{add_to_side-Represents, levels-add_to_side_other}

-- The sorted lists of both sides.
pub record IsRanked (b : Book) (rk : Ranks) : Type 0 where
  pub bids : Represents Side.buy b.bids.levels rk.bids
  pub asks : Represents Side.sell b.asks.levels rk.asks

pub add_resting-eq :
    (o : Order) (b : Book) (p : Int64)
    → o.price_cents ≡ some p
    → add_resting o b ≡ done (add_to_side o.side p o b)
unfolding add_resting
add_resting-eq o b p e = rw e refl

pub other_side-eq-level_side : (s : Side) → IsTraded s → other_side s ≡ level_side s
unfolding level_side
other_side-eq-level_side Side.buy t = refl
other_side-eq-level_side Side.sell t = refl
other_side-eq-level_side Side.other t = elim t [ ]

-- The remainder of an order that can rest, on both.
pub joined-Represents :
    (b : Book) (o : Order) (p : Int64) (own os : List Order)
    → IsValid b
    → IsTraded o.side
    → IsPrice p
    → Rests o.side p o
    → lookup o.id b.locations ≡ none
    → Represents (level_side o.side) (levels b (level_side o.side)) os
    → Represents o.side (levels b o.side) own
    → IsValid (add_to_side o.side p o b)
      × Represents (level_side o.side) (levels (add_to_side o.side p o b) (level_side o.side)) os
      × Represents o.side (levels (add_to_side o.side p o b) o.side) (enqueue o.side o own)
joined-Represents b o p own os v t is_price rests fresh opposite own_side = (
  add_to_side-IsValid b v p o fresh is_price o.side t rests,
  subst (λ d. Represents (level_side o.side) (levels (add_to_side o.side p o b) d) os)
      (other_side-eq-level_side o.side t)
      (rw (levels-add_to_side_other b o.side p o t, other_side-eq-level_side o.side t) opposite),
  add_to_side-Represents b o.side p o own v t rests fresh own_side,
)

pub ranked-Represents :
    (b : Book) (rk : Ranks) (s : Side)
    → IsTraded s
    → IsRanked b rk
    → Represents s (levels b s) (ranked rk s)
ranked-Represents b rk Side.buy t r = r.bids
ranked-Represents b rk Side.sell t r = r.asks
ranked-Represents b rk Side.other t r = elim t [ ]

pub IsRanked-set_ranked :
    (b : Book) (rk : Ranks) (sd : Side) (own os : List Order)
    → IsTraded sd
    → Represents (level_side sd) (levels b (level_side sd)) os
    → Represents sd (levels b sd) own
    → IsRanked b (set_ranked (set_ranked rk (other_side sd) os) sd own)
unfolding level_side
IsRanked-set_ranked b rk Side.buy own os t x y = record { bids = y; asks = x }
IsRanked-set_ranked b rk Side.sell own os t x y = record { bids = x; asks = y }
IsRanked-set_ranked b rk Side.other own os t x y = elim t [ ]

set_own :
    (b : Book) (rk : Ranks) (sd : Side) (own : List Order)
    → IsTraded sd
    → Represents (level_side sd) (levels b (level_side sd)) (ranked rk (level_side sd))
    → Represents sd (levels b sd) own
    → IsRanked b (set_ranked rk sd own)
unfolding level_side
set_own b rk Side.buy own t x y = record { bids = y; asks = x }
set_own b rk Side.sell own t x y = record { bids = x; asks = y }
set_own b rk Side.other own t x y = elim t [ ]

-- AddResting of an order that can rest, on both sides.
pub add_to_side-IsRanked :
    (b : Book) (rk : Ranks) (o : Order) (p : Int64)
    → IsTraded o.side
    → Represents
        (level_side o.side)
        (levels (add_to_side o.side p o b) (level_side o.side))
        (ranked rk (level_side o.side))
    → Represents o.side
        (levels (add_to_side o.side p o b) o.side)
        (enqueue o.side o (ranked rk o.side))
    → IsRanked
        (add_to_side o.side p o b)
        (set_ranked rk o.side (enqueue o.side o (ranked rk o.side)))
add_to_side-IsRanked b rk o p t opposite own_side =
    set_own (add_to_side o.side p o b) rk o.side (enqueue o.side o (ranked rk o.side)) t opposite
      own_side
