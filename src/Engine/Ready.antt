-- ===== src/Engine/Ready.antt =====
-- internal/domain/matching/engine.go: the states that the loop of Match goes through.
use order_book_vibranium.Base.{
  ℕ, ◌+◌, ◌*◌, ◌≤◌, ◌<◌, ◌≡◌, ◌⊎◌, Option, none, some, List, [], ◌∷◌, ◌++◌,
}
use order_book_vibranium.Base.Int64.{Int64, pos, pos_part}
use order_book_vibranium.Base.Assoc.{lookup}
use order_book_vibranium.Order.{Uuid, Order, Side, OrderType}
use order_book_vibranium.Order.Lifecycle
use order_book_vibranium.Order.Lifecycle.{left, remaining-eq-left}
use order_book_vibranium.Level.{Element}
use order_book_vibranium.LevelHeap.Ordered.{NotAfter}
use order_book_vibranium.LevelHeap.Content.{Holds}
use order_book_vibranium.Book.{Book}
use order_book_vibranium.Book.Invariant
use order_book_vibranium.Book.Invariant.{
  front, Rests, IsTraded, IsPrice, hi, lo, levels, queue_of, IsHeap-levels,
}
use order_book_vibranium.Engine.{Matching, level_side, limiting_funds, make_trade}
use order_book_vibranium.Engine.Quantity.{Filled, IsFunds, Affords, CannotAfford}

-- A LIMIT order has a price; the text of the type is one of the two that the code declares.
abbrev pub IsPriced : OrderType → Option Int64 → Type 0
IsPriced OrderType.limit none = ⊥
IsPriced OrderType.limit (some p) = IsPrice p
IsPriced OrderType.market p = Unit
IsPriced OrderType.other p = ⊥

-- An order that Match is called on.
pub record IsTaker (o : Order) : Type 0 where
  pub valid : Lifecycle.IsValid o
  pub traded : IsTraded o.side
  pub priced : IsPriced o.order_type o.price_cents

-- The order's limit accepts the price.
abbrev pub AcceptsLimit : Side → Option Int64 → Int64 → Type 0
AcceptsLimit Side.buy (some p) q = pos_part q ≤ pos_part p
AcceptsLimit Side.sell (some p) q = pos_part p ≤ pos_part q
AcceptsLimit _ _ q = ⊥

abbrev pub Accepts : OrderType → Side → Option Int64 → Int64 → Type 0
Accepts OrderType.limit s p q = AcceptsLimit s p q
Accepts OrderType.market s p q = Unit
Accepts OrderType.other s p q = ⊥

-- The order's limit refuses the price.
abbrev pub RefusesLimit : Side → Option Int64 → Int64 → Type 0
RefusesLimit Side.buy (some p) q = pos_part p < pos_part q
RefusesLimit Side.sell (some p) q = pos_part q < pos_part p
RefusesLimit _ _ q = ⊥

abbrev pub Refuses : OrderType → Side → Option Int64 → Int64 → Type 0
Refuses OrderType.limit s p q = RefusesLimit s p q
Refuses _ s p q = ⊥

-- `price` is the best price of the side that `s` trades against, and `queue` its orders.
pub record IsBest (b : Book) (s : Side) (price : Int64) (queue : List Element) : Type 0 where
  pub held : Holds (levels b (level_side s)) price queue
  pub first :
      (q : Int64) (es : List Element)
      → Holds (levels b (level_side s)) q es
      → NotAfter (hi (level_side s)) (lo (level_side s)) price q

-- What holds at the start of each round.
pub record IsReady (s : Matching) : Type 0 where
  pub book : Invariant.IsValid s.book
  pub taker : IsTaker s.incoming
  pub fresh : lookup s.incoming.id s.book.locations ≡ none
  pub funds : IsFunds (limiting_funds s.incoming s.funds)

-- Why the loop ends: nothing is left of the order, nothing rests against it, its limit refuses the
-- best price, or its funds do not pay for one unit at the best price.
abbrev pub IsStopped : Matching → Type 0
IsStopped s =
    (left s.incoming ≡ 0)
    ⊎ (levels s.book (level_side s.incoming.side) ≡ [])
    ⊎ (price : Int64) × (queue : List Element) × IsBest s.book s.incoming.side price queue
      × (Refuses s.incoming.order_type s.incoming.side s.incoming.price_cents price
          ⊎ CannotAfford (limiting_funds s.incoming s.funds) price)

-- The funds `f'` are `f` less the cost.
abbrev pub AreLess : Option Int64 → Option Int64 → ℕ → Type 0
AreLess (some f) (some f') cost = pos_part f' + cost ≡ pos_part f
AreLess none none cost = Unit
AreLess _ _ cost = ⊥

-- One trade: with the first order of the best queue, at the price of that queue, which the limit
-- accepts and the funds pay for.
pub record Executes (s s' : Matching) : Type 0 where
  pub price : Int64
  pub maker : Element
  pub others : List Element
  pub units : ℕ
  pub best : IsBest s.book s.incoming.side price (maker ∷ others)
  pub rests : Rests (level_side s.incoming.side) price maker.order
  pub accepted : Accepts s.incoming.order_type s.incoming.side s.incoming.price_cents price
  pub positive : 0 < units
  pub affordable : Affords (limiting_funds s.incoming s.funds) units price
  pub taker : Filled s.incoming units s'.incoming
  pub trades : s'.trades ≡ s.trades ++ make_trade s.incoming maker.order price (pos units) ∷ []
  pub new_maker : Order
  pub filled : Filled maker.order units new_maker
  pub touched : s'.touched_makers ≡ s.touched_makers ++ new_maker ∷ []
  pub paid :
      AreLess
        (limiting_funds s.incoming s.funds)
        (limiting_funds s'.incoming s'.funds)
        (units * pos_part price)
  pub gone :
      (j : Uuid)
      → (lookup j s'.book.locations ≡ none)
        ⊎ (lookup j s'.book.locations ≡ lookup j s.book.locations)
