-- ===== src/Book/Invariant.antt =====
-- internal/domain/matching/book.go: when a book is consistent.
use order_book_vibranium.Base.{ℕ, ◌<◌, ◌≡◌, ◌≢◌, refl, true, some, List, [], ◌∷◌, arith, length}
use order_book_vibranium.Base.Int64.{Int64, pos_part, neg_part, IsNat, half_range}
use order_book_vibranium.Base.Assoc.{lookup}
use order_book_vibranium.Order.{Order, Side, OrderType, Uuid}
use order_book_vibranium.Order.Lifecycle
use order_book_vibranium.Order.Lifecycle.{left}
use order_book_vibranium.Level.{Element, Level}
use order_book_vibranium.LevelHeap.{LevelHeap}
use order_book_vibranium.LevelHeap.Ordered.{RanksBy, IsHeap}
use order_book_vibranium.LevelHeap.Content.{Holds, IsIndexed}
use order_book_vibranium.Book.{Book, Location, less_of, heap_and_index, contains}

-- The element is in the queue.
pub data In (e : Element) : List Element → Type 0 where
  front : {es : List Element} → In e (e ∷ es)
  behind : {d : Element} {es : List Element} → In e es → In e (d ∷ es)

-- The order of prices of a side, by the parts of an int64.
abbrev pub hi : Side → Int64 → ℕ
hi Side.buy p = neg_part p
hi _ p = pos_part p

abbrev pub lo : Side → Int64 → ℕ
lo Side.buy p = pos_part p
lo _ p = neg_part p

pub less_of-RanksBy : (s : Side) → RanksBy (less_of s) (hi s) (lo s)
unfolding less_of
less_of-RanksBy Side.buy p q = ground arith
less_of-RanksBy Side.sell p q = refl
less_of-RanksBy Side.other p q = refl

abbrev pub IsTraded : Side → Type 0
IsTraded Side.buy = Unit
IsTraded Side.sell = Unit
IsTraded Side.other = ⊥

-- A price that orders can have.
abbrev pub IsPrice : Int64 → Type 0
IsPrice p = IsNat p × (0 < pos_part p) × (pos_part p < half_range)

-- The order can rest on side `s` at price `p`: a valid LIMIT order of that price, with something
-- left to fill.
pub record Rests (s : Side) (p : Int64) (o : Order) : Type 0 where
  pub valid : Lifecycle.IsValid o
  pub some_left : 0 < left o
  pub side : o.side ≡ s
  pub order_type : o.order_type ≡ OrderType.limit
  pub price : o.price_cents ≡ some p

abbrev pub location : Side → Int64 → ℕ → Location
location s p a = record { side = s; lvl = record { side = s; price_cents = p }; addr = a }

-- An element of the queue at price `p` of side `s`.
pub record IsPlaced (locations : List (Uuid × Location)) (next : ℕ) (s : Side) (p : Int64)
    (e : Element) : Type 0 where
  pub rests : Rests s p e.order
  pub located : lookup e.order.id locations ≡ some (location s p e.addr)
  pub allocated : e.addr < next

-- The queue at price `p` of side `s`: never empty, and no address stands for two orders in it.
pub record IsQueue (locations : List (Uuid × Location)) (next : ℕ) (s : Side) (p : Int64)
    (es : List Element) : Type 0 where
  pub price : IsPrice p
  pub filled : es ≢ []
  pub placed : (e : Element) → In e es → IsPlaced locations next s p e
  pub apart : (d e : Element) → In d es → In e es → d.addr ≡ e.addr → d.order.id ≡ e.order.id

-- One side of the book.
pub record IsSide (locations : List (Uuid × Location)) (next : ℕ) (s : Side) (h : LevelHeap)
    (idx : List Int64) : Type 0 where
  pub order : h.less ≡ less_of s
  pub heap : IsHeap (hi s) (lo s) (length h.levels) h.levels
  pub indexed : IsIndexed h.levels
  pub queues :
      (p : Int64) (es : List Element)
      → Holds h.levels p es
      → IsQueue locations next s p es × (contains p idx ≡ true)
  pub listed : (p : Int64) → contains p idx ≡ true → (es : List Element) × Holds h.levels p es

-- Where a location points in a side, there is an order with the id.
pub record FoundIn (h : List Level) (id : Uuid) (loc : Location) : Type 0 where
  pub queue : List Element
  pub held : Holds h loc.lvl.price_cents queue
  pub element : Element
  pub inside : In element queue
  pub at_addr : element.addr ≡ loc.addr
  pub has_id : element.order.id ≡ id

-- The levels of a side of the book.
abbrev pub levels : Book → Side → List Level
levels b Side.buy = b.bids.levels
levels b Side.sell = b.asks.levels
levels b Side.other = b.asks.levels

pub record IsFound (b : Book) (id : Uuid) (loc : Location) : Type 0 where
  pub traded : IsTraded loc.side
  pub same_side : loc.lvl.side ≡ loc.side
  pub there : FoundIn (levels b loc.side) id loc

-- Both sides are consistent, and every location points to the order of its id.
pub record IsValid (b : Book) : Type 0 where
  pub bids : IsSide b.locations b.next_addr Side.buy b.bids b.bids_by_price
  pub asks : IsSide b.locations b.next_addr Side.sell b.asks b.asks_by_price
  pub located : (id : Uuid) (loc : Location) → lookup id b.locations ≡ some loc → IsFound b id loc

-- The invariant at a side that orders have.
pub levels-heap_and_index : (b : Book) (s : Side) → (heap_and_index b s).0.levels ≡ levels b s
unfolding heap_and_index
levels-heap_and_index b Side.buy = refl
levels-heap_and_index b Side.sell = refl
levels-heap_and_index b Side.other = refl

module _ (b : Book) (v : IsValid b) where
  pub queue_of :
      (s : Side) (p : Int64) (es : List Element)
      → IsTraded s
      → Holds (levels b s) p es
      → IsQueue b.locations b.next_addr s p es
  queue_of Side.buy p es t x = (v.bids.queues p es x).0
  queue_of Side.sell p es t x = (v.asks.queues p es x).0
  queue_of Side.other p es t x = elim t [ ]

  pub IsIndexed-levels : (s : Side) → IsTraded s → IsIndexed (levels b s)
  IsIndexed-levels Side.buy t = v.bids.indexed
  IsIndexed-levels Side.sell t = v.asks.indexed
  IsIndexed-levels Side.other t = elim t [ ]

  pub IsHeap-levels :
      (s : Side) → IsTraded s → IsHeap (hi s) (lo s) (length (levels b s)) (levels b s)
  IsHeap-levels Side.buy t = v.bids.heap
  IsHeap-levels Side.sell t = v.asks.heap
  IsHeap-levels Side.other t = elim t [ ]
