-- ===== src/Book.antt =====
-- internal/domain/matching/book.go: the order book, and the operations that change it.
--
-- A `*level` is a reference of side and price. The maps from prices to levels are the lists of
-- their keys, since the level of a key is found in the heap. `next_addr` is the address that the
-- next element of a `list.List` gets.
pub mod Invariant
pub mod Start
pub mod Queues
pub mod Adding
pub mod Resting
pub mod Leaving
pub mod Removal
pub mod LeavingBids
pub mod LeavingAsks
pub mod Pruning
pub mod Cancelling
pub mod Filling
use order_book_vibranium.Base.{
  ℕ, suc, Bool, true, false, not, ◌||◌, Option, none, some, List, [], ◌∷◌, ◌++◌, ◌==◌,
  if◌then◌else◌,
}
use order_book_vibranium.Base.Int64
use order_book_vibranium.Base.Int64.{Int64, pos}
use order_book_vibranium.Base.Run.{Run, done, panic, out_of_fuel}
use order_book_vibranium.Base.Assoc.{lookup, insert, erase}
use order_book_vibranium.Order.{Order, Side, Uuid, is_buy}
use order_book_vibranium.Level.{Element, Level, remove_element}
use order_book_vibranium.LevelHeap.{LevelHeap, Less, push, remove, peek, update_level, find_level}

-- A `*level`.
pub record LevelRef : Type 0 where
  pub side : Side
  pub price_cents : Int64

-- orderLocation; `addr` is the element.
pub record Location : Type 0 where
  pub side : Side
  pub lvl : LevelRef
  pub addr : ℕ

pub record Book : Type 0 where
  pub bids : LevelHeap
  pub asks : LevelHeap
  pub bids_by_price : List Int64
  pub asks_by_price : List Int64
  pub locations : List (Uuid × Location)
  pub next_addr : ℕ

-- The order of the heap of a side: best price first.
unfoldable pub less_of : Side → Less
less_of Side.buy a b = Int64.lt b a
less_of _ a b = Int64.lt a b

unfoldable pub new_book : Book
new_book = record {
  bids = record { levels = []; less = less_of Side.buy };
  asks = record { levels = []; less = less_of Side.sell };
  bids_by_price = [];
  asks_by_price = [];
  locations = [];
  next_addr = 0;
}

unfoldable pub heap_and_index : Book → Side → LevelHeap × List Int64
heap_and_index b Side.buy = (b.bids, b.bids_by_price)
heap_and_index b _ = (b.asks, b.asks_by_price)

-- A write through what heapAndIndex returns.
unfoldable pub set_heap_and_index : Book → Side → List Level → List Int64 → Book
set_heap_and_index b Side.buy h idx = record b {
  bids = record b.bids { levels = h };
  bids_by_price = idx;
}
set_heap_and_index b _ h idx = record b { asks = record b.asks { levels = h }; asks_by_price = idx }

unfoldable pub best_opposite : Side → Book → Option Level
best_opposite Side.buy b = peek b.asks.levels
best_opposite _ b = peek b.bids.levels

-- `_, ok := idx[price]`
unfoldable pub contains : Int64 → List Int64 → Bool
contains p [] = false
contains p (q ∷ qs) = Int64.eq q p || contains p qs

-- `delete(idx, price)`
unfoldable pub delete : Int64 → List Int64 → List Int64
delete p [] = []
delete p (q ∷ qs) = if Int64.eq q p then delete p qs else q ∷ delete p qs

-- AddResting once the side and the price are read.
unfoldable pub add_to_side : Side → Int64 → Order → Book → Book
add_to_side s price o b =
    let (h, idx) = heap_and_index b s in
    let known = contains price idx in
    let lvl : Level = record { price_cents = price; orders = []; index = 0 } in
    let h1 = if known then h.levels else push h.less h.levels lvl in
    let idx1 = if known then idx else price ∷ idx in
    let elem : Element = record { addr = b.next_addr; order = o } in
    let h2 = update_level price (λ es. es ++ elem ∷ []) h1 in
    let ref : LevelRef = record { side = s; price_cents = price } in
    let loc : Location = record { side = s; lvl = ref; addr = b.next_addr } in
    record (set_heap_and_index b s h2 idx1) {
      locations = insert o.id loc b.locations;
      next_addr = suc b.next_addr;
    }

-- AddResting panics on an order without a price.
unfoldable pub add_resting : Order → Book → Run Book
add_resting o b = elim o.price_cents [
  | none ↦ panic
  | some price ↦ done (add_to_side o.side price o b)
]

-- A write to the orders of a level.
unfoldable pub write_level : LevelRef → (List Element → List Element) → Book → Book
write_level ref f b =
    let (h, idx) = heap_and_index b ref.side in
    set_heap_and_index b ref.side (update_level ref.price_cents f h.levels) idx

-- The last step of removeFront, on the level `lvl` as it is now: an empty level is pruned.
unfoldable pub prune : Side → Level → Book → Book
prune side lvl b =
    let (h, idx) = heap_and_index b side in
    elim lvl.orders [
      | [] ↦
          set_heap_and_index b side (remove h.less h.levels lvl.index) (delete lvl.price_cents idx)
      | _ ↦ b
    ]

-- The end of removeFront, which reads the level once more.
unfoldable pub prune_at : Side → LevelRef → Book → Book
prune_at side ref b = elim (find_level ref.price_cents (heap_and_index b ref.side).0.levels) [
  | none ↦ b
  | some lvl ↦ prune side lvl b
]

unfoldable pub remove_front : Order → Side → LevelRef → Book → Book
remove_front o side ref b = elim (lookup o.id b.locations) [
  | none ↦ b
  | some loc ↦
      let b1 = write_level ref (remove_element loc.addr) b in
      prune_at side ref (record b1 { locations = erase o.id b1.locations })
]

-- `elem.Value`
unfoldable pub find_element : ℕ → List Element → Option Order
find_element a [] = none
find_element a (e ∷ es) = if e.addr == a then some e.order else find_element a es

-- The order that a location points to.
unfoldable pub located_order : Location → Book → Option Order
located_order loc b =
    elim (find_level loc.lvl.price_cents (heap_and_index b loc.lvl.side).0.levels) [
      | none ↦ none
      | some lvl ↦ find_element loc.addr lvl.orders
    ]

-- The order that was removed, if it was resting, and the book after the call.
unfoldable pub cancel : Uuid → Book → Option Order × Book
cancel id b = elim (lookup id b.locations) [
  | none ↦ (none, b)
  | some loc ↦ elim (located_order loc b) [
    | none ↦ (none, b)
    | some o ↦ (some o, remove_front o loc.side loc.lvl b)
  ]
]
