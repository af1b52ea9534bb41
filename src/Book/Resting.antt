-- ===== src/Book/Resting.antt =====
-- internal/domain/matching/book.go: AddResting, on the whole book.
use order_book_vibranium.Base.{
  suc, ◌≡◌, refl, sym, ◌∙◌, inl, inr, none, some, List, arith, ◌==◌, Bool-cases, some_eq_some,
  ==_iff, if◌then◌else◌,
}
use order_book_vibranium.Base.Int64.{Int64}
use order_book_vibranium.Base.Run.{done}
use order_book_vibranium.Base.Assoc.{lookup, insert, lookup-insert}
use order_book_vibranium.Order.{Order, Side, Uuid}
use order_book_vibranium.LevelHeap.{LevelHeap}
use order_book_vibranium.Book.{
  Book, Location, add_to_side, add_resting, heap_and_index, set_heap_and_index,
}
use order_book_vibranium.Book.Invariant.{
  IsPrice, Rests, IsSide, FoundIn, levels, IsFound, IsValid, IsTraded, location,
}
use order_book_vibranium.Book.Queues.{IsQueue-insert}
use order_book_vibranium.Book.Adding.{joined-IsSide, joined_found, new_found}

module _ (b : Book) (v : IsValid b) (price : Int64) (o : Order)
    (fresh : lookup o.id b.locations ≡ none) (is_price : IsPrice price) where
  -- The other side, which only sees the new entry of the locations.
  beside :
      (t : Side) (h : LevelHeap) (idx : List Int64) (loc : Location)
      → IsSide b.locations b.next_addr t h idx
      → IsSide (insert o.id loc b.locations) (suc b.next_addr) t h idx
  beside t h idx loc w = record {
    order = w.order;
    heap = w.heap;
    indexed = w.indexed;
    queues = λ q es x.
        let (queue, there) = w.queues q es x in
        (IsQueue-insert b.locations b.next_addr t q o.id loc fresh queue, there);
    listed = w.listed;
  }

  -- The location of an id in the new book.
  look :
      (b' : Book) (here : Location) (id : Uuid) (loc : Location)
      → ((t : Side) → FoundIn (levels b t) id loc → FoundIn (levels b' t) id loc)
      → IsFound b' o.id here
      → lookup id (insert o.id here b.locations) ≡ some loc
      → IsFound b' id loc
  look b' here id loc keep new e = elim (Bool-cases (o.id == id)) [
    | inl same ↦
        let same_id = (==_iff o.id id).0 same in
        let same_loc : here ≡ loc =
          some_eq_some (sym (lookup-insert o.id id here b.locations ∙ rw same) ∙ e) in
        rw (← same_id, ← same_loc) new
    | inr other ↦
        let old = v.located id loc (sym (lookup-insert o.id id here b.locations ∙ rw other) ∙ e) in
        record { traded = old.traded; same_side = old.same_side; there = keep loc.side old.there }
  ]

  -- An order of a BUY that can rest joins the bids.
  module _ (rests : Rests Side.buy price o) where
    keep_bids :
        (id : Uuid) (loc : Location) (t : Side)
        → FoundIn (levels b t) id loc
        → FoundIn (levels (add_to_side Side.buy price o b) t) id loc
    unfolding add_to_side heap_and_index set_heap_and_index
    keep_bids id loc Side.buy f =
        joined_found b.locations b.next_addr Side.buy b.bids b.bids_by_price v.bids price o fresh
          is_price rests id loc f
    keep_bids id loc Side.sell f = f
    keep_bids id loc Side.other f = f

    add_to_bids : IsValid (add_to_side Side.buy price o b)
    unfolding add_to_side heap_and_index set_heap_and_index
    add_to_bids = record {
      bids =
          joined-IsSide b.locations b.next_addr Side.buy b.bids b.bids_by_price v.bids price o fresh
            is_price rests;
      asks = beside Side.sell b.asks b.asks_by_price (location Side.buy price b.next_addr) v.asks;
      located = λ id loc e.
          look (add_to_side Side.buy price o b) (location Side.buy price b.next_addr) id loc
            (keep_bids id loc)
            (record {
              traded = tt;
              same_side = refl;
              there =
                  new_found b.locations b.next_addr Side.buy b.bids b.bids_by_price v.bids price o
                    fresh is_price rests;
            })
            e;
    }

  -- An order of a SELL that can rest joins the asks.
  module _ (rests : Rests Side.sell price o) where
    keep_asks :
        (id : Uuid) (loc : Location) (t : Side)
        → FoundIn (levels b t) id loc
        → FoundIn (levels (add_to_side Side.sell price o b) t) id loc
    unfolding add_to_side heap_and_index set_heap_and_index
    keep_asks id loc Side.buy f = f
    keep_asks id loc Side.sell f =
        joined_found b.locations b.next_addr Side.sell b.asks b.asks_by_price v.asks price o fresh
          is_price rests id loc f
    keep_asks id loc Side.other f =
        joined_found b.locations b.next_addr Side.sell b.asks b.asks_by_price v.asks price o fresh
          is_price rests id loc f

    add_to_asks : IsValid (add_to_side Side.sell price o b)
    unfolding add_to_side heap_and_index set_heap_and_index
    add_to_asks = record {
      asks =
          joined-IsSide b.locations b.next_addr Side.sell b.asks b.asks_by_price v.asks price o
            fresh is_price rests;
      bids = beside Side.buy b.bids b.bids_by_price (location Side.sell price b.next_addr) v.bids;
      located = λ id loc e.
          look (add_to_side Side.sell price o b) (location Side.sell price b.next_addr) id loc
            (keep_asks id loc)
            (record {
              traded = tt;
              same_side = refl;
              there =
                  new_found b.locations b.next_addr Side.sell b.asks b.asks_by_price v.asks price o
                    fresh is_price rests;
            })
            e;
    }

  pub add_to_side-IsValid :
      (s : Side) → IsTraded s → Rests s price o → IsValid (add_to_side s price o b)
  add_to_side-IsValid Side.buy t rests = add_to_bids rests
  add_to_side-IsValid Side.sell t rests = add_to_asks rests
  add_to_side-IsValid Side.other t rests = elim t [ ]

  -- On a consistent book that does not know the order's id, AddResting of an order that can rest
  -- returns, the book stays consistent, and the order is located at its side and price.
  pub add_resting-IsValid :
      (s : Side)
      → IsTraded s
      → Rests s price o
      → (b' : Book) × (add_resting o b ≡ done b')
        × IsValid b'
        × (lookup o.id b'.locations ≡ some (location s price b.next_addr))
  unfolding add_resting
  add_resting-IsValid s t rests = (
    add_to_side s price o b,
    rw (rests.price, rests.side),
    add_to_side-IsValid s t rests,
    unfold add_to_side in
        ground (arith, lookup-insert o.id o.id (location s price b.next_addr) b.locations),
  )

-- Where AddResting leaves an id.
pub locations-add_resting :
    (o : Order) (price : Int64) (b b' : Book) (id : Uuid)
    → o.price_cents ≡ some price
    → add_resting o b ≡ done b'
    → lookup id b'.locations
      ≡ (if o.id == id then some (location o.side price b.next_addr) else lookup id b.locations)
unfolding add_resting add_to_side
locations-add_resting o price b b' id priced e =
    ground (arith, priced, lookup-insert o.id id (location o.side price b.next_addr) b.locations)
