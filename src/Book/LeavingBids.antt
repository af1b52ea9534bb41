-- ===== src/Book/LeavingBids.antt =====
-- internal/domain/matching/book.go: an element that leaves the bids.
use order_book_vibranium.Base.{ℕ, ◌≡◌, ◌≢◌, refl, sym, ◌∙◌, inl, inr, some, List, [], List-cases}
use order_book_vibranium.Base.Int64.{Int64}
use order_book_vibranium.Base.Assoc.{lookup, erase}
use order_book_vibranium.Order.{Side, Uuid}
use order_book_vibranium.Level.{Element, Level, remove_element}
use order_book_vibranium.LevelHeap.{update_level, remove}
use order_book_vibranium.LevelHeap.Content.{Holds}
use order_book_vibranium.LevelHeap.Update.{Finds}
use order_book_vibranium.Book.{
  Book, Location, heap_and_index, set_heap_and_index, delete, prune, prune_at,
}
use order_book_vibranium.Book.Invariant.{In, IsSide, FoundIn, IsValid, levels, location}
use order_book_vibranium.Book.Leaving.{
  left-IsSide, left_found, left_level, pruned-IsSide, pruned_found,
}
use order_book_vibranium.Book.Removal.{without, ref_of, beside, look, ne_nil}

-- An element that leaves the bids.
module _ (b : Book) (v : IsValid b) (p : Int64) (es : List Element)
    (held : Holds b.bids.levels p es) (x : Element) (inside : In x es) (a : ℕ) (at_a : x.addr ≡ a)
    (F : List Element → List Element) (F_removes : F es ≡ remove_element a es) where
  abbrev without_bid : Book
  without_bid = without Side.buy p F x.order.id b

  bid_entry : lookup x.order.id b.locations ≡ some (location Side.buy p a)
  bid_entry = rw at_a at ((v.bids.queues p es held).0.placed x inside).located

  bid_beside : IsSide (erase x.order.id b.locations) b.next_addr Side.sell b.asks b.asks_by_price
  bid_beside =
      beside b.locations b.next_addr Side.buy Side.sell p a x.order.id b.asks b.asks_by_price
        (λ e. cc) bid_entry v.asks

  bid_left_found :
      (j : Uuid) (loc : Location) (t : Side)
      → x.order.id ≢ j
      → FoundIn (levels b t) j loc
      → FoundIn (levels without_bid t) j loc
  bid_left_found j loc Side.buy ne f =
      left_found b.locations b.next_addr Side.buy b.bids b.bids_by_price v.bids p es held x inside a
        at_a F F_removes j loc ne f
  bid_left_found j loc Side.sell ne f = f
  bid_left_found j loc Side.other ne f = f

  bid_left : F es ≢ [] → IsValid without_bid
  bid_left some_left = record {
    bids =
        left-IsSide b.locations b.next_addr Side.buy b.bids b.bids_by_price v.bids p es held x
          inside a at_a F F_removes some_left;
    asks = bid_beside;
    located = look b without_bid x.order.id v refl bid_left_found;
  }

  module _ (lvl : Level) (finds : Finds (update_level p F b.bids.levels) p (F es) lvl)
      (empty : F es ≡ []) where
    abbrev cut_bid : Book
    cut_bid = record without_bid {
      bids = record b.bids {
        levels = remove b.bids.less (update_level p F b.bids.levels) lvl.index;
      };
      bids_by_price = delete lvl.price_cents b.bids_by_price;
    }

    bid_cut_found :
        (j : Uuid) (loc : Location) (t : Side)
        → x.order.id ≢ j
        → FoundIn (levels b t) j loc
        → FoundIn (levels cut_bid t) j loc
    bid_cut_found j loc Side.buy ne f =
        pruned_found b.locations b.next_addr Side.buy b.bids b.bids_by_price v.bids p es held x
          inside a at_a F F_removes lvl finds empty j loc ne f
    bid_cut_found j loc Side.sell ne f = f
    bid_cut_found j loc Side.other ne f = f

    bid_cut : IsValid cut_bid
    bid_cut = record {
      bids =
          pruned-IsSide b.locations b.next_addr Side.buy b.bids b.bids_by_price v.bids p es held x
            inside a at_a F F_removes lvl finds empty;
      asks = bid_beside;
      located = look b cut_bid x.order.id v refl bid_cut_found;
    }

  pub bid_pruned : IsValid (prune_at Side.buy (ref_of Side.buy p) without_bid)
  unfolding prune_at prune heap_and_index set_heap_and_index
  bid_pruned =
      let (lvl, finds) =
        left_level b.locations b.next_addr Side.buy b.bids b.bids_by_price v.bids p es held x inside
          a at_a F F_removes in
      elim (List-cases (F es)) [
        | inl empty ↦
            rw (finds.found, prune_at) (rw (finds.queue ∙ empty, prune) (bid_cut lvl finds empty))
        | inr (y, r, some_left) ↦
            rw (finds.found, prune_at)
              (rw (finds.queue ∙ some_left, prune) (bid_left (λ z. ne_nil y r (sym some_left ∙ z))))
      ]
