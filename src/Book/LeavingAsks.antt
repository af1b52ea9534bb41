-- ===== src/Book/LeavingAsks.antt =====
-- internal/domain/matching/book.go: an element that leaves the asks.
use order_book_vibranium.Base.{ℕ, ◌≡◌, ◌≢◌, refl, sym, ◌∙◌, inl, inr, some, List, [], List-cases}
use order_book_vibranium.Base.Int64.{Int64}
use order_book_vibranium.Base.Assoc.{lookup, erase}
use order_book_vibranium.Order.{Side, Uuid}
use order_book_vibranium.Level.{Element, Level, remove_element}
use order_book_vibranium.LevelHeap.{update_level, remove}
use order_book_vibranium.LevelHeap.Content.{Holds}
use order_book_vibranium.LevelHeap.Update.{Finds}
use order_book_vibranium.Book.{
  Book, Location, heap_and_index, set_heap_and_index, delete, prune, prune_at,
}
use order_book_vibranium.Book.Invariant.{In, IsSide, FoundIn, IsValid, levels, location}
use order_book_vibranium.Book.Leaving.{
  left-IsSide, left_found, left_level, pruned-IsSide, pruned_found,
}
use order_book_vibranium.Book.Removal.{without, ref_of, beside, look, ne_nil}

-- An element that leaves the asks.
module _ (b : Book) (v : IsValid b) (p : Int64) (es : List Element)
    (held : Holds b.asks.levels p es) (x : Element) (inside : In x es) (a : ℕ) (at_a : x.addr ≡ a)
    (F : List Element → List Element) (F_removes : F es ≡ remove_element a es) where
  abbrev without_ask : Book
  without_ask = without Side.sell p F x.order.id b

  ask_entry : lookup x.order.id b.locations ≡ some (location Side.sell p a)
  ask_entry = rw at_a at ((v.asks.queues p es held).0.placed x inside).located

  ask_beside : IsSide (erase x.order.id b.locations) b.next_addr Side.buy b.bids b.bids_by_price
  ask_beside =
      beside b.locations b.next_addr Side.sell Side.buy p a x.order.id b.bids b.bids_by_price
        (λ e. cc) ask_entry v.bids

  ask_left_found :
      (j : Uuid) (loc : Location) (t : Side)
      → x.order.id ≢ j
      → FoundIn (levels b t) j loc
      → FoundIn (levels without_ask t) j loc
  ask_left_found j loc Side.sell ne f =
      left_found b.locations b.next_addr Side.sell b.asks b.asks_by_price v.asks p es held x inside
        a at_a F F_removes j loc ne f
  ask_left_found j loc Side.buy ne f = f
  ask_left_found j loc Side.other ne f =
      left_found b.locations b.next_addr Side.sell b.asks b.asks_by_price v.asks p es held x inside
        a at_a F F_removes j loc ne f

  ask_left : F es ≢ [] → IsValid without_ask
  ask_left some_left = record {
    asks =
        left-IsSide b.locations b.next_addr Side.sell b.asks b.asks_by_price v.asks p es held x
          inside a at_a F F_removes some_left;
    bids = ask_beside;
    located = look b without_ask x.order.id v refl ask_left_found;
  }

  module _ (lvl : Level) (finds : Finds (update_level p F b.asks.levels) p (F es) lvl)
      (empty : F es ≡ []) where
    abbrev cut_ask : Book
    cut_ask = record without_ask {
      asks = record b.asks {
        levels = remove b.asks.less (update_level p F b.asks.levels) lvl.index;
      };
      asks_by_price = delete lvl.price_cents b.asks_by_price;
    }

    ask_cut_found :
        (j : Uuid) (loc : Location) (t : Side)
        → x.order.id ≢ j
        → FoundIn (levels b t) j loc
        → FoundIn (levels cut_ask t) j loc
    ask_cut_found j loc Side.sell ne f =
        pruned_found b.locations b.next_addr Side.sell b.asks b.asks_by_price v.asks p es held x
          inside a at_a F F_removes lvl finds empty j loc ne f
    ask_cut_found j loc Side.buy ne f = f
    ask_cut_found j loc Side.other ne f =
        pruned_found b.locations b.next_addr Side.sell b.asks b.asks_by_price v.asks p es held x
          inside a at_a F F_removes lvl finds empty j loc ne f

    ask_cut : IsValid cut_ask
    ask_cut = record {
      asks =
          pruned-IsSide b.locations b.next_addr Side.sell b.asks b.asks_by_price v.asks p es held x
            inside a at_a F F_removes lvl finds empty;
      bids = ask_beside;
      located = look b cut_ask x.order.id v refl ask_cut_found;
    }

  pub ask_pruned : IsValid (prune_at Side.sell (ref_of Side.sell p) without_ask)
  unfolding prune_at prune heap_and_index set_heap_and_index
  ask_pruned =
      let (lvl, finds) =
        left_level b.locations b.next_addr Side.sell b.asks b.asks_by_price v.asks p es held x
          inside a at_a F F_removes in
      elim (List-cases (F es)) [
        | inl empty ↦
            rw (finds.found, prune_at) (rw (finds.queue ∙ empty, prune) (ask_cut lvl finds empty))
        | inr (y, r, some_left) ↦
            rw (finds.found, prune_at)
              (rw (finds.queue ∙ some_left, prune) (ask_left (λ z. ne_nil y r (sym some_left ∙ z))))
      ]
