-- ===== src/Book/Filling.antt =====
-- internal/domain/matching/book.go: a write to the order at the front of a queue.
use order_book_vibranium.Base.{ℕ, ◌≡◌, sym, ap, ◌∙◌, inl, inr, List, ◌∷◌, Bool-cases}
use order_book_vibranium.Base.Int64
use order_book_vibranium.Base.Int64.{Int64, eq_iff}
use order_book_vibranium.Order.{Order, Side, Uuid}
use order_book_vibranium.Level.{Element, Level, set_front}
use order_book_vibranium.LevelHeap.{LevelHeap, update_level}
use order_book_vibranium.LevelHeap.Content.{Holds}
use order_book_vibranium.LevelHeap.Update.{
  update_level-IsHeap, update_level-IsIndexed, Holds-update_level, update_level-Holds, Holds-unique,
}
use order_book_vibranium.Book.{Book, Location, heap_and_index, set_heap_and_index, write_level}
use order_book_vibranium.Book.Invariant.{
  front, behind, Rests, IsSide, FoundIn, IsValid, IsTraded, levels, hi, lo,
}
use order_book_vibranium.Book.Queues.{IsQueue-set_front, In-cons}
use order_book_vibranium.Book.Removal.{ref_of}

-- The front `d` of the queue `d ∷ es` at price `p` becomes `o`, an order of the same id.
module _ (locs : List (Uuid × Location)) (next : ℕ) (s : Side) (h : LevelHeap) (idx : List Int64)
    (v : IsSide locs next s h idx) (p : Int64) (d : Element) (es : List Element)
    (held : Holds h.levels p (d ∷ es)) (o : Order) (same_id : o.id ≡ d.order.id)
    (rests : Rests s p o) where
  abbrev filled_levels : List Level
  filled_levels = update_level p (set_front o) h.levels

  filled-IsSide : IsSide locs next s (record h { levels = filled_levels }) idx
  filled-IsSide = record {
    order = v.order;
    heap = update_level-IsHeap p (set_front o) (hi s) (lo s) h.levels v.heap;
    indexed = update_level-IsIndexed p (set_front o) h.levels v.indexed;
    queues = λ q gs y.
        let (fs, there, same) = update_level-Holds p (set_front o) h.levels q gs y in
        (
          elim (Bool-cases (Int64.eq q p)) [
            | inl e ↦
                let q_is_p = (eq_iff q p).0 e in
                let fs_is : fs ≡ d ∷ es = Holds-unique v.indexed (rw q_is_p at there) held in
                let gs_is : gs ≡ set_front o (d ∷ es) = same ∙ rw e (ap (set_front o) fs_is) in
                rw (gs_is, q_is_p)
                  (IsQueue-set_front locs next s p d o es same_id rests
                    (v.queues p (d ∷ es) held).0)
            | inr e ↦ let gs_is : gs ≡ fs = same ∙ rw e in rw gs_is (v.queues q fs there).0
          ],
          (v.queues q fs there).1,
        );
    listed = λ q y.
        let (fs, there) = v.listed q y in
        (_, Holds-update_level p (set_front o) h.levels q fs there);
  }

  filled_found :
      (id : Uuid) (loc : Location) → FoundIn h.levels id loc → FoundIn filled_levels id loc
  unfolding set_front
  filled_found id loc f =
      let moved = Holds-update_level p (set_front o) h.levels loc.lvl.price_cents f.queue f.held in
      elim (Bool-cases (Int64.eq loc.lvl.price_cents p)) [
        | inl e ↦
            let there = rw ((eq_iff loc.lvl.price_cents p).0 e) at f.held in
            let same : f.queue ≡ d ∷ es = Holds-unique v.indexed there held in
            let now : Holds filled_levels loc.lvl.price_cents (record d { order = o } ∷ es) =
              rw (e, same) at moved in
            elim (In-cons (rw same at f.inside)) [
              | inl is_front ↦ record {
                queue = record d { order = o } ∷ es;
                held = now;
                element = record d { order = o };
                inside = front;
                at_addr = ap (λ (c : Element). c.addr) (sym is_front) ∙ f.at_addr;
                has_id = same_id ∙ ap (λ (c : Element). c.order.id) (sym is_front) ∙ f.has_id;
              }
              | inr is_behind ↦ record {
                queue = record d { order = o } ∷ es;
                held = now;
                element = f.element;
                inside = behind is_behind;
                at_addr = f.at_addr;
                has_id = f.has_id;
              }
            ]
        | inr e ↦ record {
          queue = f.queue;
          held = rw e at moved;
          element = f.element;
          inside = f.inside;
          at_addr = f.at_addr;
          has_id = f.has_id;
        }
      ]

module _ (b : Book) (v : IsValid b) (p : Int64) (d : Element) (es : List Element) (o : Order)
    (same_id : o.id ≡ d.order.id) where
  module _ (held : Holds b.bids.levels p (d ∷ es)) (rests : Rests Side.buy p o) where
    filled_bids : Book
    filled_bids = write_level (ref_of Side.buy p) (set_front o) b

    bids_found :
        (id : Uuid) (loc : Location) (t : Side)
        → FoundIn (levels b t) id loc
        → FoundIn (levels filled_bids t) id loc
    unfolding filled_bids write_level heap_and_index set_heap_and_index
    bids_found id loc Side.buy f =
        filled_found b.locations b.next_addr Side.buy b.bids b.bids_by_price v.bids p d es held o
          same_id rests id loc f
    bids_found id loc Side.sell f = f
    bids_found id loc Side.other f = f

    filled_bids-IsValid : IsValid filled_bids
    unfolding filled_bids write_level heap_and_index set_heap_and_index
    filled_bids-IsValid = record {
      bids =
          filled-IsSide b.locations b.next_addr Side.buy b.bids b.bids_by_price v.bids p d es held o
            same_id rests;
      asks = v.asks;
      located = λ id loc e.
          let old = v.located id loc e in
          record {
            traded = old.traded;
            same_side = old.same_side;
            there = bids_found id loc loc.side old.there;
          };
    }

  module _ (held : Holds b.asks.levels p (d ∷ es)) (rests : Rests Side.sell p o) where
    filled_asks : Book
    filled_asks = write_level (ref_of Side.sell p) (set_front o) b

    asks_found :
        (id : Uuid) (loc : Location) (t : Side)
        → FoundIn (levels b t) id loc
        → FoundIn (levels filled_asks t) id loc
    unfolding filled_asks write_level heap_and_index set_heap_and_index
    asks_found id loc Side.buy f = f
    asks_found id loc Side.sell f =
        filled_found b.locations b.next_addr Side.sell b.asks b.asks_by_price v.asks p d es held o
          same_id rests id loc f
    asks_found id loc Side.other f =
        filled_found b.locations b.next_addr Side.sell b.asks b.asks_by_price v.asks p d es held o
          same_id rests id loc f

    filled_asks-IsValid : IsValid filled_asks
    unfolding filled_asks write_level heap_and_index set_heap_and_index
    filled_asks-IsValid = record {
      asks =
          filled-IsSide b.locations b.next_addr Side.sell b.asks b.asks_by_price v.asks p d es held
            o same_id rests;
      bids = v.bids;
      located = λ id loc e.
          let old = v.located id loc e in
          record {
            traded = old.traded;
            same_side = old.same_side;
            there = asks_found id loc loc.side old.there;
          };
    }

-- A fill in part of the order at the front of a queue leaves a consistent book.
pub write_level-IsValid :
    (b : Book) (s : Side)
    → IsTraded s
    → IsValid b
    → (p : Int64) (d : Element) (es : List Element) (o : Order) → Holds (levels b s) p (d ∷ es)
    → o.id ≡ d.order.id
    → Rests s p o
    → IsValid (write_level (ref_of s p) (set_front o) b)
unfolding filled_bids filled_asks
write_level-IsValid b Side.buy t v p d es o held same rests =
    filled_bids-IsValid b v p d es o same held rests
write_level-IsValid b Side.sell t v p d es o held same rests =
    filled_asks-IsValid b v p d es o same held rests
write_level-IsValid b Side.other t v p d es o held same rests = elim t [ ]
