-- ===== src/Ranking/Joining.antt =====
-- internal/domain/matching/book.go: the sides as sorted lists, when AddResting adds an order.
use order_book_vibranium.Base.{
  ℕ, ◌≡◌, ◌≢◌, refl, sym, ap, ◌∙◌, inl, inr, none, some, List, [], ◌∷◌, ◌++◌, All,
}
use order_book_vibranium.Base.Int64.{Int64, eq_iff}
use order_book_vibranium.Base.Assoc.{lookup}
use order_book_vibranium.Order.{Order, Side, Uuid}
use order_book_vibranium.Level.{Element, Level}
use order_book_vibranium.LevelHeap.{LevelHeap, update_level}
use order_book_vibranium.LevelHeap.Content.{Holds}
use order_book_vibranium.LevelHeap.Update.{Holds-unique}
use order_book_vibranium.Book.{Book, Location, heap_and_index, set_heap_and_index, add_to_side}
use order_book_vibranium.Book.Invariant.{
  IsSide, IsValid, IsTraded, Rests, levels, location, queue_of,
}
use order_book_vibranium.Book.Adding.{opened, opened_levels}
use order_book_vibranium.Book.Leaving.{eq-false}
use order_book_vibranium.Ranking.{price_of, other_side, enqueue}
use order_book_vibranium.Ranking.Sorted.{at_price, at_price-enqueue, enqueue-IsSorted}
use order_book_vibranium.Ranking.Shown.{
  orders, Shows, Shows-moved, Represents, Represents-All, All-orders,
}
use order_book_vibranium.Ranking.Views.{Changes, update_level-Changes, Represents-Changes}

orders-append :
    (es : List Element) (e : Element) → orders (es ++ e ∷ []) ≡ orders es ++ e.order ∷ []
orders-append [] e = refl
orders-append (d ∷ es) e = ap (λ (l : List Order). d.order ∷ l) (orders-append es e)

module _ (locs : List (Uuid × Location)) (next : ℕ) (s : Side) (h : LevelHeap) (idx : List Int64)
    (v : IsSide locs next s h idx) (price : Int64) where
  abbrev old_or_new : List Level
  old_or_new = opened_levels locs next s h idx v price

  -- The queue that the order joins, when its level is there.
  opened_queue :
      (xs : List Order)
      → Shows h.levels price xs
      → (es : List Element) × Holds old_or_new price es × (xs ≡ orders es)
  opened_queue xs shown =
      let o = opened locs next s h idx v price in
      let (es, held) = o.has in
      (
        es,
        held,
        elim shown [
          | inl (fs, there, e) ↦ e ∙ ap orders (Holds-unique o.indexed (o.kept price fs there) held)
          | inr (nowhere, e) ↦ elim (o.only price es held) [
            | inl there ↦ absurd (nowhere es there)
            | inr (_, empty) ↦ e ∙ ap orders (sym empty)
          ]
        ],
      )

  opened_other :
      (q : Int64) (xs : List Order) → q ≢ price → Shows h.levels q xs → Shows old_or_new q xs
  opened_other q xs ne =
      let o = opened locs next s h idx v price in
      Shows-moved h.levels old_or_new q xs (o.kept q)
        (λ es there. elim (o.only q es there) [ inl x ↦ x | inr (same, _) ↦ absurd (ne same) ])

  abbrev joined : Order → List Level
  joined o = update_level price (λ fs. fs ++ record { addr = next; order = o } ∷ []) old_or_new

  joined-Changes :
      (o : Order) (xs : List Order)
      → Shows h.levels price xs
      → Changes h.levels (joined o) price (xs ++ o ∷ [])
  joined-Changes o xs shown =
      let e : Element = record { addr = next; order = o } in
      let (es, held, same) = opened_queue xs shown in
      let c = update_level-Changes old_or_new price (λ fs. fs ++ e ∷ []) es held in
      let longer : xs ++ o ∷ [] ≡ orders (es ++ e ∷ []) =
        ap (λ (l : List Order). l ++ o ∷ []) same ∙ sym (orders-append es e) in
      record {
        here = rw longer c.here;
        there = λ q ys ne x. c.there q ys ne (opened_other q ys ne x);
      }

add_to_side-Changes :
    (b : Book) (s : Side) (p : Int64) (o : Order) (xs : List Order)
    → IsValid b
    → IsTraded s
    → Shows (levels b s) p xs
    → Changes (levels b s) (levels (add_to_side s p o b) s) p (xs ++ o ∷ [])
unfolding add_to_side heap_and_index set_heap_and_index
add_to_side-Changes b Side.buy p o xs v t =
    joined-Changes b.locations b.next_addr Side.buy b.bids b.bids_by_price v.bids p o xs
add_to_side-Changes b Side.sell p o xs v t =
    joined-Changes b.locations b.next_addr Side.sell b.asks b.asks_by_price v.asks p o xs
add_to_side-Changes b Side.other p o xs v t = elim t [ ]

pub levels-add_to_side_other :
    (b : Book) (s : Side) (p : Int64) (o : Order)
    → IsTraded s
    → levels (add_to_side s p o b) (other_side s) ≡ levels b (other_side s)
unfolding add_to_side set_heap_and_index
levels-add_to_side_other b Side.buy p o t = refl
levels-add_to_side_other b Side.sell p o t = refl
levels-add_to_side_other b Side.other p o t = elim t [ ]

-- No order of a side has an id that the book does not know.
pub All-known :
    (b : Book) (s : Side) (id : Uuid) (os : List Order)
    → IsValid b
    → IsTraded s
    → lookup id b.locations ≡ none
    → Represents s (levels b s) os
    → All (λ x. x.id ≢ id) os
All-known b s id os v t fresh r =
    Represents-All (λ x. x.id ≢ id) s (levels b s) os r
      (λ p es held.
        All-orders (λ x. x.id ≢ id) es
          (λ e x same.
            let placed = (queue_of b v s p es t held).placed e x in
            let z : some (location s p e.addr) ≡ none =
              sym placed.located ∙ ap (λ i. lookup i b.locations) same ∙ fresh in
            cc z))

-- An order that can rest joins its side of the book where it is enqueued in the list.
pub add_to_side-Represents :
    (b : Book) (s : Side) (p : Int64) (o : Order) (os : List Order)
    → IsValid b
    → IsTraded s
    → Rests s p o
    → lookup o.id b.locations ≡ none
    → Represents s (levels b s) os
    → Represents s (levels (add_to_side s p o b) s) (enqueue s o os)
add_to_side-Represents b s p o os v t rests fresh r =
    let priced : price_of o ≡ p = rw rests.price refl in
    Represents-Changes s (levels b s) (levels (add_to_side s p o b) s) p (at_price p os ++ o ∷ [])
      os (enqueue s o os) r (add_to_side-Changes b s p o (at_price p os) v t (r.shows p))
      (enqueue-IsSorted s o os r.sorted (All-known b s o.id os v t fresh r))
      (at_price-enqueue s o os p r.sorted ∙ rw ((eq_iff (price_of o) p).1 priced))
      (λ q ne.
        at_price-enqueue s o os q r.sorted
        ∙ rw (eq-false (price_of o) q (λ z. ne (sym z ∙ priced))))
