-- ===== src/Ranking/Leaving.antt =====
-- internal/domain/matching/book.go: the sides as sorted lists, when an element leaves its queue.
use order_book_vibranium.Base.{
  ℕ, ◌≡◌, ◌≢◌, refl, sym, ap, ◌∙◌, inl, inr, List, [], ◌∷◌, arith, List-cases, some, true, false,
  All, some_eq_some, ==_iff, ◌==◌, ◌↔◌, Bool-cases,
}
use order_book_vibranium.Base.Int64.{Int64}
use order_book_vibranium.Base.Assoc.{lookup}
use order_book_vibranium.Order.{Order, Side, Uuid}
use order_book_vibranium.Level.{Element, Level, remove_element}
use order_book_vibranium.LevelHeap.{LevelHeap, update_level, remove}
use order_book_vibranium.LevelHeap.Content.{Holds}
use order_book_vibranium.LevelHeap.Update.{Finds}
use order_book_vibranium.Book.{Book, Location, heap_and_index, set_heap_and_index, prune, prune_at}
use order_book_vibranium.Book.Invariant.{
  In, front, behind, IsSide, IsValid, IsTraded, levels, location, queue_of, IsIndexed-levels,
}
use order_book_vibranium.Book.Queues.{location-injective}
use order_book_vibranium.Book.Leaving.{left_level, pruned_before, pruned_after}
use order_book_vibranium.Book.Removal.{without, ref_of}
use order_book_vibranium.Ranking.{other_side, withdraw}
use order_book_vibranium.Ranking.Sorted.{
  at_price, at_price-withdraw, withdraw-IsSorted, withdraw-none,
}
use order_book_vibranium.Ranking.Shown.{
  orders, Shows, Shows-moved, shown_queue, Represents, All-shown, All-orders,
}
use order_book_vibranium.Ranking.Views.{Changes, update_level-Changes, Represents-Changes}

-- A level that an element leaves empty goes.
module _ (locs : List (Uuid × Location)) (next : ℕ) (s : Side) (h : LevelHeap) (idx : List Int64)
    (v : IsSide locs next s h idx) (p : Int64) (es : List Element) (held : Holds h.levels p es)
    (x : Element) (inside : In x es) (a : ℕ) (at_a : x.addr ≡ a) (F : List Element → List Element)
    (F_removes : F es ≡ remove_element a es) where
  remove-Changes :
      (lvl : Level) (finds : Finds (update_level p F h.levels) p (F es) lvl) (empty : F es ≡ [])
      → Changes h.levels (remove h.less (update_level p F h.levels) lvl.index) p (orders (F es))
  remove-Changes lvl finds empty =
      let before =
        pruned_before locs next s h idx v p es held x inside a at_a F F_removes lvl finds empty in
      let after =
        pruned_after locs next s h idx v p es held x inside a at_a F F_removes lvl finds empty in
      record {
        here = inr (λ gs y. (before p gs y).1 refl, ap orders empty);
        there = λ q xs ne.
            Shows-moved h.levels (remove h.less (update_level p F h.levels) lvl.index) q xs
              (λ gs. after q gs ne) (λ gs y. (before q gs y).0);
      }

module _ (b : Book) (v : IsValid b) (p : Int64) (x : Element) (es : List Element) (inside : In x es)
    (F : List Element → List Element) (F_removes : F es ≡ remove_element x.addr es) where
  bids_pruned :
      Holds b.bids.levels p es
      → Changes b.bids.levels
          (prune_at Side.buy (ref_of Side.buy p) (without Side.buy p F x.order.id b)).bids.levels
          p
          (orders (F es))
  unfolding prune_at prune heap_and_index set_heap_and_index
  bids_pruned held =
      let (lvl, finds) =
        left_level b.locations b.next_addr Side.buy b.bids b.bids_by_price v.bids p es held x inside
          x.addr refl F F_removes in
      elim (List-cases (F es)) [
        | inl empty ↦
            rw (finds.found, prune_at)
              (rw (finds.queue ∙ empty, prune)
                (remove-Changes b.locations b.next_addr Side.buy b.bids b.bids_by_price v.bids p es
                  held x inside x.addr refl F F_removes lvl finds empty))
        | inr (y, r, some_left) ↦
            rw (finds.found, prune_at)
              (rw (finds.queue ∙ some_left, prune) (update_level-Changes b.bids.levels p F es held))
      ]

  asks_pruned :
      Holds b.asks.levels p es
      → Changes b.asks.levels
          (prune_at Side.sell (ref_of Side.sell p) (without Side.sell p F x.order.id b)).asks.levels
          p
          (orders (F es))
  unfolding prune_at prune heap_and_index set_heap_and_index
  asks_pruned held =
      let (lvl, finds) =
        left_level b.locations b.next_addr Side.sell b.asks b.asks_by_price v.asks p es held x
          inside x.addr refl F F_removes in
      elim (List-cases (F es)) [
        | inl empty ↦
            rw (finds.found, prune_at)
              (rw (finds.queue ∙ empty, prune)
                (remove-Changes b.locations b.next_addr Side.sell b.asks b.asks_by_price v.asks p es
                  held x inside x.addr refl F F_removes lvl finds empty))
        | inr (y, r, some_left) ↦
            rw (finds.found, prune_at)
              (rw (finds.queue ∙ some_left, prune) (update_level-Changes b.asks.levels p F es held))
      ]

  pub prune_at-Changes :
      (s : Side)
      → IsTraded s
      → Holds (levels b s) p es
      → Changes
          (levels b s)
          (levels (prune_at s (ref_of s p) (without s p F x.order.id b)) s)
          p
          (orders (F es))
  prune_at-Changes Side.buy t = bids_pruned
  prune_at-Changes Side.sell t = asks_pruned
  prune_at-Changes Side.other t = elim t [ ]

-- The other side stays as it is.
pub levels-prune_at_other :
    (b : Book) (s : Side) (p : Int64) (F : List Element → List Element) (id : Uuid)
    → IsTraded s
    → levels (prune_at s (ref_of s p) (without s p F id b)) (other_side s) ≡ levels b (other_side s)
unfolding prune_at prune set_heap_and_index
levels-prune_at_other b Side.buy p F id t = ground arith
levels-prune_at_other b Side.sell p F id t = ground arith
levels-prune_at_other b Side.other p F id t = elim t [ ]

eq_false : (m n : ℕ) → (m == n) ≡ false → m ≢ n
eq_false m n h = ground arith

ne_false : (m n : ℕ) → m ≢ n → (m == n) ≡ false
ne_false m n h = ground (arith, h)

orders-remove_element :
    (a : ℕ) (id : Uuid) (es : List Element)
    → ((e : Element) → In e es → (e.addr ≡ a) ↔ (e.order.id ≡ id))
    → orders (remove_element a es) ≡ withdraw id (orders es)
unfolding remove_element withdraw
orders-remove_element a id [] f = refl
orders-remove_element a id (e ∷ es) f =
    let rest = orders-remove_element a id es (λ d x. f d (behind x)) in
    elim (Bool-cases (e.addr == a)) [
      | inl k ↦
          let same : (e.order.id == id) ≡ true =
            (==_iff e.order.id id).1 ((f e front).0 ((==_iff e.addr a).0 k)) in
          rw (k, same) rest
      | inr k ↦
          let other : (e.order.id == id) ≡ false =
            ne_false e.order.id id (λ z. eq_false e.addr a k ((f e front).1 z)) in
          rw (k, other) (ap (λ (l : List Order). e.order ∷ l) rest)
    ]

module _ (b : Book) (v : IsValid b) (s : Side) (t : IsTraded s) (p : Int64) (es : List Element)
    (held : Holds (levels b s) p es) (x : Element) (inside : In x es) where
  abbrev entry : lookup x.order.id b.locations ≡ some (location s p x.addr)
  entry = ((queue_of b v s p es t held).placed x inside).located

  -- In the queue, the address and the id are one.
  one_id : (e : Element) → In e es → (e.addr ≡ x.addr) ↔ (e.order.id ≡ x.order.id)
  one_id e y =
      let q = queue_of b v s p es t held in
      (
        λ k. q.apart e x y inside k,
        λ k.
            (location-injective (
              some_eq_some
                (sym (q.placed e y).located ∙ ap (λ i. lookup i b.locations) k ∙ entry))).2,
      )

  -- At another price there is no order of the id.
  none_elsewhere :
      (q : Int64) (os : List Order)
      → q ≢ p
      → Shows (levels b s) q os
      → All (λ o. o.id ≢ x.order.id) os
  none_elsewhere q os ne shown =
      All-shown (λ o. o.id ≢ x.order.id) (levels b s) q os
        (λ fs there.
          All-orders (λ o. o.id ≢ x.order.id) fs
            (λ e y k.
              ne
                (location-injective (
                  some_eq_some (
                    sym ((queue_of b v s q fs t there).placed e y).located
                    ∙ ap (λ i. lookup i b.locations) k
                    ∙ entry))).1))
        shown

  -- An element that leaves its queue is withdrawn from the list.
  pub prune_at-Represents :
      (F : List Element → List Element) (os : List Order)
      → F es ≡ remove_element x.addr es
      → Represents s (levels b s) os
      → Represents s
          (levels (prune_at s (ref_of s p) (without s p F x.order.id b)) s)
          (withdraw x.order.id os)
  prune_at-Represents F os removes r =
      Represents-Changes s (levels b s)
        (levels (prune_at s (ref_of s p) (without s p F x.order.id b)) s) p (orders (F es)) os
        (withdraw x.order.id os) r (prune_at-Changes b v p x es inside F removes s t held)
        (withdraw-IsSorted s x.order.id os r.sorted)
        (at_price-withdraw p x.order.id os
          ∙ ap (withdraw x.order.id) (
              shown_queue (levels b s) p (at_price p os) es (IsIndexed-levels b v s t) held
                (r.shows p))
          ∙ sym (orders-remove_element x.addr x.order.id es one_id)
          ∙ sym (ap orders removes))
        (λ q ne.
          at_price-withdraw q x.order.id os
          ∙ withdraw-none x.order.id (at_price q os)
              (none_elsewhere q (at_price q os) ne (r.shows q)))
