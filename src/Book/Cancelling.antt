-- ===== src/Book/Cancelling.antt =====
-- internal/domain/matching/book.go: removeFront of an order that rests, and Cancel.
use order_book_vibranium.Base.{
  ℕ, ◌≡◌, refl, sym, ap, ◌∙◌, inl, inr, Option, none, some, List, [], ◌∷◌, arith, ◌==◌,
  if◌then◌else◌, Bool-cases, Option-cases, ==_iff,
}
use order_book_vibranium.Base.Int64.{Int64}
use order_book_vibranium.Base.Assoc.{lookup, lookup-erase}
use order_book_vibranium.Order.{Order, Side, Uuid}
use order_book_vibranium.Level.{Element, remove_element}
use order_book_vibranium.LevelHeap.Content.{Holds}
use order_book_vibranium.LevelHeap.Update.{find_level-Finds}
use order_book_vibranium.Book.{
  Book, LevelRef, heap_and_index, set_heap_and_index, prune, prune_at, write_level, remove_front,
  find_element, located_order, cancel,
}
use order_book_vibranium.Book.Invariant.{
  In, front, behind, Rests, FoundIn, IsValid, IsTraded, levels, location, levels-heap_and_index,
  queue_of, IsIndexed-levels,
}
use order_book_vibranium.Book.Removal.{without, locations-without, ref_of}
use order_book_vibranium.Book.Pruning.{prune_at-IsValid}

find_element-In :
    (a : ℕ) {x : Element} (es : List Element)
    → In x es
    → x.addr ≡ a
    → (y : Element) × In y es × (y.addr ≡ a) × (find_element a es ≡ some y.order)
unfolding find_element
find_element-In a [] i e = elim i [ ]
find_element-In a {x} (y ∷ es) front e = (x, front, e, rw ((==_iff x.addr a).1 e))
find_element-In a (y ∷ es) (behind i) e = elim (Bool-cases (y.addr == a)) [
  | inl same ↦ (y, front, (==_iff y.addr a).0 same, rw same)
  | inr other ↦
      let (z, in_z, at_z, found) = find_element-In a es i e in
      (z, behind in_z, at_z, rw other found)
]

-- removeFront of an order that is located, on a side that trades, in terms of the side.
pub remove_front-eq-prune_at :
    (b : Book) (s : Side) (p : Int64) (a : ℕ) (o : Order)
    → IsTraded s
    → lookup o.id b.locations ≡ some (location s p a)
    → remove_front o s (ref_of s p) b
      ≡ prune_at s (ref_of s p) (without s p (remove_element a) o.id b)
unfolding remove_front write_level heap_and_index set_heap_and_index
remove_front-eq-prune_at b Side.buy p a o t e = rw (e, remove_front)
remove_front-eq-prune_at b Side.sell p a o t e = rw (e, remove_front)
remove_front-eq-prune_at b Side.other p a o t e = elim t [ ]

pub locations-prune_at :
    (b : Book) (s : Side) (ref : LevelRef) → (prune_at s ref b).locations ≡ b.locations
unfolding prune_at prune set_heap_and_index
locations-prune_at b Side.buy ref = ground arith
locations-prune_at b Side.sell ref = ground arith
locations-prune_at b Side.other ref = ground arith

-- How a cancellation of `id` ends: the order that rested is returned and the book forgets it and no
-- other, or the id is not located and nothing changes.
abbrev pub Cancels : Book → Uuid → Option Order × Book → Type 0
Cancels b id (none, b') = (lookup id b.locations ≡ none) × (b' ≡ b)
Cancels b id (some o, b') =
    (o.id ≡ id)
    × ((s : Side) × (p : Int64) × IsTraded s × Rests s p o)
    × IsValid b'
    × ((j : Uuid) → lookup j b'.locations ≡ (if id == j then none else lookup j b.locations))

-- The queue that a location points to, and the order that Cancel reads from it.
pub record Pointed (b : Book) (s : Side) (p : Int64) (a : ℕ) (id : Uuid) : Type 0 where
  pub queue : List Element
  pub held : Holds (levels b s) p queue
  pub element : Element
  pub inside : In element queue
  pub at_addr : element.addr ≡ a
  pub has_id : element.order.id ≡ id
  pub rests : Rests s p element.order
  pub read : located_order (location s p a) b ≡ some element.order

pub pointed :
    (b : Book) (s : Side) (p : Int64) (a : ℕ) (id : Uuid)
    → IsValid b
    → IsTraded s
    → FoundIn (levels b s) id (location s p a)
    → Pointed b s p a id
unfolding located_order
pointed b s p a id v t f =
    let (y, in_y, at_y, found) = find_element-In a f.queue f.inside f.at_addr in
    let queue = queue_of b v s p f.queue t f.held in
    let (l, finds) = find_level-Finds (levels b s) p f.queue (IsIndexed-levels b v s t) f.held in
    record {
      queue = f.queue;
      held = f.held;
      element = y;
      inside = in_y;
      at_addr = at_y;
      has_id = queue.apart y f.element in_y f.inside (at_y ∙ sym f.at_addr) ∙ f.has_id;
      rests = (queue.placed y in_y).rests;
      read =
          rw (levels-heap_and_index b s, located_order)
            (rw (finds.found, located_order) (rw finds.queue found));
    }

module _ (b : Book) (v : IsValid b) (s : Side) (t : IsTraded s) (p : Int64) (a : ℕ) (id : Uuid)
    (here : lookup id b.locations ≡ some (location s p a)) (f : Pointed b s p a id) where
  abbrev after : Book
  after = remove_front f.element.order s (ref_of s p) b

  after-eq : after ≡ prune_at s (ref_of s p) (without s p (remove_element a) f.element.order.id b)
  after-eq = remove_front-eq-prune_at b s p a f.element.order t (rw f.has_id here)

  after-IsValid : IsValid after
  after-IsValid = rw after-eq (
      prune_at-IsValid b s t v p f.queue f.held f.element f.inside (remove_element a)
        (ap (λ c. remove_element c f.queue) (sym f.at_addr)))

  after_forgets :
      (j : Uuid) → lookup j after.locations ≡ (if id == j then none else lookup j b.locations)
  after_forgets j =
      rw after-eq
        (rw locations-prune_at (rw locations-without (rw f.has_id (lookup-erase id j b.locations))))

  cancel-Cancels_located : Cancels b id (cancel id b)
  unfolding cancel
  cancel-Cancels_located =
      rw (here, cancel)
        (rw (f.read, cancel) (f.has_id, (s, p, t, f.rests), after-IsValid, after_forgets))

-- Cancel on a consistent book: an id that is not located changes nothing; otherwise the order of
-- that id, which could rest, is returned, the book stays consistent, and its locations lose the
-- entry of the id and no other.
pub cancel-Cancels : (b : Book) (id : Uuid) → IsValid b → Cancels b id (cancel id b)
unfolding cancel
cancel-Cancels b id v = elim (Option-cases (lookup id b.locations)) [
  | inl e ↦ rw (e, cancel) (e, refl)
  | inr (loc, e) ↦
      let f = v.located id loc e in
      let whole : loc ≡ location loc.side loc.lvl.price_cents loc.addr =
        ground (arith, f.same_side) in
      cancel-Cancels_located b v loc.side f.traded loc.lvl.price_cents loc.addr id
        (e ∙ ap some whole)
        (pointed b loc.side loc.lvl.price_cents loc.addr id v f.traded (record {
          queue = f.there.queue;
          held = f.there.held;
          element = f.there.element;
          inside = f.there.inside;
          at_addr = f.there.at_addr;
          has_id = f.there.has_id;
        }))
]
