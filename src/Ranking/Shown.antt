-- ===== src/Ranking/Shown.antt =====
-- internal/domain/matching/book.go: the levels of a side, seen as one sorted list of orders.
use order_book_vibranium.Base.{◌≡◌, refl, ap, ◌∙◌, ◌⊎◌, inl, inr, List, [], ◌∷◌, Bool-cases, All}
use order_book_vibranium.Base.Int64
use order_book_vibranium.Base.Int64.{Int64, eq_iff}
use order_book_vibranium.Order.{Order, Side}
use order_book_vibranium.Level.{Element, Level}
use order_book_vibranium.LevelHeap.Content.{Holds, IsIndexed}
use order_book_vibranium.LevelHeap.Update.{Holds-unique}
use order_book_vibranium.Book.Invariant.{In, front, behind}
use order_book_vibranium.Ranking.{price_of}
use order_book_vibranium.Ranking.Sorted.{IsSorted, at_price}

abbrev pub orders : List Element → List Order
orders [] = []
orders (e ∷ es) = e.order ∷ orders es

-- No level of the price is in the heap.
abbrev pub HoldsNone : List Level → Int64 → Type 0
HoldsNone h p = (es : List Element) → Holds h p es → ⊥

-- The orders `xs` are the queue at price `p`; none, where there is no level.
abbrev pub Shows : List Level → Int64 → List Order → Type 0
Shows h p xs = ((es : List Element) × Holds h p es × (xs ≡ orders es)) ⊎ HoldsNone h p × (xs ≡ [])

-- The sorted list has the orders of the levels `h`, and those of one price in the order of their
-- queue.
pub record Represents (s : Side) (h : List Level) (os : List Order) : Type 0 where
  pub sorted : IsSorted s os
  pub shows : (p : Int64) → Shows h p (at_price p os)

pub shown_queue :
    (h : List Level) (p : Int64) (xs : List Order) (es : List Element)
    → IsIndexed h
    → Holds h p es
    → Shows h p xs
    → xs ≡ orders es
shown_queue h p xs es v x (inl (fs, y, e)) = e ∙ ap orders (Holds-unique v y x)
shown_queue h p xs es v x (inr (nowhere, e)) = absurd (nowhere _ x)

-- What all queues have, all orders have.
pub All-shown :
    (P : Order → Type 0) (h : List Level) (p : Int64) (xs : List Order)
    → ((es : List Element) → Holds h p es → All P (orders es))
    → Shows h p xs
    → All P xs
All-shown P h p xs f (inl (es, x, e)) = rw e (f es x)
All-shown P h p xs f (inr (nowhere, e)) = rw e tt

All-tail_at_price :
    (P : Order → Type 0) (p : Int64) (o : Order) (os : List Order)
    → All P (at_price p (o ∷ os))
    → All P (at_price p os)
All-tail_at_price P p o os h = elim (Bool-cases (Int64.eq (price_of o) p)) [
  | inl e ↦ (rw e at h).1
  | inr e ↦ rw e at h
]

All-at_price :
    (P : Order → Type 0) (os : List Order) → ((p : Int64) → All P (at_price p os)) → All P os
All-at_price P [] f = tt
All-at_price P (o ∷ os) f =
    let here : All P (at_price (price_of o) (o ∷ os)) = f (price_of o) in
    (
      (rw ((eq_iff (price_of o) (price_of o)).1 refl) at here).0,
      All-at_price P os (λ p. All-tail_at_price P p o os (f p)),
    )

pub Represents-All :
    (P : Order → Type 0) (s : Side) (h : List Level) (os : List Order)
    → Represents s h os
    → ((p : Int64) (es : List Element) → Holds h p es → All P (orders es))
    → All P os
Represents-All P s h os r f =
    All-at_price P os (λ p. All-shown P h p (at_price p os) (f p) (r.shows p))

-- A heap whose levels at a price are those of another one shows the same there.
pub Shows-moved :
    (h h' : List Level) (p : Int64) (xs : List Order)
    → ((es : List Element) → Holds h p es → Holds h' p es)
    → ((es : List Element) → Holds h' p es → Holds h p es)
    → Shows h p xs
    → Shows h' p xs
Shows-moved h h' p xs f g (inl (es, x, e)) = inl (es, f es x, e)
Shows-moved h h' p xs f g (inr (nowhere, e)) = inr (λ es x. nowhere es (g es x), e)

pub All-orders :
    (P : Order → Type 0) (es : List Element)
    → ((e : Element) → In e es → P e.order)
    → All P (orders es)
All-orders P [] f = tt
All-orders P (e ∷ es) f = (f e front, All-orders P es (λ d x. f d (behind x)))
