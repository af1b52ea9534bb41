-- ===== src/Ranking/Found.antt =====
-- internal/domain/matching/book.go: an order is found in a sorted list by its id.
use order_book_vibranium.Base.{
  ◌≡◌, ◌≢◌, refl, inl, inr, none, some, List, [], ◌∷◌, All, Bool-cases, ◌==◌, ==_iff,
}
use order_book_vibranium.Base.Int64
use order_book_vibranium.Base.Int64.{Int64}
use order_book_vibranium.Order.{Order, Side, Uuid}
use order_book_vibranium.Level.{Element}
use order_book_vibranium.Book.Invariant.{In, front, behind}
use order_book_vibranium.Ranking.{price_of, find_order}
use order_book_vibranium.Ranking.Sorted.{IsSorted, at_price}
use order_book_vibranium.Ranking.Shown.{orders}

-- The order is in the list.
pub data Among (o : Order) : List Order → Type 0 where
  first : {os : List Order} → Among o (o ∷ os)
  later : {x : Order} {os : List Order} → Among o os → Among o (x ∷ os)

pub Among-orders : {e : Element} (es : List Element) → In e es → Among e.order (orders es)
Among-orders [] x = elim x [ ]
Among-orders (d ∷ es) front = first
Among-orders (d ∷ es) (behind x) = later (Among-orders es x)

Among-cons :
    (y : Order) {o : Order} {xs ys : List Order}
    → (Among o xs → Among o ys)
    → Among o (y ∷ xs)
    → Among o (y ∷ ys)
Among-cons y f first = first
Among-cons y f (later x) = later (f x)

pub Among-at_price :
    (p : Int64) {o : Order} (os : List Order) → Among o (at_price p os) → Among o os
Among-at_price p [] x = x
Among-at_price p {o} (y ∷ os) x = elim (Bool-cases (Int64.eq (price_of y) p)) [
  | inl e ↦ Among-cons y (Among-at_price p os) (rw e at x)
  | inr e ↦ later (Among-at_price p os (rw e at x))
]

All-Among : (P : Order → Type 0) {o : Order} (os : List Order) → All P os → Among o os → P o
All-Among P [] h x = elim x [ ]
All-Among P (y ∷ os) h first = h.0
All-Among P (y ∷ os) h (later x) = All-Among P os h.1 x

-- In a sorted list an order is found by its id.
pub find_order-Among :
    (s : Side) {o : Order} (os : List Order)
    → IsSorted s os
    → Among o os
    → find_order o.id os ≡ some o
unfolding find_order
find_order-Among s [] v x = elim x [ ]
find_order-Among s {o} (y ∷ os) v first = rw ((==_iff o.id o.id).1 refl)
find_order-Among s {o} (y ∷ os) v (later x) = elim (Bool-cases (y.id == o.id)) [
  | inl e ↦ absurd ((All-Among _ os v.0 x).1 ((==_iff y.id o.id).0 e))
  | inr e ↦ rw e (find_order-Among s os v.1 x)
]

pub find_order-none :
    (id : Uuid) (os : List Order) → All (λ x. x.id ≢ id) os → find_order id os ≡ none
unfolding find_order
find_order-none id [] h = refl
find_order-none id (x ∷ os) h = elim (Bool-cases (x.id == id)) [
  | inl e ↦ absurd (h.0 ((==_iff x.id id).0 e))
  | inr e ↦ rw e (find_order-none id os h.1)
]
