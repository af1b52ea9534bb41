-- ===== src/Matcher/Rebuilt.antt =====
-- internal/application/matcherapp/book_recovery.go: the rebuilt book is consistent.
use order_book_vibranium.Base.{
  ◌≡◌, ◌<◌, refl, inl, inr, Bool, true, false, ◌||◌, ◌&&◌, Option, none, some, List, [], ◌∷◌, ◌==◌,
  Bool-cases, arith,
}
use order_book_vibranium.Base.Int64.{Int64}
use order_book_vibranium.Base.Run.{Run, done, panic, out_of_fuel}
use order_book_vibranium.Base.Assoc.{lookup}
use order_book_vibranium.Order.{Order, Uuid, is_limit}
use order_book_vibranium.Order.Lifecycle.{left}
use order_book_vibranium.Book.{Book, add_resting}
use order_book_vibranium.Book.Invariant.{IsValid, Rests}
use order_book_vibranium.Book.Resting.{add_resting-IsValid, locations-add_resting}
use order_book_vibranium.Engine.Ready.{IsTaker}
use order_book_vibranium.Engine.Outcome.{is_limit-true, limit-IsPrice}
use order_book_vibranium.Matcher.Recovery.{rest_all}

-- One of the orders has the id.
abbrev pub knows_id : Uuid → List Order → Bool
knows_id id [] = false
knows_id id (o ∷ os) = (o.id == id) || knows_id id os

-- One of the LIMIT orders has the id.
abbrev pub rests_id : Uuid → List Order → Bool
rests_id id [] = false
rests_id id (o ∷ os) = (is_limit o.order_type && (o.id == id)) || rests_id id os

-- Orders as the table holds them while they are open: valid, with something left, no two with one
-- id, and none that the book knows.
abbrev pub AreOpen : Book → List Order → Type 0
AreOpen b [] = Unit
AreOpen b (o ∷ os) =
    IsTaker o
    × (0 < left o)
    × (lookup o.id b.locations ≡ none)
    × (knows_id o.id os ≡ false)
    × AreOpen b os

abbrev pub is_some : {A : Type 0} → Option A → Bool
is_some none = false
is_some (some a) = true

-- The book is consistent, and it locates what it did and the LIMIT orders.
abbrev pub Rebuilds : Book → List Order → Run Book → Type 0
Rebuilds b os panic = ⊥
Rebuilds b os out_of_fuel = ⊥
Rebuilds b os (done b') =
    IsValid b'
    × ((id : Uuid)
        → is_some (lookup id b'.locations) ≡ (is_some (lookup id b.locations) || rests_id id os))

AreOpen-known :
    (o : Order) (price : Int64) (b b' : Book) (os : List Order)
    → o.price_cents ≡ some price
    → add_resting o b ≡ done b'
    → knows_id o.id os ≡ false
    → AreOpen b os
    → AreOpen b' os
AreOpen-known o price b b' [] priced e new all = tt
AreOpen-known o price b b' (p ∷ os) priced e new (taker, some_left, fresh, apart, all) = (
  taker,
  some_left,
  ground (arith, locations-add_resting o price b b' p.id priced e, fresh, new),
  apart,
  AreOpen-known o price b b' os priced e (ground (arith, new)) all,
)

-- One order more than the rest.
Rebuilds-more :
    (b b' : Book) (o : Order) (os : List Order)
    → ((id : Uuid)
        → is_some (lookup id b'.locations)
          ≡ (is_some (lookup id b.locations) || (is_limit o.order_type && (o.id == id))))
    → (r : Run Book) → Rebuilds b' os r
    → Rebuilds b (o ∷ os) r
Rebuilds-more b b' o os one panic z = z
Rebuilds-more b b' o os one out_of_fuel z = z
Rebuilds-more b b' o os one (done c) (valid, all) = (valid, λ id. ground (arith, one id, all id))

-- The loop of RecoverBook over open orders that a consistent book does not know neither panics nor
-- stops early: the book stays consistent, and locates exactly what it did and the LIMIT orders.
pub rest_all-Rebuilds :
    (os : List Order) (b : Book) → IsValid b → AreOpen b os → Rebuilds b os (rest_all os b)
unfolding rest_all
rest_all-Rebuilds [] b v all = (v, λ id. ground arith)
rest_all-Rebuilds (o ∷ os) b v (taker, some_left, fresh, apart, all) =
    elim (Bool-cases (is_limit o.order_type)) [
      | inl e ↦
          let l = is_limit-true o.order_type e in
          let (price, is_price, priced) = limit-IsPrice o.order_type o.price_cents taker.priced l in
          let rests : Rests o.side price o = record {
            valid = taker.valid;
            some_left = some_left;
            side = refl;
            order_type = l;
            price = priced;
          } in
          let (b', added, valid, at) =
            add_resting-IsValid b v price o fresh is_price o.side taker.traded rests in
          let one : (id : Uuid)
              → is_some (lookup id b'.locations)
                ≡ (is_some (lookup id b.locations) || (is_limit o.order_type && (o.id == id))) =
            λ id. ground (arith, locations-add_resting o price b b' id priced added, e, fresh) in
          rw e (
            rw (added, rest_all)
              (Rebuilds-more b b' o os one (rest_all os b') (
                rest_all-Rebuilds os b' valid
                  (AreOpen-known o price b b' os priced added apart all))))
      | inr e ↦
          let one : (id : Uuid)
              → is_some (lookup id b.locations)
                ≡ (is_some (lookup id b.locations) || (is_limit o.order_type && (o.id == id))) =
            λ id. ground (arith, e) in
          rw e (Rebuilds-more b b o os one (rest_all os b) (rest_all-Rebuilds os b v all))
    ]
