-- ===== src/Ranking/Sorted.antt =====
-- internal/domain/matching/book.go: sides as sorted lists, when orders come and go.
use order_book_vibranium.Base.{
  ◌≡◌, ◌≢◌, refl, sym, ap, ◌∙◌, inl, inr, true, false, List, [], ◌∷◌, ◌++◌, ◌==◌, if◌then◌else◌,
  arith, Bool-cases, All, All-map, ==_iff,
}
use order_book_vibranium.Base.Int64
use order_book_vibranium.Base.Int64.{Int64, eq_iff, pos_part, neg_part}
use order_book_vibranium.LevelHeap.Ordered.{NotAfter}
use order_book_vibranium.Order.{Order, Side, Uuid}
use order_book_vibranium.Book.Invariant.{hi, lo}
use order_book_vibranium.Ranking.{price_of, is_better, enqueue, withdraw}

-- `x` may stand behind `o`: its price is not better, and it is another order.
abbrev pub MayFollow : Side → Order → Order → Type 0
MayFollow s o x = NotAfter (hi s) (lo s) (price_of o) (price_of x) × (o.id ≢ x.id)

-- Best price first, and no two orders of one id.
abbrev pub IsSorted : Side → List Order → Type 0
IsSorted s [] = Unit
IsSorted s (o ∷ os) = All (MayFollow s o) os × IsSorted s os

-- The orders of one price, as they stand.
abbrev pub at_price : Int64 → List Order → List Order
at_price p [] = []
at_price p (o ∷ os) = if Int64.eq (price_of o) p then o ∷ at_price p os else at_price p os

is_better-true :
    (s : Side) (p q : Int64) → is_better s p q ≡ true → NotAfter (hi s) (lo s) p q × (p ≢ q)
unfolding is_better
is_better-true Side.buy p q h = (ground arith, λ e. ground (arith, ap pos_part e, ap neg_part e))
is_better-true Side.sell p q h = (ground arith, λ e. ground (arith, ap pos_part e, ap neg_part e))
is_better-true Side.other p q h = (ground arith, λ e. ground (arith, ap pos_part e, ap neg_part e))

is_better-false : (s : Side) (p q : Int64) → is_better s p q ≡ false → NotAfter (hi s) (lo s) q p
unfolding is_better
is_better-false Side.buy p q h = ground arith
is_better-false Side.sell p q h = ground arith
is_better-false Side.other p q h = ground arith

abbrev pub IsNew : Order → List Order → Type 0
IsNew o os = All (λ x. x.id ≢ o.id) os

All-enqueue :
    (P : Order → Type 0) (s : Side) (o : Order) (os : List Order)
    → P o
    → All P os
    → All P (enqueue s o os)
unfolding enqueue
All-enqueue P s o [] h k = (h, tt)
All-enqueue P s o (x ∷ os) h k = elim (Bool-cases (is_better s (price_of o) (price_of x))) [
  | inl e ↦ rw e (h, k)
  | inr e ↦ rw e (k.0, All-enqueue P s o os h k.1)
]

both : (P Q : Order → Type 0) (os : List Order) → All P os → All Q os → All (λ x. P x × Q x) os
both P Q [] h k = tt
both P Q (x ∷ os) h k = ((h.0, k.0), both P Q os h.1 k.1)

-- The orders behind one that the new order stands before.
All-follow :
    (s : Side) (o x : Order) (os : List Order)
    → is_better s (price_of o) (price_of x) ≡ true
    → IsSorted s (x ∷ os)
    → IsNew o (x ∷ os)
    → All (MayFollow s o) (x ∷ os)
All-follow s o x os e v fresh =
    let (before, _) = is_better-true s (price_of o) (price_of x) e in
    (
      (before, λ z. fresh.0 (sym z)),
      All-map os (λ y (m, k). (omega (arith, m.0, before), λ z. k (sym z)))
          (both (MayFollow s x) (λ y. y.id ≢ o.id) os v.0 fresh.1),
    )

pub enqueue-IsSorted :
    (s : Side) (o : Order) (os : List Order)
    → IsSorted s os
    → IsNew o os
    → IsSorted s (enqueue s o os)
unfolding enqueue
enqueue-IsSorted s o [] v fresh = (tt, tt)
enqueue-IsSorted s o (x ∷ os) v fresh = elim (Bool-cases (is_better s (price_of o) (price_of x))) [
  | inl e ↦ rw e (All-follow s o x os e v fresh, v)
  | inr e ↦ rw e (
    All-enqueue (MayFollow s x) s o os (is_better-false s (price_of o) (price_of x) e, fresh.0) v.0,
    enqueue-IsSorted s o os v.1 fresh.1,
  )
]

-- Where all orders are of other prices there is none at the price.
pub at_price-none :
    (p : Int64) (os : List Order) → All (λ x. price_of x ≢ p) os → at_price p os ≡ []
at_price-none p [] h = refl
at_price-none p (x ∷ os) h = elim (Bool-cases (Int64.eq (price_of x) p)) [
  | inl e ↦ absurd (h.0 ((eq_iff (price_of x) p).0 e))
  | inr e ↦ rw e (at_price-none p os h.1)
]

-- A price that comes after a better one.
worse_price :
    (s : Side) (p q r : Int64) → is_better s p q ≡ true → NotAfter (hi s) (lo s) q r → r ≢ p
unfolding is_better
worse_price Side.buy p q r h k e = ground (arith, ap pos_part e, ap neg_part e)
worse_price Side.sell p q r h k e = ground (arith, ap pos_part e, ap neg_part e)
worse_price Side.other p q r h k e = ground (arith, ap pos_part e, ap neg_part e)

pub at_price-enqueue :
    (s : Side) (o : Order) (os : List Order) (q : Int64)
    → IsSorted s os
    → at_price q (enqueue s o os)
      ≡ (if Int64.eq (price_of o) q then at_price q os ++ o ∷ [] else at_price q os)
unfolding enqueue
at_price-enqueue s o [] q v = refl
at_price-enqueue s o (x ∷ os) q v = elim (Bool-cases (is_better s (price_of o) (price_of x))) [
  | inl e ↦ elim (Bool-cases (Int64.eq (price_of o) q)) [
    | inl k ↦
        let (_, ne) = is_better-true s (price_of o) (price_of x) e in
        let none_there : at_price (price_of o) (x ∷ os) ≡ [] = at_price-none (price_of o) (x ∷ os) (
          λ z. ne (sym z),
          All-map os (λ y m. worse_price s (price_of o) (price_of x) (price_of y) e m.0) v.0,
        ) in
        let at_q : at_price q (x ∷ os) ≡ [] =
          ap (λ r. at_price r (x ∷ os)) (sym ((eq_iff (price_of o) q).0 k)) ∙ none_there in
        rw (e, k)
          (ap (λ (l : List Order). o ∷ l) at_q ∙ sym (ap (λ (l : List Order). l ++ o ∷ []) at_q))
    | inr k ↦ rw (e, k) refl
  ]
  | inr e ↦ let more = at_price-enqueue s o os q v.1 in rw e (ground (arith, more))
]

All-withdraw :
    (P : Order → Type 0) (id : Uuid) (os : List Order) → All P os → All P (withdraw id os)
unfolding withdraw
All-withdraw P id [] h = tt
All-withdraw P id (x ∷ os) h = elim (Bool-cases (x.id == id)) [
  | inl e ↦ rw e (All-withdraw P id os h.1)
  | inr e ↦ rw e (h.0, All-withdraw P id os h.1)
]

pub withdraw-IsSorted :
    (s : Side) (id : Uuid) (os : List Order) → IsSorted s os → IsSorted s (withdraw id os)
unfolding withdraw
withdraw-IsSorted s id [] v = tt
withdraw-IsSorted s id (x ∷ os) v = elim (Bool-cases (x.id == id)) [
  | inl e ↦ rw e (withdraw-IsSorted s id os v.1)
  | inr e ↦ rw e (All-withdraw (MayFollow s x) id os v.0, withdraw-IsSorted s id os v.1)
]

pub at_price-withdraw :
    (p : Int64) (id : Uuid) (os : List Order)
    → at_price p (withdraw id os) ≡ withdraw id (at_price p os)
unfolding withdraw
at_price-withdraw p id [] = refl
at_price-withdraw p id (x ∷ os) = ground (arith, at_price-withdraw p id os)

pub withdraw-none : (id : Uuid) (os : List Order) → All (λ x. x.id ≢ id) os → withdraw id os ≡ os
unfolding withdraw
withdraw-none id [] h = refl
withdraw-none id (x ∷ os) h = elim (Bool-cases (x.id == id)) [
  | inl e ↦ absurd (h.0 ((==_iff x.id id).0 e))
  | inr e ↦ rw e (ap (λ (l : List Order). x ∷ l) (withdraw-none id os h.1))
]
