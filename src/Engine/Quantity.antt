-- ===== src/Engine/Quantity.antt =====
-- internal/domain/matching/engine.go: how much a round trades, and what the fills do.
use native.Mathlib.Nat.{div-mul-le_self, lt-div-mul-add}
use order_book_vibranium.Base.{
  ℕ, ◌+◌, ◌*◌, ◌/◌, ◌≤◌, ◌<◌, ◌≡◌, refl, ◌⊎◌, inl, inr, Option, none, some, arith, ◌==◌, false,
  Bool-cases,
}
use order_book_vibranium.Base.Int64
use order_book_vibranium.Base.Int64.{Int64, pos, pos_part, neg_part, IsNat, half_range}
use order_book_vibranium.Order.{Order, Time, fill}
use order_book_vibranium.Order.Lifecycle.{IsValid, left, remaining-eq-left}
use order_book_vibranium.Book.Invariant.{IsPrice}
use order_book_vibranium.Engine.{
  min64, limiting_funds, affordable_quantity, divides_by_zero, match_quantity, fill_or_keep,
}

-- The order `o'` is `o` with `n` units more filled.
pub record Filled (o : Order) (n : ℕ) (o' : Order) : Type 0 where
  pub valid : IsValid o'
  pub less_left : left o' + n ≡ left o
  pub id : o'.id ≡ o.id
  pub user_id : o'.user_id ≡ o.user_id
  pub side : o'.side ≡ o.side
  pub order_type : o'.order_type ≡ o.order_type
  pub price : o'.price_cents ≡ o.price_cents
  pub quantity : o'.quantity ≡ o.quantity

-- A fill of what is left, or less, goes through.
pub fill_or_keep-Filled :
    (now : Time) (n : ℕ) (o : Order)
    → IsValid o
    → 0 < n
    → n ≤ left o
    → Filled o n (fill_or_keep now (pos n) o)
unfolding fill_or_keep fill
fill_or_keep-Filled now n o v h k = ground (
  arith,
  Int64.sub_nat o.quantity o.filled_quantity v.quantity_nat v.filled_nat v.within v.in_range,
  Int64.add_nat o.filled_quantity (pos n) v.filled_nat,
  Int64.sub_nat o.quantity (pos (pos_part o.filled_quantity + n)) v.quantity_nat,
)

-- Funds that are there.
abbrev pub IsFunds : Option Int64 → Type 0
IsFunds none = Unit
IsFunds (some f) = IsNat f × (pos_part f < half_range)

-- The funds pay for `n` units.
abbrev pub Affords : Option Int64 → ℕ → Int64 → Type 0
Affords none n price = Unit
Affords (some f) n price = n * pos_part price ≤ pos_part f

-- The funds do not pay for one unit.
abbrev pub CannotAfford : Option Int64 → Int64 → Type 0
CannotAfford none price = ⊥
CannotAfford (some f) price = pos_part f < pos_part price

min64_pos :
    (a b : ℕ) → (n : ℕ) × (min64 (pos a) (pos b) ≡ pos n) × (n ≤ a) × (n ≤ b) × ((n ≡ a) ⊎ (n ≡ b))
unfolding min64
min64_pos a b = elim (Bool-cases (Int64.lt (pos a) (pos b))) [
  | inl e ↦ (a, rw e, omega arith, ground arith, inl refl)
  | inr e ↦ (b, rw e, ground arith, omega arith, inr refl)
]

-- The quotient counts the units that the funds pay for.
pub div-mul-le : (f p n : ℕ) → n ≤ f / p → n * p ≤ f
div-mul-le f p n h = grind (arith, div-mul-le_self f p)

quotient_zero : (f p : ℕ) → 0 < p → (0 < f / p) ⊎ (f / p ≡ 0) × (f < p)
quotient_zero f p h =
    let near : f < f / p * p + p = lt-div-mul-add h in
    elim (Bool-cases (f / p == 0)) [
      | inl e ↦ (let z : f / p ≡ 0 = ground arith in inr (z, grind (arith, near, z)))
      | inr e ↦ inl (ground arith)
    ]

-- A price of the book never panics.
pub price_divides :
    (funds : Option Int64) (price : Int64) → IsPrice price → divides_by_zero funds price ≡ false
unfolding divides_by_zero
price_divides none price p = refl
price_divides (some f) price p = ground (arith, p)

-- The quantity of a trade: no more than either order has left and than the funds pay for, and zero
-- only if the funds do not pay for one unit.
pub affordable_quantity_lem :
    (funds : Option Int64) (price : Int64) (n : ℕ)
    → IsFunds funds
    → IsPrice price
    → 0 < n
    → (m : ℕ) × (affordable_quantity funds price (pos n) ≡ pos m)
      × (m ≤ n)
      × Affords funds m price
      × ((0 < m) ⊎ (m ≡ 0) × CannotAfford funds price)
unfolding affordable_quantity
affordable_quantity_lem none price n f p h = (n, refl, omega arith, tt, inl h)
affordable_quantity_lem (some f) price n (nat, range) (pn, pp, pr) h =
    let is_quotient = Int64.quot_nat f price nat pn in
    elim (Bool-cases (Int64.lt (Int64.quot f price) (pos n))) [
      | inl e ↦ (
        pos_part f / pos_part price,
        rw e is_quotient,
        ground (arith, is_quotient),
        div-mul-le (pos_part f) (pos_part price) (pos_part f / pos_part price) (omega arith),
        quotient_zero (pos_part f) (pos_part price) pp,
      )
      | inr e ↦ (
        n,
        rw e refl,
        omega arith,
        div-mul-le (pos_part f) (pos_part price) n (ground (arith, is_quotient)),
        inl h,
      )
    ]

-- The quantity that a round trades: what the orders have left and the funds pay for allow, and zero
-- only if the funds do not pay for one unit.
pub match_quantity_lem :
    (o maker : Order) (funds : Option Int64) (price : Int64)
    → IsValid o
    → IsValid maker
    → IsFunds (limiting_funds o funds)
    → IsPrice price
    → 0 < left o
    → 0 < left maker
    → (m : ℕ) × (match_quantity o maker funds price ≡ pos m)
      × (m ≤ left o)
      × (m ≤ left maker)
      × Affords (limiting_funds o funds) m price
      × ((0 < m) ⊎ (m ≡ 0) × CannotAfford (limiting_funds o funds) price)
unfolding match_quantity
match_quantity_lem o maker funds price v w f p h k =
    let (n, n_is, n_o, n_maker, one) = min64_pos (left o) (left maker) in
    let positive : 0 < n = ground arith in
    let (m, m_is, m_n, pays, some_or_none) =
      affordable_quantity_lem (limiting_funds o funds) price n f p positive in
    (
      m,
      rw (remaining-eq-left o v, remaining-eq-left maker w, n_is, m_is) refl,
      omega arith,
      omega arith,
      pays,
      some_or_none,
    )
