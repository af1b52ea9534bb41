-- ===== src/Service/Place/Accepted.antt =====
-- internal/application/orders/place_order_service.go: what the validation lets through.
use native.Mathlib.Nat.{div-lt_iff_lt-mul}
use order_book_vibranium.Base.{
  ℕ, ◌*◌, ◌/◌, ◌≤◌, ◌<◌, ◌≡◌, refl, Bool, Bool-cases, ◌⊎◌, inl, inr, true, false, Option, none,
  some, arith,
}
use order_book_vibranium.Base.Int64
use order_book_vibranium.Base.Int64.{Int64, pos, pos_part, IsNat, half_range, max_int64}
use order_book_vibranium.Base.Run.{Result, ok, err}
use order_book_vibranium.Order.{Side, OrderType, Uuid, Time}
use order_book_vibranium.Store.{Failure, invalid_quantity, invalid_order_request}
use order_book_vibranium.Book.Invariant.{IsTraded}
use order_book_vibranium.Engine.Quantity.{div-mul-le}
use order_book_vibranium.Engine.Ready.{IsTaker, IsPriced}
use order_book_vibranium.Service.Place.{
  PlaceOrderInput, lacks_price, cost_overflows, has_price, mismatch, validate, order_of,
}

-- A price in the range of an int64, if there is one.
abbrev pub InRange : Option Int64 → Type 0
InRange none = Unit
InRange (some p) = pos_part p < half_range

-- The cost that is reserved for a BUY LIMIT order does not overflow.
abbrev pub CostFits : Side → OrderType → Option Int64 → Int64 → Type 0
CostFits Side.buy OrderType.limit (some p) q = pos_part p * pos_part q < half_range
CostFits _ _ _ q = Unit

-- A LIMIT order with a positive price, or a MARKET order without a price.
abbrev pub PricedAs : OrderType → Option Int64 → Type 0
PricedAs OrderType.limit (some p) = 0 < pos_part p
PricedAs OrderType.market none = Unit
PricedAs _ _ = ⊥

-- The side, type and price do not go together, or the cost overflows.
abbrev pub Mismatched : Side → OrderType → Option Int64 → Int64 → Type 0
Mismatched Side.buy OrderType.limit (some p) q =
    (pos_part p ≡ 0) ⊎ (half_range ≤ pos_part p * pos_part q)
Mismatched Side.sell OrderType.limit (some p) q = pos_part p ≡ 0
Mismatched Side.buy OrderType.market none q = ⊥
Mismatched Side.sell OrderType.market none q = ⊥
Mismatched _ _ _ q = Unit

abbrev pub Unfit : PlaceOrderInput → Failure → Type 0
Unfit input invalid_quantity = pos_part input.quantity ≡ 0
Unfit input invalid_order_request =
    Mismatched input.side input.order_type input.price_cents input.quantity
Unfit input _ = ⊥

-- How the validation ends.
abbrev pub Validates : Uuid → Time → PlaceOrderInput → Result Failure (Unit {0}) → Type 0
Validates id now input (ok tt) =
    IsTaker (order_of id now input)
    × CostFits input.side input.order_type input.price_cents input.quantity
    × PricedAs input.order_type input.price_cents
Validates id now input (err e) = Unfit input e

-- What the test of side, type and price says.
abbrev Mismatches : Side → OrderType → Option Int64 → Int64 → Bool → Type 0
Mismatches s t p q true = Mismatched s t p q
Mismatches s t p q false = IsTraded s × IsPriced t p × CostFits s t p q × PricedAs t p

quotient_fits : (p q : ℕ) → p ≤ 9223372036854775807 / q → p * q < half_range
quotient_fits p q h = let fits = div-mul-le 9223372036854775807 q p h in omega (arith, fits)

quotient_overflows : (p q : ℕ) → 0 < q → 9223372036854775807 / q < p → half_range ≤ p * q
quotient_overflows p q h k =
    let over : 9223372036854775807 < p * q = (div-lt_iff_lt-mul h).0 k in omega (arith, over)

buy_limit_lem :
    (p q : Int64)
    → 0 < pos_part q
    → pos_part p < half_range
    → Mismatches Side.buy OrderType.limit (some p) q (mismatch Side.buy OrderType.limit (some p) q)
unfolding mismatch lacks_price cost_overflows
buy_limit_lem p q h r =
    let quotient = Int64.quot_nat max_int64 q refl (ground arith) in
    elim (Bool-cases (Int64.lt (Int64.quot max_int64 q) p)) [
      | inl e ↦ ground (arith, quotient, quotient_overflows (pos_part p) (pos_part q) h)
      | inr e ↦ ground (arith, quotient, quotient_fits (pos_part p) (pos_part q))
    ]

mismatch-Mismatches :
    (s : Side) (t : OrderType) (p : Option Int64) (q : Int64)
    → 0 < pos_part q
    → InRange p
    → Mismatches s t p q (mismatch s t p q)
unfolding mismatch lacks_price has_price
mismatch-Mismatches Side.buy OrderType.limit (some p) q h r = buy_limit_lem p q h r
mismatch-Mismatches Side.buy OrderType.limit none q h r = tt
mismatch-Mismatches Side.sell OrderType.limit (some p) q h r = ground arith
mismatch-Mismatches Side.sell OrderType.limit none q h r = tt
mismatch-Mismatches Side.buy OrderType.market none q h r = (tt, tt, tt, tt)
mismatch-Mismatches Side.sell OrderType.market none q h r = (tt, tt, tt, tt)
mismatch-Mismatches Side.buy OrderType.market (some p) q h r = tt
mismatch-Mismatches Side.sell OrderType.market (some p) q h r = tt
mismatch-Mismatches Side.other t p q h r = ground arith
mismatch-Mismatches Side.buy OrderType.other p q h r = ground arith
mismatch-Mismatches Side.sell OrderType.other p q h r = ground arith

-- The validation of a request whose numbers are int64 values refuses a quantity that is not
-- positive, and a side, type and price that do not go together or whose cost overflows; what it
-- accepts is a LIMIT order with a positive price or a MARKET order without a price, it becomes an
-- order that Match can be called on, and the cost that is reserved for it does not overflow.
pub validate-Validates :
    (id : Uuid) (now : Time) (input : PlaceOrderInput)
    → pos_part input.quantity < half_range
    → InRange input.price_cents
    → Validates id now input (validate input)
unfolding validate order_of
validate-Validates id now input r p = elim (Bool-cases (Int64.le input.quantity (pos 0))) [
  | inl e ↦ rw e (ground arith)
  | inr e ↦
      let positive : 0 < pos_part input.quantity = ground arith in
      let m =
        mismatch-Mismatches input.side input.order_type input.price_cents input.quantity positive
          p in
      elim (Bool-cases (mismatch input.side input.order_type input.price_cents input.quantity)) [
        | inl f ↦ rw e (rw f (rw f at m))
        | inr f ↦
            let (traded, priced, fits, priced_as) = rw f at m in
            rw e (
              rw f (
                record {
                  valid = record {
                    quantity_nat = ground arith;
                    filled_nat = refl;
                    positive = positive;
                    in_range = r;
                    within = omega arith;
                    agrees = refl;
                  };
                  traded = traded;
                  priced = priced;
                },
                fits,
                priced_as,
              ))
      ]
]
