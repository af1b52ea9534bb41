-- ===== src/Tests/Orders.antt =====
-- internal/domain/order/order.go: orders for the tests.
use order_book_vibranium.Base.{◌≡◌, refl, ◌⊎◌, some, true, false, arith, if◌then◌else◌}
use order_book_vibranium.Base.Int64
use order_book_vibranium.Base.Int64.{Int64, pos}
use order_book_vibranium.Base.Run.{ok}
use order_book_vibranium.Order.{
  Order, Side, OrderType, open_, partially_filled, cancelled, fill, cancel, is_done, remaining,
}
use order_book_vibranium.Order.Lifecycle.{IsValid, Fills, fill-Fills, cancel_absorbs}

-- A new order of a user.
abbrev pub new_order : Side → OrderType → Order
new_order s t = record {
  id = 7;
  user_id = 70;
  side = s;
  order_type = t;
  price_cents = some (pos 100);
  quantity = pos 5;
  filled_quantity = pos 0;
  status = open_;
  created_at = 1;
  updated_at = 1;
}

pub new_order-IsValid : (s : Side) (t : OrderType) → IsValid (new_order s t)
new_order-IsValid s t = record {
  quantity_nat = refl;
  filled_nat = refl;
  positive = omega arith;
  in_range = omega arith;
  within = omega arith;
  agrees = refl;
}

-- A SELL LIMIT order of another user, to rest at 100.
abbrev pub resting_ask : Order
resting_ask = record (new_order Side.sell OrderType.limit) {
  id = 3;
  user_id = 30;
  quantity = pos 2;
}

pub resting_ask-IsValid : IsValid resting_ask
resting_ask-IsValid = record {
  quantity_nat = refl;
  filled_nat = refl;
  positive = omega arith;
  in_range = omega arith;
  within = omega arith;
  agrees = refl;
}

fill_twice :
    fill 9 (pos 2) (new_order Side.buy OrderType.limit)
    ≡ ok (record (new_order Side.buy OrderType.limit) {
      filled_quantity = pos 2;
      status = partially_filled;
      updated_at = 9;
    })
unfolding fill Int64.sub Int64.add
fill_twice = refl

fill-Fills_example :
    Fills 9
      (pos 5)
      (new_order Side.buy OrderType.limit)
      (fill 9 (pos 5) (new_order Side.buy OrderType.limit))
fill-Fills_example =
    fill-Fills 9 (pos 5) (new_order Side.buy OrderType.limit)
      (new_order-IsValid Side.buy OrderType.limit)

cancel_absorbs_example :
    (is_done (cancel 4 resting_ask) ≡ true)
    × ((cancel 4 resting_ask).status ≡ (if is_done resting_ask then open_ else cancelled))
    × (remaining (cancel 4 resting_ask) ≡ remaining resting_ask)
    × (cancel 8 (cancel 4 resting_ask) ≡ cancel 4 resting_ask)
    × ((is_done resting_ask ≡ true) × (cancel 4 resting_ask ≡ resting_ask)
        ⊎ (is_done resting_ask ≡ false) × ((cancel 4 resting_ask).status ≡ cancelled))
cancel_absorbs_example = cancel_absorbs 4 8 resting_ask
