-- ===== src/Order/Lifecycle.antt =====
-- internal/domain/order/order.go: the invariant of an order, and what Fill and Cancel do to it.
use order_book_vibranium.Base.{ℕ, ◌+◌, ◌-◌, ◌≤◌, ◌<◌, ◌≡◌, ◌⊎◌, true, false, arith, if◌then◌else◌}
use order_book_vibranium.Base.Int64
use order_book_vibranium.Base.Int64.{Int64, pos, pos_part, neg_part, IsNat, half_range}
use order_book_vibranium.Base.Run.{Result, ok, err}
use order_book_vibranium.Order.{
  Order, Time, Status, open_, partially_filled, filled, cancelled, cancel_queued, OrderError,
  fill_exceeds_remaining, invalid_quantity, remaining, is_done, fill, cancel,
}

-- What the status says of the filled quantity `f` of `q`.
abbrev pub Agrees : Status → ℕ → ℕ → Type 0
Agrees open_ f q = f ≡ 0
Agrees partially_filled f q = (0 < f) × (f < q)
Agrees filled f q = f ≡ q
Agrees cancelled f q = f ≤ q
Agrees cancel_queued f q = ⊥

-- An order as the program stores it: a positive quantity, no more filled than ordered, and a
-- status that agrees with the filled quantity.
pub record IsValid (o : Order) : Type 0 where
  pub quantity_nat : IsNat o.quantity
  pub filled_nat : IsNat o.filled_quantity
  pub positive : 0 < pos_part o.quantity
  pub in_range : pos_part o.quantity < half_range
  pub within : pos_part o.filled_quantity ≤ pos_part o.quantity
  pub agrees : Agrees o.status (pos_part o.filled_quantity) (pos_part o.quantity)

-- The quantity left to fill, as a number.
abbrev pub left : Order → ℕ
left o = pos_part o.quantity - pos_part o.filled_quantity

pub remaining-eq-left : (o : Order) → IsValid o → remaining o ≡ pos (left o)
unfolding remaining
remaining-eq-left o v =
    Int64.sub_nat o.quantity o.filled_quantity v.quantity_nat v.filled_nat v.within v.in_range

-- How a fill ends: what it changes, or why it is refused.
abbrev pub Fills : Time → Int64 → Order → Result OrderError Order → Type 0
Fills now qty o (ok o') =
    IsValid o'
    × (0 < pos_part qty)
    × (left o' + pos_part qty ≡ left o)
    × (o'.quantity ≡ o.quantity)
    × (o'.id ≡ o.id)
    × (o'.updated_at ≡ now)
    × ((o'.status ≡ filled) × (left o' ≡ 0) ⊎ (o'.status ≡ partially_filled) × (0 < left o'))
Fills now qty o (err invalid_quantity) = Int64.le qty (pos 0) ≡ true
Fills now qty o (err fill_exceeds_remaining) = left o < pos_part qty

module _ (now : Time) (qty : Int64) (o : Order) (v : IsValid o) where
  filled_more :
      0 < pos_part qty
      → IsNat qty
      → pos_part qty ≤ left o
      → Int64.add o.filled_quantity qty ≡ pos (pos_part o.filled_quantity + pos_part qty)
  filled_more p n h =
      Int64.add_nat o.filled_quantity qty v.filled_nat n (omega (arith, v.in_range, v.within))

  -- On an order that is valid, Fill is refused exactly for a quantity that is not positive or that
  -- exceeds what remains; otherwise it keeps the order valid, takes exactly the quantity off what
  -- remains, and sets the status to FILLED exactly when nothing remains.
  pub fill-Fills : Fills now qty o (fill now qty o)
  unfolding fill
  fill-Fills = ground (
    arith,
    Int64.sub_nat o.quantity o.filled_quantity v.quantity_nat v.filled_nat v.within v.in_range,
    filled_more,
    Int64.sub_nat o.quantity (pos (pos_part o.filled_quantity + pos_part qty)) v.quantity_nat,
  )

-- Cancel of a done order is the order as it was, and any other gets the status CANCELLED; the result is
-- done, what remains does not change, and a second Cancel at any time changes nothing.
pub cancel_absorbs :
    (now later : Time) (o : Order)
    → (is_done (cancel now o) ≡ true)
      × ((cancel now o).status ≡ (if is_done o then o.status else cancelled))
      × (remaining (cancel now o) ≡ remaining o)
      × (cancel later (cancel now o) ≡ cancel now o)
      × ((is_done o ≡ true) × (cancel now o ≡ o)
          ⊎ (is_done o ≡ false) × ((cancel now o).status ≡ cancelled))
unfolding cancel remaining
cancel_absorbs now later o = (ground arith, ground arith, ground arith, ground arith, ground arith)

pub cancel-IsValid : (now : Time) (o : Order) → IsValid o → IsValid (cancel now o)
unfolding cancel
cancel-IsValid now o v = ground arith
