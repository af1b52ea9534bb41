-- ===== src/Matcher/Supply/Events.antt =====
-- internal/application/matcherapp/consumer_loop.go: what applying a message moves between users.
use order_book_vibranium.Base.{ℕ, refl, ◌&&◌, Option, none, some, arith}
use order_book_vibranium.Base.Int64
use order_book_vibranium.Base.Int64.{Int64, pos}
use order_book_vibranium.Order
use order_book_vibranium.Order.{Order, Uuid, Time, is_buy, is_sell}
use order_book_vibranium.Wallet
use order_book_vibranium.Wallet.Supply.{Asset}
use order_book_vibranium.Engine
use order_book_vibranium.Store
use order_book_vibranium.Store.{
  EventType, new_order, cancel_order, StreamEvent, Payload, encoded, malformed, Action, pure, raise,
  when, for_each, ◌>>=◌, ◌>>◌, exec, exec_rows,
}
use order_book_vibranium.Store.Repositories.{update_order, try_mark}
use order_book_vibranium.Matcher.{
  Readings, Message, load_wallet, change_wallet, match_on_book, available_funds, settle_trades,
  release_cancelled, apply_new_order, cancel_on_book, release_remaining, finish_cancel,
  apply_cancel, apply_type, apply_entry, apply_payload, apply_message, order_of_event,
  is_buy_market,
}
use order_book_vibranium.Matcher.Supply.Moves.{Shifts, Keeps-Shifts, load_wallet-Shifts}
use order_book_vibranium.Matcher.Supply.Trades.{
  still, if-Shifts, when-Shifts, for_each-Shifts, release_brl, release_vibranium,
  settle_trades-Shifts,
}

module _ (a : Asset) where
  update_order-Shifts : (now : Time) (o : Order) → Shifts a 0 0 (update_order now o)
  unfolding update_order exec
  update_order-Shifts now o = Keeps-Shifts a (update_order now o) (λ faults s. ground arith)

  match_on_book-Shifts :
      (clock : ℕ → Time) (o : Order) (funds : Option Int64)
      → Shifts a 0 0 (match_on_book clock o funds)
  unfolding match_on_book
  match_on_book-Shifts clock o funds =
      Keeps-Shifts a (match_on_book clock o funds) (λ faults s. ground arith)

  available_funds-Shifts : (o : Order) → Shifts a 0 0 (available_funds o)
  unfolding available_funds
  available_funds-Shifts o =
      let funds = load_wallet o.user_id >>= λ w. pure (some (Wallet.available_brl_cents w)) in
      if-Shifts a 0 0 (is_buy_market o) funds (pure none)
        (still a (load_wallet o.user_id) (λ w. pure (some (Wallet.available_brl_cents w)))
          (load_wallet-Shifts a o.user_id)
          (λ w. Keeps-Shifts a (pure (some (Wallet.available_brl_cents w))) (λ faults s. refl)))
        (Keeps-Shifts a (pure none) (λ faults s. refl))

  release_cancelled-Shifts : (o : Order) (n : Int64) → Shifts a 0 0 (release_cancelled o n)
  unfolding release_cancelled
  release_cancelled-Shifts o n =
      let release = change_wallet o.user_id (Wallet.release_vibranium_reservation n) in
      when-Shifts a (Int64.lt (pos 0) n && is_sell o.side) (load_wallet o.user_id >>= λ _. release)
        (still a (load_wallet o.user_id) (λ _. release) (load_wallet-Shifts a o.user_id)
          (λ _. release_vibranium a o.user_id n))

  apply_new_order-Shifts : (r : Readings) (e : StreamEvent) → Shifts a 0 0 (apply_new_order r e)
  unfolding apply_new_order
  apply_new_order-Shifts r e =
      let o = order_of_event r.now e in
      let finish : Engine.MatchResult → Action (Unit {0}) =
        λ m. release_cancelled o m.cancelled_quantity >> update_order r.now m.incoming in
      let makers : Engine.MatchResult → Action (Unit {0}) =
        λ m. for_each m.touched_makers (update_order r.now) >> finish m in
      let settle : Engine.MatchResult → Action (Unit {0}) =
        λ m. settle_trades r 0 o m.trades >> makers m in
      still a (available_funds o) (λ funds. match_on_book r.clock o funds >>= settle)
        (available_funds-Shifts o)
        (λ funds.
          still a (match_on_book r.clock o funds) settle (match_on_book-Shifts r.clock o funds)
            (λ m.
              still a (settle_trades r 0 o m.trades) (λ _. makers m)
                (settle_trades-Shifts a r 0 o m.trades)
                (λ _.
                  still a (for_each m.touched_makers (update_order r.now)) (λ _. finish m)
                    (for_each-Shifts a m.touched_makers (update_order r.now)
                      (update_order-Shifts r.now))
                    (λ _.
                      still a (release_cancelled o m.cancelled_quantity)
                        (λ _. update_order r.now m.incoming)
                        (release_cancelled-Shifts o m.cancelled_quantity)
                        (λ _. update_order-Shifts r.now m.incoming)))))

  release_price-Shifts :
      (o : Order) (p : Option Int64)
      → Shifts a 0 0 (elim p as (λ _. Action (Unit {0})) [
        | none ↦ raise Store.panicked
        | some p ↦
            change_wallet o.user_id
              (Wallet.release_brl_reservation (Int64.mul p (Order.remaining o)))
      ])
  release_price-Shifts o none = Keeps-Shifts a (raise Store.panicked) (λ faults s. refl)
  release_price-Shifts o (some p) = release_brl a o.user_id (Int64.mul p (Order.remaining o))

  release_remaining-Shifts : (o : Order) → Shifts a 0 0 (release_remaining o)
  unfolding release_remaining
  release_remaining-Shifts o =
      let pay : Action (Unit {0}) = elim o.price_cents [
        | none ↦ raise Store.panicked
        | some p ↦
            change_wallet o.user_id
              (Wallet.release_brl_reservation (Int64.mul p (Order.remaining o)))
      ] in
      let give =
        change_wallet o.user_id (Wallet.release_vibranium_reservation (Order.remaining o)) in
      if-Shifts a 0 0 (is_buy o.side) (load_wallet o.user_id >>= λ _. pay)
        (load_wallet o.user_id >>= λ _. give)
        (still a (load_wallet o.user_id) (λ _. pay) (load_wallet-Shifts a o.user_id)
          (λ _. release_price-Shifts o o.price_cents))
        (still a (load_wallet o.user_id) (λ _. give) (load_wallet-Shifts a o.user_id)
          (λ _. release_vibranium a o.user_id (Order.remaining o)))

  finish_cancel-Shifts : (now : Time) (o : Option Order) → Shifts a 0 0 (finish_cancel now o)
  unfolding finish_cancel
  finish_cancel-Shifts now none = Keeps-Shifts a (pure tt) (λ faults s. refl)
  finish_cancel-Shifts now (some o) =
      still a (release_remaining o) (λ _. update_order now (Order.cancel now o))
        (release_remaining-Shifts o) (λ _. update_order-Shifts now (Order.cancel now o))

  apply_cancel-Shifts : (r : Readings) (e : StreamEvent) → Shifts a 0 0 (apply_cancel r e)
  unfolding apply_cancel cancel_on_book
  apply_cancel-Shifts r e =
      still a (cancel_on_book e.order_id) (finish_cancel r.now)
        (Keeps-Shifts a (cancel_on_book e.order_id) (λ faults s. refl)) (finish_cancel-Shifts r.now)

  apply_type-Shifts :
      (t : EventType) (r : Readings) (e : StreamEvent) → Shifts a 0 0 (apply_type t r e)
  unfolding apply_type
  apply_type-Shifts new_order r e = apply_new_order-Shifts r e
  apply_type-Shifts cancel_order r e = apply_cancel-Shifts r e
  apply_type-Shifts EventType.other r e = Keeps-Shifts a (pure tt) (λ faults s. refl)

  apply_payload-Shifts : (r : Readings) (p : Payload) → Shifts a 0 0 (apply_payload r p)
  unfolding apply_payload apply_entry
  apply_payload-Shifts r malformed = Keeps-Shifts a (pure tt) (λ faults s. refl)
  apply_payload-Shifts r (encoded e) = apply_type-Shifts e.event_type r e

  try_mark-Shifts : (id : ℕ) → Shifts a 0 0 (try_mark id)
  unfolding try_mark exec_rows
  try_mark-Shifts id = Keeps-Shifts a (try_mark id) (λ faults s. ground arith)

  pub apply_message-Shifts : (m : Message) → Shifts a 0 0 (apply_message m)
  unfolding apply_message
  apply_message-Shifts m =
      let payload = apply_payload m.readings m.payload in
      still a (try_mark m.id) (λ first. when first payload) (try_mark-Shifts m.id)
        (λ first. when-Shifts a first payload (apply_payload-Shifts m.readings m.payload))
