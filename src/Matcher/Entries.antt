-- ===== src/Matcher/Entries.antt =====
-- internal/application/matcherapp/consumer_loop.go: an entry that is applied leaves the marks
-- of processed entries as they are.
use order_book_vibranium.Base.{refl, ◌&&◌, Option, none, some}
use order_book_vibranium.Base.Int64
use order_book_vibranium.Base.Int64.{Int64, pos}
use order_book_vibranium.Order
use order_book_vibranium.Order.{Order, Uuid, Time, is_buy, is_sell, is_limit}
use order_book_vibranium.Wallet
use order_book_vibranium.Wallet.{Wallet, WalletError}
use order_book_vibranium.Engine
use order_book_vibranium.Engine.{match}
use order_book_vibranium.Store
use order_book_vibranium.Store.{
  Database, EventType, new_order, cancel_order, StreamEvent, Payload, encoded, malformed, Session,
  Faults, Fault, fine, failed, lost, Action, Failure, pure, raise, lift, or_raise, when, for_each,
  ◌>>=◌, ◌>>◌, query, exec,
}
use order_book_vibranium.Store.Repositories.{update_wallet, update_order}
use order_book_vibranium.Matcher.{
  Readings, load_wallet, change_wallet, match_on_book, available_funds, settle_trades,
  release_cancelled, apply_new_order, cancel_on_book, release_remaining, finish_cancel,
  apply_cancel, apply_type, apply_entry, apply_payload, flush_wallets, order_of_event,
}
use order_book_vibranium.Matcher.Frames.{
  Frames, >>=-Frames, when-Frames, if-Frames, for_each-Frames, load_wallet-Frames,
  change_wallet-Frames, update_wallet-Frames, update_order-Frames, match_on_book-Frames,
  available_funds-Frames, settle_trades-Frames,
}

release_cancelled-Frames : (o : Order) (n : Int64) → Frames (release_cancelled o n)
unfolding release_cancelled
release_cancelled-Frames o n =
    let release = change_wallet o.user_id (Wallet.release_vibranium_reservation n) in
    when-Frames (Int64.lt (pos 0) n && is_sell o.side) (load_wallet o.user_id >>= λ _. release) (
      >>=-Frames (load_wallet o.user_id) (λ _. release) (load_wallet-Frames o.user_id)
        (λ _. change_wallet-Frames o.user_id (Wallet.release_vibranium_reservation n)))

apply_new_order-Frames : (r : Readings) (e : StreamEvent) → Frames (apply_new_order r e)
unfolding apply_new_order
apply_new_order-Frames r e =
    let o = order_of_event r.now e in
    let finish : Engine.MatchResult → Action (Unit {0}) =
      λ m. release_cancelled o m.cancelled_quantity >> update_order r.now m.incoming in
    let makers : Engine.MatchResult → Action (Unit {0}) =
      λ m. for_each m.touched_makers (update_order r.now) >> finish m in
    let settle : Engine.MatchResult → Action (Unit {0}) =
      λ m. settle_trades r 0 o m.trades >> makers m in
    >>=-Frames (available_funds o) (λ funds. match_on_book r.clock o funds >>= settle)
      (available_funds-Frames o)
      (λ funds.
        >>=-Frames (match_on_book r.clock o funds) settle (match_on_book-Frames r.clock o funds)
          (λ m.
            >>=-Frames (settle_trades r 0 o m.trades) (λ _. makers m)
              (settle_trades-Frames r 0 o m.trades)
              (λ _.
                >>=-Frames (for_each m.touched_makers (update_order r.now)) (λ _. finish m)
                  (for_each-Frames m.touched_makers (update_order r.now)
                    (update_order-Frames r.now))
                  (λ _.
                    >>=-Frames (release_cancelled o m.cancelled_quantity)
                      (λ _. update_order r.now m.incoming)
                      (release_cancelled-Frames o m.cancelled_quantity)
                      (λ _. update_order-Frames r.now m.incoming)))))

release_price-Frames :
    (o : Order) (p : Option Int64)
    → Frames (elim p as (λ _. Action (Unit {0})) [
      | none ↦ raise Store.panicked
      | some p ↦
          change_wallet o.user_id (Wallet.release_brl_reservation (Int64.mul p (Order.remaining o)))
    ])
release_price-Frames o none faults s = refl
release_price-Frames o (some p) faults s =
    change_wallet-Frames o.user_id
      (Wallet.release_brl_reservation (Int64.mul p (Order.remaining o))) faults s

release_remaining-Frames : (o : Order) → Frames (release_remaining o)
unfolding release_remaining
release_remaining-Frames o =
    let pay : Action (Unit {0}) = elim o.price_cents [
      | none ↦ raise Store.panicked
      | some p ↦
          change_wallet o.user_id (Wallet.release_brl_reservation (Int64.mul p (Order.remaining o)))
    ] in
    let give = change_wallet o.user_id (Wallet.release_vibranium_reservation (Order.remaining o)) in
    if-Frames (is_buy o.side) (load_wallet o.user_id >>= λ _. pay)
      (load_wallet o.user_id >>= λ _. give)
      (>>=-Frames (load_wallet o.user_id) (λ _. pay) (load_wallet-Frames o.user_id)
        (λ _. release_price-Frames o o.price_cents))
      (>>=-Frames (load_wallet o.user_id) (λ _. give) (load_wallet-Frames o.user_id)
        (λ _.
          change_wallet-Frames o.user_id
            (Wallet.release_vibranium_reservation (Order.remaining o))))

finish_cancel-Frames : (now : Time) (o : Option Order) → Frames (finish_cancel now o)
unfolding finish_cancel
finish_cancel-Frames now none faults s = refl
finish_cancel-Frames now (some o) faults s =
    >>=-Frames (release_remaining o) (λ _. update_order now (Order.cancel now o))
      (release_remaining-Frames o) (λ _. update_order-Frames now (Order.cancel now o)) faults s

apply_cancel-Frames : (r : Readings) (e : StreamEvent) → Frames (apply_cancel r e)
unfolding apply_cancel cancel_on_book
apply_cancel-Frames r e =
    >>=-Frames (cancel_on_book e.order_id) (finish_cancel r.now) (λ faults s. refl)
      (finish_cancel-Frames r.now)

apply_type-Frames : (t : EventType) (r : Readings) (e : StreamEvent) → Frames (apply_type t r e)
unfolding apply_type
apply_type-Frames new_order r e faults s = apply_new_order-Frames r e faults s
apply_type-Frames cancel_order r e faults s = apply_cancel-Frames r e faults s
apply_type-Frames EventType.other r e faults s = refl

pub apply_payload-Frames : (r : Readings) (p : Payload) → Frames (apply_payload r p)
unfolding apply_payload apply_entry
apply_payload-Frames r malformed faults s = refl
apply_payload-Frames r (encoded e) faults s = apply_type-Frames e.event_type r e faults s

pub flush_wallets-Frames : Frames flush_wallets
unfolding flush_wallets
flush_wallets-Frames faults s =
    for_each-Frames s.cache (λ e. update_wallet e.1) (λ e. update_wallet-Frames e.1) faults s
