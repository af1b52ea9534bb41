-- ===== src/Wallet.antt =====
-- internal/domain/wallet/wallet.go: one user's balances. A method returns the new wallet, or the
-- error, before which it has changed nothing.
pub mod Accounting
pub mod Reservation
pub mod Settlement
pub mod Supply
use order_book_vibranium.Base.{◌||◌, if◌then◌else◌}
use order_book_vibranium.Base.Int64
use order_book_vibranium.Base.Int64.{Int64, pos}
use order_book_vibranium.Base.Run.{Result, ok, err}
use order_book_vibranium.Order.{Uuid}

pub data WalletError : Type 0 where
  insufficient_brl insufficient_vibranium invalid_amount release_exceeds_reserve : WalletError

pub record Wallet : Type 0 where
  pub user_id : Uuid
  pub balance_brl_cents : Int64
  pub reserved_brl_cents : Int64
  pub balance_vibranium : Int64
  pub reserved_vibranium : Int64

unfoldable pub available_brl_cents : Wallet → Int64
available_brl_cents w = Int64.sub w.balance_brl_cents w.reserved_brl_cents

unfoldable pub available_vibranium : Wallet → Int64
available_vibranium w = Int64.sub w.balance_vibranium w.reserved_vibranium

unfoldable pub reserve_brl : Int64 → Wallet → Result WalletError Wallet
unfolding available_brl_cents
reserve_brl amount_cents w =
    if Int64.le amount_cents (pos 0)
    then err invalid_amount
    else if Int64.lt (available_brl_cents w) amount_cents
    then err insufficient_brl
    else ok (record w {
      balance_brl_cents = Int64.sub w.balance_brl_cents amount_cents;
      reserved_brl_cents = Int64.add w.reserved_brl_cents amount_cents;
    })

unfoldable pub reserve_vibranium : Int64 → Wallet → Result WalletError Wallet
unfolding available_vibranium
reserve_vibranium qty w =
    if Int64.le qty (pos 0)
    then err invalid_amount
    else if Int64.lt (available_vibranium w) qty
    then err insufficient_vibranium
    else ok (record w {
      balance_vibranium = Int64.sub w.balance_vibranium qty;
      reserved_vibranium = Int64.add w.reserved_vibranium qty;
    })

unfoldable pub release_brl_reservation : Int64 → Wallet → Result WalletError Wallet
release_brl_reservation amount_cents w =
    if Int64.le amount_cents (pos 0)
    then err invalid_amount
    else if Int64.lt w.reserved_brl_cents amount_cents
    then err release_exceeds_reserve
    else ok (record w {
      reserved_brl_cents = Int64.sub w.reserved_brl_cents amount_cents;
      balance_brl_cents = Int64.add w.balance_brl_cents amount_cents;
    })

unfoldable pub release_vibranium_reservation : Int64 → Wallet → Result WalletError Wallet
release_vibranium_reservation qty w =
    if Int64.le qty (pos 0)
    then err invalid_amount
    else if Int64.lt w.reserved_vibranium qty
    then err release_exceeds_reserve
    else ok (record w {
      reserved_vibranium = Int64.sub w.reserved_vibranium qty;
      balance_vibranium = Int64.add w.balance_vibranium qty;
    })

unfoldable pub settle_buy_limit_fill : Int64 → Int64 → Wallet → Result WalletError Wallet
settle_buy_limit_fill price_cents qty w =
    let cost = Int64.mul price_cents qty in
    if Int64.le price_cents (pos 0) || Int64.le qty (pos 0)
    then err invalid_amount
    else if Int64.lt w.reserved_brl_cents cost
    then err release_exceeds_reserve
    else ok (record w {
      reserved_brl_cents = Int64.sub w.reserved_brl_cents cost;
      balance_vibranium = Int64.add w.balance_vibranium qty;
    })

unfoldable pub settle_buy_market_fill : Int64 → Int64 → Wallet → Result WalletError Wallet
settle_buy_market_fill price_cents qty w =
    let cost = Int64.mul price_cents qty in
    if Int64.le price_cents (pos 0) || Int64.le qty (pos 0)
    then err invalid_amount
    else if Int64.lt w.balance_brl_cents cost
    then err insufficient_brl
    else ok (record w {
      balance_brl_cents = Int64.sub w.balance_brl_cents cost;
      balance_vibranium = Int64.add w.balance_vibranium qty;
    })

unfoldable pub settle_sell_fill : Int64 → Int64 → Wallet → Result WalletError Wallet
settle_sell_fill price_cents qty w =
    if Int64.le price_cents (pos 0) || Int64.le qty (pos 0)
    then err invalid_amount
    else if Int64.lt w.reserved_vibranium qty
    then err release_exceeds_reserve
    else ok (record w {
      reserved_vibranium = Int64.sub w.reserved_vibranium qty;
      balance_brl_cents = Int64.add w.balance_brl_cents (Int64.mul price_cents qty);
    })
