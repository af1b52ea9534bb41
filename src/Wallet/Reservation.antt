-- ===== src/Wallet/Reservation.antt =====
-- internal/domain/wallet/wallet.go: reservations, their release, and the available balance.
use order_book_vibranium.Base.{◌+◌, ◌*◌, ◌<◌, ◌≡◌, arith}
use order_book_vibranium.Base.Int64
use order_book_vibranium.Base.Int64.{
  Int64, pos, negsuc, pos_part, neg_part, IsNat, sub_ℕ, half_range,
}
use order_book_vibranium.Base.Run.{ok}
use order_book_vibranium.Wallet.{
  Wallet, available_brl_cents, reserve_brl, reserve_vibranium, release_brl_reservation,
  release_vibranium_reservation,
}
use order_book_vibranium.Wallet.Accounting.{IsValid}

module _ (w : Wallet) {w' : Wallet} (v : IsValid w) (x : Int64) (h : pos_part x < half_range) where
  -- A release of what was reserved gives the wallet back as it was before the reservation.
  pub release-reserve_brl : reserve_brl x w ≡ ok w' → release_brl_reservation x w' ≡ ok w
  unfolding reserve_brl release_brl_reservation
  release-reserve_brl e = ground (
    arith,
    Int64.sub_signed w.balance_brl_cents w.reserved_brl_cents,
    Int64.sub_nat w.balance_brl_cents x,
    Int64.add_nat w.reserved_brl_cents x,
    Int64.sub_nat w'.reserved_brl_cents x,
    Int64.add_nat w'.balance_brl_cents x,
    Int64.pos-pos_part w.balance_brl_cents,
    Int64.pos-pos_part w.reserved_brl_cents,
  )

  -- The same of a reservation of Vibranium.
  pub release-reserve_vibranium :
      reserve_vibranium x w ≡ ok w' → release_vibranium_reservation x w' ≡ ok w
  unfolding reserve_vibranium release_vibranium_reservation
  release-reserve_vibranium e = ground (
    arith,
    Int64.sub_signed w.balance_vibranium w.reserved_vibranium,
    Int64.sub_nat w.balance_vibranium x,
    Int64.add_nat w.reserved_vibranium x,
    Int64.sub_nat w'.reserved_vibranium x,
    Int64.add_nat w'.balance_vibranium x,
    Int64.pos-pos_part w.balance_vibranium,
    Int64.pos-pos_part w.reserved_vibranium,
  )

  -- A reservation of an amount lowers the available balance by twice the amount, since it takes the
  -- amount off the balance and also adds it to the reservation that is taken off once more.
  pub available-reserve_brl :
      reserve_brl x w ≡ ok w'
      → available_brl_cents w'
        ≡ sub_ℕ (pos_part w.balance_brl_cents) (pos_part w.reserved_brl_cents + 2 * pos_part x)
  unfolding reserve_brl available_brl_cents
  available-reserve_brl e = ground (
    arith,
    Int64.sub_signed w.balance_brl_cents w.reserved_brl_cents,
    Int64.sub_nat w.balance_brl_cents x,
    Int64.add_nat w.reserved_brl_cents x,
    Int64.sub_signed w'.balance_brl_cents w'.reserved_brl_cents,
  )
