-- ===== src/Tests/Wallets.antt =====
-- internal/domain/wallet/wallet.go: a wallet for the tests.
use order_book_vibranium.Base.{◌+◌, ◌≡◌, refl, false, arith}
use order_book_vibranium.Base.Int64
use order_book_vibranium.Base.Int64.{Int64, pos, negsuc}
use order_book_vibranium.Base.Run.{ok}
use order_book_vibranium.Wallet.{
  Wallet, reserve_brl, reserve_vibranium, release_brl_reservation, release_vibranium_reservation,
  available_brl_cents, settle_buy_limit_fill, settle_sell_fill,
}
use order_book_vibranium.Wallet.Settlement.{purchase, trade_conserves}
use order_book_vibranium.Wallet.Accounting.{
  IsValid, brl, vibranium, Moves, sell, apply, apply-Moves,
}
use order_book_vibranium.Wallet.Reservation.{
  release-reserve_brl, release-reserve_vibranium, available-reserve_brl,
}

abbrev pub rich : Wallet
rich = record {
  user_id = 70;
  balance_brl_cents = pos 1000;
  reserved_brl_cents = pos 0;
  balance_vibranium = pos 50;
  reserved_vibranium = pos 10;
}

pub rich-IsValid : IsValid rich
rich-IsValid = record {
  balance_brl_nat = refl;
  reserved_brl_nat = refl;
  balance_vibranium_nat = refl;
  reserved_vibranium_nat = refl;
  brl_in_range = omega arith;
  vibranium_in_range = omega arith;
}

apply-Moves_example : Moves (sell (pos 100) (pos 3)) rich (apply (sell (pos 100) (pos 3)) rich)
apply-Moves_example =
    apply-Moves (sell (pos 100) (pos 3)) rich rich-IsValid (omega arith, omega arith) (omega arith)
      (omega arith)

abbrev reserved : Wallet
reserved = record rich { balance_brl_cents = pos 400; reserved_brl_cents = pos 600 }

reserve_rich : reserve_brl (pos 600) rich ≡ ok reserved
unfolding reserve_brl Int64.sub Int64.add
reserve_rich = refl

release-reserve_brl_example : release_brl_reservation (pos 600) reserved ≡ ok rich
release-reserve_brl_example =
    release-reserve_brl rich rich-IsValid (pos 600) (omega arith) reserve_rich

available-reserve_brl_example : available_brl_cents reserved ≡ negsuc 199
available-reserve_brl_example =
    available-reserve_brl rich rich-IsValid (pos 600) (omega arith) reserve_rich

abbrev reserved_vibranium : Wallet
reserved_vibranium = record rich { balance_vibranium = pos 30; reserved_vibranium = pos 30 }

reserve_rich_vibranium : reserve_vibranium (pos 20) rich ≡ ok reserved_vibranium
unfolding reserve_vibranium Int64.sub Int64.add
reserve_rich_vibranium = refl

release-reserve_vibranium_example :
    release_vibranium_reservation (pos 20) reserved_vibranium ≡ ok rich
release-reserve_vibranium_example =
    release-reserve_vibranium rich rich-IsValid (pos 20) (omega arith) reserve_rich_vibranium

-- A trade of three units at 100, paid out of a reservation.
abbrev paying : Wallet
paying = record rich { user_id = 30; reserved_brl_cents = pos 300 }

paying-IsValid : IsValid paying
paying-IsValid = record {
  balance_brl_nat = refl;
  reserved_brl_nat = refl;
  balance_vibranium_nat = refl;
  reserved_vibranium_nat = refl;
  brl_in_range = omega arith;
  vibranium_in_range = omega arith;
}

abbrev paid : Wallet
paid = record paying { reserved_brl_cents = pos 0; balance_vibranium = pos 53 }

abbrev sold : Wallet
sold = record rich { balance_brl_cents = pos 1300; reserved_vibranium = pos 7 }

pay : apply (purchase false (pos 100) (pos 3)) paying ≡ ok paid
unfolding apply settle_buy_limit_fill Int64.sub Int64.add Int64.mul
pay = refl

earn : apply (sell (pos 100) (pos 3)) rich ≡ ok sold
unfolding apply settle_sell_fill Int64.sub Int64.add Int64.mul
earn = refl

trade_conserves_example :
    IsValid paid
    × IsValid sold
    × (brl paid + brl sold ≡ brl paying + brl rich)
    × (vibranium paid + vibranium sold ≡ vibranium paying + vibranium rich)
trade_conserves_example =
    trade_conserves false (pos 100) (pos 3) paying rich paid sold paying-IsValid rich-IsValid
      (omega arith) (omega arith) (omega arith) (omega arith) pay earn
