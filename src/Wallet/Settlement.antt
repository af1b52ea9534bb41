-- ===== src/Wallet/Settlement.antt =====
-- internal/domain/wallet/wallet.go: the two settlements of one trade.
use order_book_vibranium.Base.{◌+◌, ◌<◌, ◌≡◌, Bool, true, false, arith}
use order_book_vibranium.Base.Int64.{Int64, pos_part, half_range}
use order_book_vibranium.Base.Run.{ok}
use order_book_vibranium.Wallet.{Wallet}
use order_book_vibranium.Wallet.Accounting.{
  IsValid, Method, buy_limit, buy_market, sell, apply, apply-Moves, brl, vibranium, cost, Moves,
}

-- The settlement of the buyer, as applyNewOrder chooses it.
abbrev pub purchase : Bool → Int64 → Int64 → Method
purchase true p q = buy_market p q
purchase false p q = buy_limit p q

purchase-Moves :
    (market : Bool) (p q : Int64) (w : Wallet)
    → IsValid w
    → cost p q < half_range
    → pos_part q < half_range
    → vibranium w + pos_part q < half_range
    → Moves (purchase market p q) w (apply (purchase market p q) w)
purchase-Moves true p q w v f g h =
    apply-Moves (buy_market p q) w v (f, g) (omega (arith, v.brl_in_range)) h
purchase-Moves false p q w v f g h =
    apply-Moves (buy_limit p q) w v (f, g) (omega (arith, v.brl_in_range)) h

-- Where both settlements of a trade succeed on valid wallets of two users, with amounts that fit,
-- both wallets stay valid, and what the two hold together, of BRL and of Vibranium, is unchanged.
pub trade_conserves :
    (market : Bool) (p q : Int64) (buyer seller buyer' seller' : Wallet)
    → IsValid buyer
    → IsValid seller
    → cost p q < half_range
    → pos_part q < half_range
    → vibranium buyer + pos_part q < half_range
    → brl seller + cost p q < half_range
    → apply (purchase market p q) buyer ≡ ok buyer'
    → apply (sell p q) seller ≡ ok seller'
    → IsValid buyer'
      × IsValid seller'
      × (brl buyer' + brl seller' ≡ brl buyer + brl seller)
      × (vibranium buyer' + vibranium seller' ≡ vibranium buyer + vibranium seller)
trade_conserves true p q buyer seller buyer' seller' vb vs f g room_b room_s eb es =
    let (valid_b, same_b, brl_b, vib_b, _) =
      rw eb at (purchase-Moves true p q buyer vb f g room_b) in
    let (valid_s, same_s, brl_s, vib_s, _) =
      rw es at
        (apply-Moves (sell p q) seller vs (f, g) room_s (omega (arith, vs.vibranium_in_range))) in
    (valid_b, valid_s, omega (arith, brl_b, brl_s), omega (arith, vib_b, vib_s))
trade_conserves false p q buyer seller buyer' seller' vb vs f g room_b room_s eb es =
    let (valid_b, same_b, brl_b, vib_b, _) =
      rw eb at (purchase-Moves false p q buyer vb f g room_b) in
    let (valid_s, same_s, brl_s, vib_s, _) =
      rw es at
        (apply-Moves (sell p q) seller vs (f, g) room_s (omega (arith, vs.vibranium_in_range))) in
    (valid_b, valid_s, omega (arith, brl_b, brl_s), omega (arith, vib_b, vib_s))
