-- ===== src/Wallet/Accounting.antt =====
-- internal/domain/wallet/wallet.go: the invariant of a wallet, and what each method moves.
use order_book_vibranium.Base.{ℕ, ◌+◌, ◌*◌, ◌<◌, ◌≤◌, ◌≡◌, ◌⊎◌, arith}
use order_book_vibranium.Base.Int64
use order_book_vibranium.Base.Int64.{Int64, pos, negsuc, pos_part, neg_part, IsNat, half_range}
use order_book_vibranium.Base.Run.{Result, ok, err}
use order_book_vibranium.Wallet.{
  Wallet, WalletError, insufficient_brl, insufficient_vibranium, invalid_amount,
  release_exceeds_reserve, reserve_brl, reserve_vibranium, release_brl_reservation,
  release_vibranium_reservation, settle_buy_limit_fill, settle_buy_market_fill, settle_sell_fill,
}

-- What a wallet holds of each asset, available or reserved.
abbrev pub brl : Wallet → ℕ
brl w = pos_part w.balance_brl_cents + pos_part w.reserved_brl_cents

abbrev pub vibranium : Wallet → ℕ
vibranium w = pos_part w.balance_vibranium + pos_part w.reserved_vibranium

-- The CHECK constraints of the wallets table, and holdings that an int64 can hold.
pub record IsValid (w : Wallet) : Type 0 where
  pub balance_brl_nat : IsNat w.balance_brl_cents
  pub reserved_brl_nat : IsNat w.reserved_brl_cents
  pub balance_vibranium_nat : IsNat w.balance_vibranium
  pub reserved_vibranium_nat : IsNat w.reserved_vibranium
  pub brl_in_range : brl w < half_range
  pub vibranium_in_range : vibranium w < half_range

-- A call of one of the methods that change a wallet.
pub data Method : Type 0 where
  reserve_brl_of reserve_vibranium_of release_brl_of release_vibranium_of : Int64 → Method
  buy_limit buy_market sell : Int64 → Int64 → Method

unfoldable pub apply : Method → Wallet → Result WalletError Wallet
apply (reserve_brl_of x) = reserve_brl x
apply (reserve_vibranium_of x) = reserve_vibranium x
apply (release_brl_of x) = release_brl_reservation x
apply (release_vibranium_of x) = release_vibranium_reservation x
apply (buy_limit p q) = settle_buy_limit_fill p q
apply (buy_market p q) = settle_buy_market_fill p q
apply (sell p q) = settle_sell_fill p q

abbrev pub cost : Int64 → Int64 → ℕ
cost p q = pos_part p * pos_part q

-- What a call pays out of the wallet and into it, of BRL and of Vibranium.
pub record Flow : Type 0 where
  pub brl_out : ℕ
  pub brl_in : ℕ
  pub vibranium_out : ℕ
  pub vibranium_in : ℕ

abbrev pub still : Flow
still = record { brl_out = 0; brl_in = 0; vibranium_out = 0; vibranium_in = 0 }

abbrev pub flow : Method → Flow
flow (buy_limit p q) = record still { brl_out = cost p q; vibranium_in = pos_part q }
flow (buy_market p q) = record still { brl_out = cost p q; vibranium_in = pos_part q }
flow (sell p q) = record still { brl_in = cost p q; vibranium_out = pos_part q }
flow _ = still

-- The amounts of a call are int64 values whose product does not overflow.
abbrev pub Fits : Method → Type 0
Fits (reserve_brl_of x) = pos_part x < half_range
Fits (reserve_vibranium_of x) = pos_part x < half_range
Fits (release_brl_of x) = pos_part x < half_range
Fits (release_vibranium_of x) = pos_part x < half_range
Fits (buy_limit p q) = (cost p q < half_range) × (pos_part q < half_range)
Fits (buy_market p q) = (cost p q < half_range) × (pos_part q < half_range)
Fits (sell p q) = (cost p q < half_range) × (pos_part q < half_range)

-- Why a call is refused, with each error.
abbrev pub Refuses : Method → Wallet → WalletError → Type 0
Refuses (reserve_brl_of x) w invalid_amount = pos_part x ≡ 0
Refuses (reserve_brl_of x) w insufficient_brl =
    pos_part w.balance_brl_cents < pos_part w.reserved_brl_cents + pos_part x
Refuses (reserve_vibranium_of x) w invalid_amount = pos_part x ≡ 0
Refuses (reserve_vibranium_of x) w insufficient_vibranium =
    pos_part w.balance_vibranium < pos_part w.reserved_vibranium + pos_part x
Refuses (release_brl_of x) w invalid_amount = pos_part x ≡ 0
Refuses (release_brl_of x) w release_exceeds_reserve = pos_part w.reserved_brl_cents < pos_part x
Refuses (release_vibranium_of x) w invalid_amount = pos_part x ≡ 0
Refuses (release_vibranium_of x) w release_exceeds_reserve =
    pos_part w.reserved_vibranium < pos_part x
Refuses (buy_limit p q) w invalid_amount = (pos_part p ≡ 0) ⊎ (pos_part q ≡ 0)
Refuses (buy_limit p q) w release_exceeds_reserve = pos_part w.reserved_brl_cents < cost p q
Refuses (buy_market p q) w invalid_amount = (pos_part p ≡ 0) ⊎ (pos_part q ≡ 0)
Refuses (buy_market p q) w insufficient_brl = pos_part w.balance_brl_cents < cost p q
Refuses (sell p q) w invalid_amount = (pos_part p ≡ 0) ⊎ (pos_part q ≡ 0)
Refuses (sell p q) w release_exceeds_reserve = pos_part w.reserved_vibranium < pos_part q
Refuses _ w _ = ⊥

-- When a call is accepted: a positive amount that is there to reserve, release or pay.
abbrev pub Accepts : Method → Wallet → Type 0
Accepts (reserve_brl_of x) w =
    (0 < pos_part x) × (pos_part w.reserved_brl_cents + pos_part x ≤ pos_part w.balance_brl_cents)
Accepts (reserve_vibranium_of x) w =
    (0 < pos_part x) × (pos_part w.reserved_vibranium + pos_part x ≤ pos_part w.balance_vibranium)
Accepts (release_brl_of x) w = (0 < pos_part x) × (pos_part x ≤ pos_part w.reserved_brl_cents)
Accepts (release_vibranium_of x) w = (0 < pos_part x) × (pos_part x ≤ pos_part w.reserved_vibranium)
Accepts (buy_limit p q) w =
    (0 < pos_part p) × (0 < pos_part q) × (cost p q ≤ pos_part w.reserved_brl_cents)
Accepts (buy_market p q) w =
    (0 < pos_part p) × (0 < pos_part q) × (cost p q ≤ pos_part w.balance_brl_cents)
Accepts (sell p q) w =
    (0 < pos_part p) × (0 < pos_part q) × (pos_part q ≤ pos_part w.reserved_vibranium)

-- How a call ends.
abbrev pub Moves : Method → Wallet → Result WalletError Wallet → Type 0
Moves m w (ok w') =
    IsValid w'
    × (w'.user_id ≡ w.user_id)
    × (brl w' + (flow m).brl_out ≡ brl w + (flow m).brl_in)
    × (vibranium w' + (flow m).vibranium_out ≡ vibranium w + (flow m).vibranium_in)
    × Accepts m w
Moves m w (err e) = Refuses m w e

module _ (w : Wallet) (v : IsValid w) where
  module _ (x : Int64) (h : pos_part x < half_range) where
    reserve_brl-Moves : Moves (reserve_brl_of x) w (reserve_brl x w)
    unfolding reserve_brl
    reserve_brl-Moves = ground (
      arith,
      Int64.sub_signed w.balance_brl_cents w.reserved_brl_cents,
      Int64.sub_nat w.balance_brl_cents x,
      Int64.add_nat w.reserved_brl_cents x,
    )

    reserve_vibranium-Moves : Moves (reserve_vibranium_of x) w (reserve_vibranium x w)
    unfolding reserve_vibranium
    reserve_vibranium-Moves = ground (
      arith,
      Int64.sub_signed w.balance_vibranium w.reserved_vibranium,
      Int64.sub_nat w.balance_vibranium x,
      Int64.add_nat w.reserved_vibranium x,
    )

    release_brl-Moves : Moves (release_brl_of x) w (release_brl_reservation x w)
    unfolding release_brl_reservation
    release_brl-Moves =
        ground (arith, Int64.sub_nat w.reserved_brl_cents x, Int64.add_nat w.balance_brl_cents x)

    release_vibranium-Moves : Moves (release_vibranium_of x) w (release_vibranium_reservation x w)
    unfolding release_vibranium_reservation
    release_vibranium-Moves =
        ground (arith, Int64.sub_nat w.reserved_vibranium x, Int64.add_nat w.balance_vibranium x)

  module _ (p q : Int64) (fits : (cost p q < half_range) × (pos_part q < half_range)) where
    buy_limit-Moves :
        vibranium w + pos_part q < half_range
        → Moves (buy_limit p q) w (settle_buy_limit_fill p q w)
    unfolding settle_buy_limit_fill
    buy_limit-Moves room = ground (
      arith,
      Int64.mul_nat p q,
      Int64.sub_nat w.reserved_brl_cents (pos (cost p q)),
      Int64.add_nat w.balance_vibranium q,
    )

    buy_market-Moves :
        vibranium w + pos_part q < half_range
        → Moves (buy_market p q) w (settle_buy_market_fill p q w)
    unfolding settle_buy_market_fill
    buy_market-Moves room = ground (
      arith,
      Int64.mul_nat p q,
      Int64.sub_nat w.balance_brl_cents (pos (cost p q)),
      Int64.add_nat w.balance_vibranium q,
    )

    sell-Moves : brl w + cost p q < half_range → Moves (sell p q) w (settle_sell_fill p q w)
    unfolding settle_sell_fill
    sell-Moves room = ground (
      arith,
      Int64.mul_nat p q,
      Int64.sub_nat w.reserved_vibranium q,
      Int64.add_nat w.balance_brl_cents (pos (cost p q)),
    )

-- Every method, on a valid wallet with amounts that fit and room for what comes in, is refused
-- only for one of the reasons that `Refuses` lists, and accepted only if the amounts are positive
-- and are there to reserve, release or pay, so if none of these reasons holds; an accepted call
-- keeps the wallet valid and the owner's, and changes what the wallet holds, available and reserved together, by exactly the flow of the call:
-- reservations and releases change nothing, a purchase pays price times quantity for the quantity,
-- a sale the reverse.
pub apply-Moves :
    (m : Method) (w : Wallet)
    → IsValid w
    → Fits m
    → brl w + (flow m).brl_in < half_range
    → vibranium w + (flow m).vibranium_in < half_range
    → Moves m w (apply m w)
unfolding apply
apply-Moves (reserve_brl_of x) w v f g h = reserve_brl-Moves w v x f
apply-Moves (reserve_vibranium_of x) w v f g h = reserve_vibranium-Moves w v x f
apply-Moves (release_brl_of x) w v f g h = release_brl-Moves w v x f
apply-Moves (release_vibranium_of x) w v f g h = release_vibranium-Moves w v x f
apply-Moves (buy_limit p q) w v f g h = buy_limit-Moves w v p q f h
apply-Moves (buy_market p q) w v f g h = buy_market-Moves w v p q f h
apply-Moves (sell p q) w v f g h = sell-Moves w v p q f g
