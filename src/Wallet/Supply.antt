-- ===== src/Wallet/Supply.antt =====
-- internal/domain/wallet/wallet.go: what the wallets hold together of an asset, as an int64 sum.
use order_book_vibranium.Base.{ℕ, ◌+◌, ◌%◌, ◌≡◌, List, [], ◌∷◌, arith, refl, sym, ◌∙◌}
use order_book_vibranium.Base.Int64
use order_book_vibranium.Base.Int64.{Int64, pos, full_range}
use order_book_vibranium.Base.Bits.{bits, bits-add, bits-sub, add-eq_of_bits}
use order_book_vibranium.Base.Run.{Result, ok, err}
use order_book_vibranium.Wallet.{
  Wallet, WalletError, reserve_brl, reserve_vibranium, release_brl_reservation,
  release_vibranium_reservation, settle_buy_limit_fill, settle_buy_market_fill, settle_sell_fill,
}

pub data Asset : Type 0 where
  real vibranium : Asset

-- What a wallet holds, available or reserved.
abbrev pub holding : Asset → Wallet → Int64
holding real w = Int64.add w.balance_brl_cents w.reserved_brl_cents
holding vibranium w = Int64.add w.balance_vibranium w.reserved_vibranium

-- What all of them hold.
unfoldable pub supply : Asset → List Wallet → Int64
supply a [] = pos 0
supply a (w ∷ ws) = Int64.add (holding a w) (supply a ws)

unfoldable pub units : Asset → Wallet → ℕ
units a w = bits (holding a w)

-- What a trade of `q` units at the price `p` takes from its buyer, and gives.
abbrev pub paid : Asset → Int64 → Int64 → ℕ
paid real p q = bits (Int64.mul p q)
paid vibranium p q = 0

abbrev pub got : Asset → Int64 → Int64 → ℕ
got real p q = 0
got vibranium p q = bits q

-- A method that succeeds keeps the owner, and changes what is held by `o` out and `i` in.
abbrev pub Flows : Asset → ℕ → ℕ → Wallet → Result WalletError Wallet → Type 0
Flows a o i w (err e) = Unit {0}
Flows a o i w (ok w') =
    (w'.user_id ≡ w.user_id) × ((units a w' + o) % full_range ≡ (units a w + i) % full_range)

module _ (w : Wallet) where
  open w use {balance_brl_cents, reserved_brl_cents, balance_vibranium, reserved_vibranium}

  units_real : units real w ≡ (bits balance_brl_cents + bits reserved_brl_cents) % full_range
  unfolding units
  units_real = bits-add balance_brl_cents reserved_brl_cents

  units_vibranium :
      units vibranium w ≡ (bits balance_vibranium + bits reserved_vibranium) % full_range
  unfolding units
  units_vibranium = bits-add balance_vibranium reserved_vibranium

ruleset sums = (arith, units_real, units_vibranium, bits-add, bits-sub)

module _ (x : Int64) (w : Wallet) where
  pub reserve_brl-Flows : (a : Asset) → Flows a 0 0 w (reserve_brl x w)
  unfolding reserve_brl
  reserve_brl-Flows real = grind sums
  reserve_brl-Flows vibranium = grind sums

  pub reserve_vibranium-Flows : (a : Asset) → Flows a 0 0 w (reserve_vibranium x w)
  unfolding reserve_vibranium
  reserve_vibranium-Flows real = grind sums
  reserve_vibranium-Flows vibranium = grind sums

  pub release_brl-Flows : (a : Asset) → Flows a 0 0 w (release_brl_reservation x w)
  unfolding release_brl_reservation
  release_brl-Flows real = grind sums
  release_brl-Flows vibranium = grind sums

  pub release_vibranium-Flows : (a : Asset) → Flows a 0 0 w (release_vibranium_reservation x w)
  unfolding release_vibranium_reservation
  release_vibranium-Flows real = grind sums
  release_vibranium-Flows vibranium = grind sums

module _ (p q : Int64) (w : Wallet) where
  pub buy_limit-Flows :
      (a : Asset) → Flows a (paid a p q) (got a p q) w (settle_buy_limit_fill p q w)
  unfolding settle_buy_limit_fill
  buy_limit-Flows real = grind sums
  buy_limit-Flows vibranium = grind sums

  pub buy_market-Flows :
      (a : Asset) → Flows a (paid a p q) (got a p q) w (settle_buy_market_fill p q w)
  unfolding settle_buy_market_fill
  buy_market-Flows real = grind sums
  buy_market-Flows vibranium = grind sums

  pub sell-Flows : (a : Asset) → Flows a (got a p q) (paid a p q) w (settle_sell_fill p q w)
  unfolding settle_sell_fill
  sell-Flows real = grind sums
  sell-Flows vibranium = grind sums

-- What all of the wallets hold, as a number that does not wrap around.
abbrev pub total : Asset → List Wallet → ℕ
total a [] = 0
total a (w ∷ ws) = units a w + total a ws

bits_zero : bits (pos 0) ≡ 0
unfolding bits
bits_zero = refl

zero_lem : Int64.add (pos 0) (pos 0) ≡ pos 0
unfolding Int64.add
zero_lem = refl

bits-supply : (a : Asset) (ws : List Wallet) → bits (supply a ws) ≡ total a ws % full_range
unfolding supply units
bits-supply a [] = omega (arith, bits_zero)
bits-supply a (w ∷ ws) = omega (arith, bits-add (holding a w) (supply a ws), bits-supply a ws)

pub supply-eq_of_total :
    (a : Asset) (ws vs : List Wallet)
    → total a ws % full_range ≡ total a vs % full_range
    → supply a ws ≡ supply a vs
unfolding supply units
supply-eq_of_total a [] [] h = refl
supply-eq_of_total a [] (v ∷ vs) h =
    sym zero_lem
    ∙ add-eq_of_bits (pos 0) (pos 0) (holding a v) (supply a vs)
        (omega (arith, bits_zero, bits-supply a vs, h))
supply-eq_of_total a (w ∷ ws) [] h =
    add-eq_of_bits (holding a w) (supply a ws) (pos 0) (pos 0)
      (omega (arith, bits_zero, bits-supply a ws, h))
    ∙ zero_lem
supply-eq_of_total a (w ∷ ws) (v ∷ vs) h =
    add-eq_of_bits (holding a w) (supply a ws) (holding a v) (supply a vs)
      (omega (arith, bits-supply a ws, bits-supply a vs, h))
