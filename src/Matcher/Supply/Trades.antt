-- ===== src/Matcher/Supply/Trades.antt =====
-- internal/application/matcherapp/consumer_loop.go: the settlement of trades, and the releases.
use order_book_vibranium.Base.{
  ℕ, suc, ◌+◌, ◌≡◌, refl, Bool, true, false, ◌&&◌, Option, none, some, List, [], ◌∷◌, if◌then◌else◌,
  arith,
}
use order_book_vibranium.Base.Int64
use order_book_vibranium.Base.Int64.{Int64, pos, full_range}
use order_book_vibranium.Base.Run.{Result}
use order_book_vibranium.Order.{Order, Uuid, Time, is_buy, is_limit}
use order_book_vibranium.Wallet
use order_book_vibranium.Wallet.{Wallet, WalletError}
use order_book_vibranium.Wallet.Supply.{
  Asset, paid, got, buy_limit-Flows, buy_market-Flows, sell-Flows, release_brl-Flows,
  release_vibranium-Flows,
}
use order_book_vibranium.Trade
use order_book_vibranium.Engine
use order_book_vibranium.Store
use order_book_vibranium.Store.{
  Session, Faults, Action, Failure, pure, raise, lift, when, for_each, ◌>>=◌, ◌>>◌, exec,
}
use order_book_vibranium.Store.Repositories.{insert_trade}
use order_book_vibranium.Matcher.{
  Readings, load_wallet, change_wallet, release_improvement, settle_buyer, settle_trade,
  settle_trades, is_buy_market,
}
use order_book_vibranium.Matcher.Supply.Moves.{
  Shifts, >>=-Shifts, Keeps-Shifts, load_wallet-Shifts, change_wallet-Shifts,
}

module _ (a : Asset) where
  -- The same change, written differently.
  pub restated :
      {A : Type 0} (o i o' i' : ℕ) (m : Action A)
      → Shifts a o i m
      → o + i' ≡ o' + i
      → Shifts a o' i' m
  restated o i o' i' m h e faults s x t sound k =
      let (sound_t, moved) = h faults s x t sound k in (sound_t, omega (arith, moved, e))

  pub still :
      {A B : Type 0} (m : Action A) (f : A → Action B)
      → Shifts a 0 0 m
      → ((x : A) → Shifts a 0 0 (f x))
      → Shifts a 0 0 (m >>= f)
  still m f hm hf =
      restated (0 + 0) (0 + 0) 0 0 (m >>= f) (>>=-Shifts a 0 0 0 0 m f hm hf) (omega arith)

  pub when-Shifts : (b : Bool) (m : Action (Unit {0})) → Shifts a 0 0 m → Shifts a 0 0 (when b m)
  when-Shifts true m h = h
  when-Shifts false m h = Keeps-Shifts a (pure tt) (λ faults s. refl)

  pub if-Shifts :
      {A : Type 0} (o i : ℕ) (b : Bool) (m n : Action A)
      → Shifts a o i m
      → Shifts a o i n
      → Shifts a o i (if b then m else n)
  if-Shifts o i true m n h k = h
  if-Shifts o i false m n h k = k

  pub for_each-Shifts :
      {A : Type 0} (xs : List A) (f : A → Action (Unit {0}))
      → ((x : A) → Shifts a 0 0 (f x))
      → Shifts a 0 0 (for_each xs f)
  unfolding for_each
  for_each-Shifts [] f h = Keeps-Shifts a (pure tt) (λ faults s. refl)
  for_each-Shifts (x ∷ xs) f h =
      still (f x) (λ _. for_each xs f) (h x) (λ _. for_each-Shifts xs f h)

  pub lift-Shifts : {A E : Type 0} (f : E → Failure) (r : Result E A) → Shifts a 0 0 (lift f r)
  lift-Shifts f (Result.ok x) = Keeps-Shifts a (pure x) (λ faults s. refl)
  lift-Shifts f (Result.err e) = Keeps-Shifts a (raise (f e)) (λ faults s. refl)

  pub release_brl :
      (id : Uuid) (x : Int64) → Shifts a 0 0 (change_wallet id (Wallet.release_brl_reservation x))
  release_brl id x =
      change_wallet-Shifts a 0 0 id (Wallet.release_brl_reservation x)
        (λ w. release_brl-Flows x w a)

  pub release_vibranium :
      (id : Uuid) (x : Int64)
      → Shifts a 0 0 (change_wallet id (Wallet.release_vibranium_reservation x))
  release_vibranium id x =
      change_wallet-Shifts a 0 0 id (Wallet.release_vibranium_reservation x)
        (λ w. release_vibranium-Flows x w a)

  release_improvement-Shifts :
      (p : Option Int64) (tr : Engine.Trade) → Shifts a 0 0 (release_improvement p tr)
  unfolding release_improvement
  release_improvement-Shifts none tr = Keeps-Shifts a (raise Store.panicked) (λ faults s. refl)
  release_improvement-Shifts (some p) tr =
      let improvement = Int64.mul (Int64.sub p tr.price_cents) tr.quantity in
      when-Shifts (Int64.lt (pos 0) improvement)
        (change_wallet tr.buyer_user_id (Wallet.release_brl_reservation improvement))
        (release_brl tr.buyer_user_id improvement)

  module _ (o : Order) (tr : Engine.Trade) where
    open tr use {price_cents, quantity, buyer_user_id, seller_user_id}

    abbrev out : ℕ
    out = paid a price_cents quantity

    abbrev in_ : ℕ
    in_ = got a price_cents quantity

    settle_market :
        Shifts a out in_
          (change_wallet buyer_user_id (Wallet.settle_buy_market_fill price_cents quantity))
    settle_market =
        change_wallet-Shifts a out in_ buyer_user_id
          (Wallet.settle_buy_market_fill price_cents quantity)
          (λ w. buy_market-Flows price_cents quantity w a)

    settle_limit : Shifts a (out + 0) (in_ + 0) (
        change_wallet buyer_user_id (Wallet.settle_buy_limit_fill price_cents quantity)
        >> when (is_buy o.side && is_limit o.order_type) (release_improvement o.price_cents tr))
    settle_limit =
        >>=-Shifts a out in_ 0 0
          (change_wallet buyer_user_id (Wallet.settle_buy_limit_fill price_cents quantity))
          (λ _.
            when (is_buy o.side && is_limit o.order_type) (release_improvement o.price_cents tr))
          (change_wallet-Shifts a out in_ buyer_user_id
            (Wallet.settle_buy_limit_fill price_cents quantity)
            (λ w. buy_limit-Flows price_cents quantity w a))
          (λ _.
            when-Shifts (is_buy o.side && is_limit o.order_type)
              (release_improvement o.price_cents tr) (release_improvement-Shifts o.price_cents tr))

    settle_buyer-Shifts : Shifts a out in_ (settle_buyer o tr)
    unfolding settle_buyer
    settle_buyer-Shifts =
        let market =
          change_wallet buyer_user_id (Wallet.settle_buy_market_fill price_cents quantity) in
        let limit =
          change_wallet buyer_user_id (Wallet.settle_buy_limit_fill price_cents quantity)
          >> when (is_buy o.side && is_limit o.order_type) (release_improvement o.price_cents tr) in
        if-Shifts out in_ (is_buy_market o) market limit settle_market
          (restated (out + 0) (in_ + 0) out in_ limit settle_limit (omega arith))

    sell : Action (Unit {0})
    sell = change_wallet seller_user_id (Wallet.settle_sell_fill price_cents quantity)

    sell-Shifts : Shifts a in_ out sell
    unfolding sell
    sell-Shifts =
        change_wallet-Shifts a in_ out seller_user_id (Wallet.settle_sell_fill price_cents quantity)
          (λ w. sell-Flows price_cents quantity w a)

    -- The buyer and the seller together hold what they held.
    payment : Action (Unit {0}) → Action (Unit {0})
    unfolding sell
    payment store = settle_buyer o tr >> (sell >> store)

    payment-Shifts : (store : Action (Unit {0})) → Shifts a 0 0 store → Shifts a 0 0 (payment store)
    unfolding payment
    payment-Shifts store h =
        restated (out + (in_ + 0)) (in_ + (out + 0)) 0 0 (settle_buyer o tr >> (sell >> store))
          (>>=-Shifts a out in_ (in_ + 0) (out + 0) (settle_buyer o tr) (λ _. sell >> store)
            settle_buyer-Shifts
            (λ _. >>=-Shifts a in_ out 0 0 sell (λ _. store) sell-Shifts (λ _. h)))
          (omega arith)

    insert_trade-Shifts : (t : Trade.Trade) → Shifts a 0 0 (insert_trade t)
    unfolding insert_trade exec
    insert_trade-Shifts t = Keeps-Shifts a (insert_trade t) (λ faults s. ground arith)

    settle_trade-Shifts : (now : Time) (id : Uuid) → Shifts a 0 0 (settle_trade now id o tr)
    unfolding settle_trade payment
    settle_trade-Shifts now id =
        let row =
          lift (λ e. Store.invalid_trade)
            (Trade.new id tr.buy_order_id tr.sell_order_id buyer_user_id seller_user_id price_cents
              quantity now) in
        let store = row >>= insert_trade in
        still (load_wallet buyer_user_id) (λ _. load_wallet seller_user_id >>= λ _. payment store)
          (load_wallet-Shifts a buyer_user_id)
          (λ _.
            still (load_wallet seller_user_id) (λ _. payment store)
              (load_wallet-Shifts a seller_user_id)
              (λ _. payment-Shifts store (
                still row insert_trade
                  (lift-Shifts (λ e. Store.invalid_trade)
                    (Trade.new id tr.buy_order_id tr.sell_order_id buyer_user_id seller_user_id
                      price_cents quantity now))
                  insert_trade-Shifts)))

  pub settle_trades-Shifts :
      (r : Readings) (k : ℕ) (o : Order) (trs : List Engine.Trade)
      → Shifts a 0 0 (settle_trades r k o trs)
  unfolding settle_trades
  settle_trades-Shifts r k o [] = Keeps-Shifts a (pure tt) (λ faults s. refl)
  settle_trades-Shifts r k o (tr ∷ trs) =
      still (settle_trade r.now (r.trade_id k) o tr) (λ _. settle_trades r (suc k) o trs)
        (settle_trade-Shifts o tr r.now (r.trade_id k)) (λ _. settle_trades-Shifts r (suc k) o trs)
