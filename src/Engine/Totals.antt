-- ===== src/Engine/Totals.antt =====
-- internal/domain/matching/engine.go: what the trades of one call of Match add up to.
use order_book_vibranium.Base.{
  ℕ, ◌+◌, ◌*◌, ◌<◌, ◌≡◌, refl, sym, ◌∙◌, Option, none, some, List, [], ◌∷◌, ◌++◌, arith,
  if◌then◌else◌,
}
use order_book_vibranium.Base.Int64.{Int64, pos, pos_part}
use order_book_vibranium.Order.{Order, is_buy}
use order_book_vibranium.Order.Lifecycle.{left}
use order_book_vibranium.Engine.{Trade, Matching, make_trade, limiting_funds}
use order_book_vibranium.Engine.Ready.{Executes, Accepts, AreLess}
use order_book_vibranium.Engine.Loop.{Trading, none_more, one_more}

-- The units traded, and what they cost.
abbrev pub volume : List Trade → ℕ
volume [] = 0
volume (t ∷ ts) = pos_part t.quantity + volume ts

abbrev pub cost : List Trade → ℕ
cost [] = 0
cost (t ∷ ts) = pos_part t.quantity * pos_part t.price_cents + cost ts

volume-append :
    (ts : List Trade) (t : Trade) → volume (ts ++ t ∷ []) ≡ volume ts + pos_part t.quantity
volume-append [] t = omega arith
volume-append (u ∷ ts) t = omega (arith, volume-append ts t)

cost-append :
    (ts : List Trade) (t : Trade)
    → cost (ts ++ t ∷ []) ≡ cost ts + pos_part t.quantity * pos_part t.price_cents
cost-append [] t = omega arith
cost-append (u ∷ ts) t = grind (arith, cost-append ts t)

-- The trade is one that the order allows: a positive quantity, at a price that its limit accepts,
-- with the order on its own side of the trade.
pub record IsAllowed (o : Order) (t : Trade) : Type 0 where
  pub positive : 0 < pos_part t.quantity
  pub accepted : Accepts o.order_type o.side o.price_cents t.price_cents
  pub own_side : (if is_buy o.side then t.buy_order_id else t.sell_order_id) ≡ o.id
  pub own_user : (if is_buy o.side then t.buyer_user_id else t.seller_user_id) ≡ o.user_id

abbrev pub AreAllowed : Order → List Trade → Type 0
AreAllowed o [] = Unit
AreAllowed o (t ∷ ts) = IsAllowed o t × AreAllowed o ts

AreAllowed-append :
    (o : Order) (ts : List Trade) (t : Trade)
    → AreAllowed o ts
    → IsAllowed o t
    → AreAllowed o (ts ++ t ∷ [])
AreAllowed-append o [] t all x = (x, tt)
AreAllowed-append o (u ∷ ts) t (y, all) x = (y, AreAllowed-append o ts t all x)

-- The funds `f` before and `f'` after, when the trades so far cost `c` and `c'`.
abbrev pub Balances : Option Int64 → ℕ → Option Int64 → ℕ → Type 0
Balances (some f) c (some f') c' = pos_part f + c ≡ pos_part f' + c'
Balances none c none c' = Unit
Balances _ c _ c' = ⊥

Balances-refl : (f : Option Int64) (c : ℕ) → Balances f c f c
Balances-refl none c = tt
Balances-refl (some f) c = refl

Balances-step :
    (f f' f'' : Option Int64) (c d e : ℕ)
    → AreLess f f' d
    → Balances f' (c + d) f'' e
    → Balances f c f'' e
Balances-step none none none c d e x y = tt
Balances-step none none (some g) c d e x y = y
Balances-step none (some g) h c d e x y = elim x [ ]
Balances-step (some f) none h c d e x y = elim x [ ]
Balances-step (some f) (some g) none c d e x y = y
Balances-step (some f) (some g) (some h) c d e x y = omega (arith, x, y)

-- What trades keep from one state to another.
pub record Keeps (s s' : Matching) : Type 0 where
  pub units : volume s.trades + left s.incoming ≡ volume s'.trades + left s'.incoming
  pub balances :
      Balances
        (limiting_funds s.incoming s.funds)
        (cost s.trades)
        (limiting_funds s'.incoming s'.funds)
        (cost s'.trades)

module _ (s s' : Matching) (x : Executes s s') where
  traded : Trade
  traded = make_trade s.incoming x.maker.order x.price (pos x.units)

  traded_price : traded.price_cents ≡ x.price
  unfolding traded make_trade
  traded_price = ground arith

  traded_quantity : traded.quantity ≡ pos x.units
  unfolding traded make_trade
  traded_quantity = ground arith

  trades_now : s'.trades ≡ s.trades ++ traded ∷ []
  unfolding traded
  trades_now = x.trades

  volume_now : volume s'.trades ≡ volume s.trades + x.units
  volume_now = rw (trades_now, volume-append, traded_quantity) refl

  cost_now : cost s'.trades ≡ cost s.trades + x.units * pos_part x.price
  cost_now = rw (trades_now, cost-append, traded_quantity, traded_price) refl

  traded-IsAllowed : IsAllowed s.incoming traded
  unfolding traded make_trade
  traded-IsAllowed = record {
    positive = rw traded_quantity x.positive;
    accepted = rw traded_price x.accepted;
    own_side = ground arith;
    own_user = ground arith;
  }

pub Trading-Keeps : {s s' : Matching} → Trading s s' → Keeps s s'
Trading-Keeps (none_more {s}) = record {
  units = refl;
  balances = Balances-refl (limiting_funds s.incoming s.funds) (cost s.trades);
}
Trading-Keeps (one_more {s} {s'} {s''} v x more) =
    let k = Trading-Keeps more in
    record {
      units = omega (arith, k.units, volume_now s s' x, x.taker.less_left);
      balances =
          Balances-step (limiting_funds s.incoming s.funds) (limiting_funds s'.incoming s'.funds)
            (limiting_funds s''.incoming s''.funds) (cost s.trades) (x.units * pos_part x.price)
            (cost s''.trades) x.paid (rw (sym (cost_now s s' x)) k.balances);
    }

-- The orders differ at most in what is filled, in status and in times.
pub record IsSameOrder (o o' : Order) : Type 0 where
  pub id : o'.id ≡ o.id
  pub user_id : o'.user_id ≡ o.user_id
  pub side : o'.side ≡ o.side
  pub order_type : o'.order_type ≡ o.order_type
  pub price : o'.price_cents ≡ o.price_cents

IsAllowed-same : (o o' : Order) (t : Trade) → IsSameOrder o o' → IsAllowed o' t → IsAllowed o t
IsAllowed-same o o' t e x = record {
  positive = x.positive;
  accepted = rw (e.side, e.order_type, e.price) at x.accepted;
  own_side = (rw e.side at x.own_side) ∙ e.id;
  own_user = (rw e.side at x.own_user) ∙ e.user_id;
}

pub Trading-AreAllowed :
    {s s' : Matching} (o : Order)
    → Trading s s'
    → IsSameOrder o s.incoming
    → AreAllowed o s.trades
    → AreAllowed o s'.trades
Trading-AreAllowed o none_more e all = all
Trading-AreAllowed o (one_more {s} {s'} v x more) e all =
    Trading-AreAllowed o more
      (record {
        id = x.taker.id ∙ e.id;
        user_id = x.taker.user_id ∙ e.user_id;
        side = x.taker.side ∙ e.side;
        order_type = x.taker.order_type ∙ e.order_type;
        price = x.taker.price ∙ e.price;
      })
      (rw (trades_now s s' x) (
        AreAllowed-append o s.trades (traded s s' x) all
          (IsAllowed-same o s.incoming (traded s s' x) e (traded-IsAllowed s s' x))))
