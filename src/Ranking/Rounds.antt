-- ===== src/Ranking/Rounds.antt =====
-- internal/domain/matching/engine.go: each round of the loop of Match is one step of the race.
use mathlib.Core.Path.{subst}
use order_book_vibranium.Base.{
  ◌≡◌, refl, sym, ap, ◌∙◌, ◌⊎◌, inl, inr, Option, none, some, List, ◌∷◌, arith, true, false,
  Bool-cases, List-cases,
}
use order_book_vibranium.Base.Int64
use order_book_vibranium.Base.Int64.{Int64, pos, IsNat}
use order_book_vibranium.Engine.Quantity.{price_divides}
use order_book_vibranium.Order.{Order, Side, Time, remaining, fill}
use order_book_vibranium.Level.{Level, front_order}
use order_book_vibranium.LevelHeap.{peek}
use order_book_vibranium.Book.Invariant.{IsTraded, IsPrice, levels, queue_of}
use order_book_vibranium.Engine.{
  Matching, limit_stops, price_stops, Round, stop, next, level_side, fill_or_keep, execute,
  settle_maker, match_quantity, limiting_funds, round, round_level, round_price, round_maker,
}
use order_book_vibranium.Engine.Ready.{IsTaker, IsReady}
use order_book_vibranium.Engine.Settling.{level_side-IsTraded}
use order_book_vibranium.Engine.Rounds.{best_opposite-eq}
use order_book_vibranium.Ranking.{
  Racing, price_of, other_side, crosses, trade_with, race_at, race_front, race_round,
}
use order_book_vibranium.Ranking.Shown.{Represents}
use order_book_vibranium.Ranking.Heads.{Fronts, Represents-empty, root-Fronts}
use order_book_vibranium.Ranking.Trading.{settle_maker-Represents, levels-settle_maker_other}

fill_or_keep_lem :
    (t : Time) (qty : Int64) (o : Order)
    → ((fill_or_keep t qty o).id ≡ o.id)
      × ((fill_or_keep t qty o).price_cents ≡ o.price_cents)
      × ((fill_or_keep t qty o).side ≡ o.side)
unfolding fill_or_keep fill
fill_or_keep_lem t qty o = ground arith

-- The order crosses the price where its limit does not stop it.
crosses_lem :
    (o : Order) (q : Int64)
    → IsTaker o
    → IsNat q
    → (limit_stops o q ≡ some true) × (crosses o q ≡ false)
      ⊎ (limit_stops o q ≡ some false) × (crosses o q ≡ true)
unfolding limit_stops price_stops crosses
crosses_lem o q v n = ground (arith, v.traded, v.priced)

-- The variables of the loop, with the opposite side as the list `os`.
abbrev pub racing_of : Matching → List Order → Racing
racing_of s os = record {
  opposite = os;
  incoming = s.incoming;
  funds = s.funds;
  trades = s.trades;
  touched_makers = s.touched_makers;
}

-- The race stands where the loop does, for an order of side `sd` with `own` on its side.
pub record Follows (sd : Side) (own : List Order) (s : Matching) (r : Racing) : Type 0 where
  pub side : s.incoming.side ≡ sd
  pub opposite : Represents (level_side sd) (levels s.book (level_side sd)) r.opposite
  pub own_side : Represents sd (levels s.book sd) own
  pub variables : r ≡ racing_of s r.opposite

abbrev pub RoundFollows : Side → List Order → Round → Option Racing → Type 0
RoundFollows sd own stop none = Unit
RoundFollows sd own (next s) (some r) = Follows sd own s r
RoundFollows sd own _ _ = ⊥

other_side-level_side : (s : Side) → IsTraded s → other_side (level_side s) ≡ s
unfolding level_side
other_side-level_side Side.buy t = refl
other_side-level_side Side.sell t = refl
other_side-level_side Side.other t = elim t [ ]

module _ (t t' : Time) (s : Matching) (v : IsReady s) (own os : List Order) (sd : Side)
    (is_side : s.incoming.side ≡ sd)
    (opposite : Represents (level_side sd) (levels s.book (level_side sd)) os)
    (own_side : Represents sd (levels s.book sd) own) where
  abbrev traded : IsTraded sd
  traded = rw is_side at v.taker.traded

  abbrev against : IsTraded (level_side sd)
  against = level_side-IsTraded sd traded

  module _ (l : Level) (f : Fronts s.book v.book (level_side sd) against os opposite l) where
    abbrev maker : Order
    maker = f.element.order

    module _ (qty : Int64) where
      abbrev maker' : Order
      maker' = fill_or_keep t' qty maker

      same_price : price_of maker' ≡ price_of maker
      same_price = rw ((fill_or_keep_lem t' qty maker).1) refl

      executed-Follows :
          Follows sd own
            (execute t t' s l.price_cents maker qty)
            (trade_with t t' (racing_of s os) maker f.rest l.price_cents qty)
      unfolding execute trade_with
      executed-Follows =
          let (same_id, _, _) = fill_or_keep_lem t' qty maker in
          record {
            side = (fill_or_keep_lem t qty s.incoming).2 ∙ is_side;
            opposite = rw is_side (
                settle_maker-Represents s.book v.book sd traded os l opposite f maker' same_id
                  same_price);
            own_side = rw is_side (
                subst
                  (λ t. Represents sd (levels (settle_maker sd l.price_cents maker' s.book) t) own)
                  (other_side-level_side sd traded)
                  (rw
                    (levels-settle_maker_other s.book v.book sd traded os l opposite f maker'
                      same_id same_price)
                    (subst (λ t. Represents sd (levels s.book t) own)
                      (sym (other_side-level_side sd traded)) own_side)));
            variables = refl;
          }

    round_maker-Follows :
        IsPrice l.price_cents
        → crosses s.incoming l.price_cents ≡ true
        → RoundFollows sd own
            (round_maker t t' s l (some maker))
            (race_at t t' (racing_of s os) maker f.rest l.price_cents)
    unfolding round_maker race_at
    round_maker-Follows p e =
        rw (price_divides (limiting_funds s.incoming s.funds) l.price_cents p)
          (elim (Bool-cases
            (Int64.eq (match_quantity s.incoming maker s.funds l.price_cents) (pos 0))) [
              | inl z ↦ rw (e, z) tt
              | inr z ↦
                  rw (e, z)
                    (executed-Follows (match_quantity s.incoming maker s.funds l.price_cents))
            ])

    front_order-first : front_order (f.element ∷ f.behind) ≡ some maker
    unfolding front_order
    front_order-first = refl

    race_at-none :
        crosses s.incoming l.price_cents ≡ false
        → race_at t t' (racing_of s os) maker f.rest l.price_cents ≡ none
    unfolding race_at
    race_at-none e = rw e refl

    race_front-first :
        race_front t t' (racing_of s os) (maker ∷ f.rest)
        ≡ race_at t t' (racing_of s os) maker f.rest l.price_cents
    unfolding race_front
    race_front-first = ap (race_at t t' (racing_of s os) maker f.rest) f.price

    round_level-Follows :
        IsPrice l.price_cents
        → RoundFollows sd own
            (round_level t t' s (some l))
            (race_at t t' (racing_of s os) maker f.rest l.price_cents)
    unfolding round_level round_price
    round_level-Follows n =
        let in_front = ap front_order f.queue ∙ front_order-first in
        elim (crosses_lem s.incoming l.price_cents v.taker n.0) [
          | inl (stops, no_cross) ↦ rw (stops, round_price) (rw (race_at-none no_cross) tt)
          | inr (goes, cross) ↦ rw (goes, round_price) (rw in_front (round_maker-Follows n cross))
        ]

  pub round-Follows : RoundFollows sd own (round t t' s) (race_round t t' (racing_of s os))
  unfolding round race_round round_level peek
  round-Follows =
      let best = best_opposite-eq s.incoming.side s.book v.taker.traded in
      let side_levels = ap (λ t. levels s.book (level_side t)) is_side in
      elim (Bool-cases (Int64.lt (pos 0) (remaining s.incoming))) [
        | inl e ↦ elim (List-cases (levels s.book (level_side sd))) [
          | inl z ↦
              let empty = Represents-empty s.book v.book (level_side sd) against os opposite z in
              rw e (rw (best, side_levels, z, peek, round_level) (rw (empty, race_front) tt))
          | inr (l, h, z) ↦
              let f = root-Fronts s.book v.book (level_side sd) against os opposite l h z in
              let n =
                (queue_of s.book v.book (level_side sd) l.price_cents (f.element ∷ f.behind) against
                  f.held).price in
              rw e (
                rw (best, side_levels, z, peek)
                  (rw (f.list, race_front-first l f) (round_level-Follows l f n)))
        ]
        | inr e ↦ rw e tt
      ]
