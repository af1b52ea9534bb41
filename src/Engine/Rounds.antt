-- ===== src/Engine/Rounds.antt =====
-- internal/domain/matching/engine.go: what one round of the loop of Match does.
use order_book_vibranium.Base.{
  ℕ, ◌*◌, ◌≤◌, ◌<◌, ◌≡◌, refl, sym, ap, ◌∙◌, ◌⊎◌, inl, inr, true, false, Option, none, some, List,
  ◌∷◌, arith, ◌==◌, Bool-cases, List-cases, length,
}
use order_book_vibranium.Base.Int64
use order_book_vibranium.Base.Int64.{Int64, pos, pos_part, neg_part, IsNat}
use order_book_vibranium.Order.{Order, Side, Time, remaining}
use order_book_vibranium.Order.Lifecycle.{left, remaining-eq-left}
use order_book_vibranium.Level.{Element, Level, front_order}
use order_book_vibranium.LevelHeap.{peek, key}
use order_book_vibranium.LevelHeap.Ordered.{root_first}
use order_book_vibranium.Book.{Book, best_opposite}
use order_book_vibranium.Book.Invariant
use order_book_vibranium.Book.Invariant.{
  front, Rests, IsTraded, IsPrice, hi, lo, levels, queue_of, IsHeap-levels,
}
use order_book_vibranium.Engine.{
  Matching, Round, stop, panics, next, level_side, limit_stops, price_stops, limiting_funds,
  fill_or_keep, spend, execute, round, round_level, round_price, round_maker,
}
use order_book_vibranium.Engine.Quantity.{
  Filled, fill_or_keep-Filled, IsFunds, Affords, match_quantity_lem, price_divides,
}
use order_book_vibranium.Engine.Settling.{
  level_side-IsTraded, settle_maker-IsValid, settle_maker_unknown, settle_maker_located,
}
use order_book_vibranium.Engine.Ready.{
  IsTaker, Accepts, Refuses, AreLess, IsBest, IsReady, IsStopped, Executes,
}

limit_stops_lem :
    (o : Order) (q : Int64)
    → IsTaker o
    → IsNat q
    → (limit_stops o q ≡ some true) × Refuses o.order_type o.side o.price_cents q
      ⊎ (limit_stops o q ≡ some false) × Accepts o.order_type o.side o.price_cents q
unfolding limit_stops price_stops
limit_stops_lem o q v n = ground (arith, v.traded, v.priced)

pub best_opposite-eq :
    (s : Side) (b : Book) → IsTraded s → best_opposite s b ≡ peek (levels b (level_side s))
unfolding best_opposite level_side
best_opposite-eq Side.buy b t = refl
best_opposite-eq Side.sell b t = refl
best_opposite-eq Side.other b t = elim t [ ]

-- The funds after a trade that they pay for.
spent_lem :
    (o o' : Order) (funds : Option Int64) (n : ℕ) (price : Int64)
    → o'.side ≡ o.side
    → o'.order_type ≡ o.order_type
    → IsPrice price
    → IsFunds (limiting_funds o funds)
    → Affords (limiting_funds o funds) n price
    → IsFunds (
        limiting_funds o'
          (elim (limiting_funds o funds) [ none ↦ funds | some f ↦ spend (some f) (pos n) price ]))
      × AreLess
          (limiting_funds o funds)
          (limiting_funds o' (elim (limiting_funds o funds) [
            | none ↦ funds
            | some f ↦ spend (some f) (pos n) price
          ]))
          (n * pos_part price)
unfolding limiting_funds spend
spent_lem o o' none n price s t p f a = (ground (arith, s, t), ground (arith, s, t))
spent_lem o o' (some f) n price s t (pn, pp, pr) h a = (
  ground (arith, s, t, Int64.mul_nat (pos n) price, Int64.sub_nat f (pos (n * pos_part price))),
  ground (arith, s, t, Int64.mul_nat (pos n) price, Int64.sub_nat f (pos (n * pos_part price))),
)

abbrev pub RoundIs : Matching → Round → Type 0
RoundIs s stop = IsStopped s
RoundIs s panics = ⊥
RoundIs s (next s') = IsReady s' × Executes s s'

module _ (t t' : Time) (s : Matching) (v : IsReady s) where
  module _ (some_left : 0 < left s.incoming) (l : Level) (h : List Level)
      (front_is : levels s.book (level_side s.incoming.side) ≡ l ∷ h) where
    abbrev side : Side
    side = s.incoming.side

    abbrev level : Side
    level = level_side side

    level_traded : IsTraded level
    level_traded = level_side-IsTraded side v.taker.traded

    best : IsBest s.book side l.price_cents l.orders
    best = record {
      held = rw front_is (0, omega arith, refl, refl);
      first = λ q es (i, lt, k, o).
          let root : key (levels s.book level) 0 ≡ l.price_cents = rw front_is refl in
          rw (sym root, sym k)
            (root_first (hi level) (lo level) (length (levels s.book level)) (levels s.book level) i
              (IsHeap-levels s.book v.book level level_traded) lt);
    }

    queue : Invariant.IsQueue s.book.locations s.book.next_addr level l.price_cents l.orders
    queue = queue_of s.book v.book level l.price_cents l.orders level_traded best.held

    module _ (d : Element) (es : List Element) (queue_is : l.orders ≡ d ∷ es) where
      IsBest-queue : IsBest s.book side l.price_cents (d ∷ es)
      IsBest-queue = rw queue_is at best

      maker-Rests : Rests level l.price_cents d.order
      maker-Rests = (queue.placed d (rw queue_is front)).rests

      module _ (n : ℕ) (some_traded : 0 < n) (n_taker : n ≤ left s.incoming)
          (n_maker : n ≤ left d.order)
          (affordable : Affords (limiting_funds s.incoming s.funds) n l.price_cents)
          (accepted : Accepts s.incoming.order_type s.incoming.side s.incoming.price_cents
            l.price_cents) where
        taker-Filled : Filled s.incoming n (fill_or_keep t (pos n) s.incoming)
        taker-Filled = fill_or_keep-Filled t n s.incoming v.taker.valid some_traded n_taker

        abbrev maker' : Order
        maker' = fill_or_keep t' (pos n) d.order

        maker-Filled : Filled d.order n maker'
        maker-Filled = fill_or_keep-Filled t' n d.order maker-Rests.valid some_traded n_maker

        maker_after : (remaining maker' ≡ pos 0) ⊎ Rests level l.price_cents maker'
        maker_after = elim (Bool-cases (left maker' == 0)) [
          | inl e ↦ inl (remaining-eq-left maker' maker-Filled.valid ∙ ap pos (ground arith))
          | inr e ↦ inr (record {
            valid = maker-Filled.valid;
            some_left = ground arith;
            side = maker-Filled.side ∙ maker-Rests.side;
            order_type = maker-Filled.order_type ∙ maker-Rests.order_type;
            price = maker-Filled.price ∙ maker-Rests.price;
          })
        ]

        abbrev s' : Matching
        s' = execute t t' s l.price_cents d.order (pos n)

        executed-IsReady : IsReady s'
        unfolding execute
        executed-IsReady = record {
          book =
              settle_maker-IsValid s.book v.book side v.taker.traded l.price_cents d es
                IsBest-queue.held maker' maker-Filled.id maker_after;
          taker = record {
            valid = taker-Filled.valid;
            traded = rw taker-Filled.side v.taker.traded;
            priced = rw (taker-Filled.order_type, taker-Filled.price) v.taker.priced;
          };
          fresh =
              settle_maker_unknown s.book v.book side v.taker.traded l.price_cents d es
                IsBest-queue.held maker' maker-Filled.id (fill_or_keep t (pos n) s.incoming).id
                (rw taker-Filled.id v.fresh);
          funds =
              (spent_lem s.incoming (fill_or_keep t (pos n) s.incoming) s.funds n l.price_cents
                taker-Filled.side taker-Filled.order_type queue.price v.funds affordable).0;
        }

        executed : Executes s s'
        unfolding execute
        executed = record {
          price = l.price_cents;
          maker = d;
          others = es;
          units = n;
          best = IsBest-queue;
          rests = maker-Rests;
          accepted = accepted;
          positive = some_traded;
          affordable = affordable;
          taker = taker-Filled;
          trades = refl;
          new_maker = maker';
          filled = maker-Filled;
          touched = refl;
          gone =
              settle_maker_located s.book v.book side v.taker.traded l.price_cents d es
                IsBest-queue.held maker' maker-Filled.id;
          paid =
              (spent_lem s.incoming (fill_or_keep t (pos n) s.incoming) s.funds n l.price_cents
                taker-Filled.side taker-Filled.order_type queue.price v.funds affordable).1;
        }

      round_maker-RoundIs :
          Accepts s.incoming.order_type s.incoming.side s.incoming.price_cents l.price_cents
          → RoundIs s (round_maker t t' s l (some d.order))
      unfolding round_maker
      round_maker-RoundIs accepted =
          let (n, n_is, n_taker, n_maker, pays, positive) =
            match_quantity_lem s.incoming d.order s.funds l.price_cents v.taker.valid
              maker-Rests.valid v.funds queue.price some_left maker-Rests.some_left in
          rw (price_divides (limiting_funds s.incoming s.funds) l.price_cents queue.price)
            (elim positive [
              | inl p ↦
                  let one : Int64.eq (pos n) (pos 0) ≡ false = ground arith in
                  rw n_is (
                    rw one (
                      executed-IsReady n p n_taker n_maker pays accepted,
                      executed n p n_taker n_maker pays accepted,
                    ))
              | inr (z, cannot) ↦
                  rw n_is (rw z (inr (inr (l.price_cents, d ∷ es, IsBest-queue, inr cannot))))
            ])

    round_level-RoundIs : RoundIs s (round_level t t' s (some l))
    unfolding round_level round_price front_order round_maker
    round_level-RoundIs = elim (limit_stops_lem s.incoming l.price_cents v.taker queue.price.0) [
      | inl (e, refused) ↦
          rw (e, round_price) (inr (inr (l.price_cents, l.orders, best, inl refused)))
      | inr (e, accepted) ↦ elim (List-cases l.orders) [
        | inl z ↦ absurd (queue.filled z)
        | inr (d, es, z) ↦
            rw (e, round_price) (rw (z, front_order) (round_maker-RoundIs d es z accepted))
      ]
    ]

  -- A round from a ready state ends the loop with a reason, or makes one trade and is ready again.
  pub round-RoundIs : RoundIs s (round t t' s)
  unfolding round round_level peek
  round-RoundIs =
      let opposite = best_opposite-eq s.incoming.side s.book v.taker.traded in
      let l_is = remaining-eq-left s.incoming v.taker.valid in
      elim (Bool-cases (Int64.lt (pos 0) (remaining s.incoming))) [
        | inl e ↦ elim (List-cases (levels s.book (level_side s.incoming.side))) [
          | inl z ↦ rw e (rw (opposite, z, peek, round_level) (inr (inl z)))
          | inr (l, h, z) ↦
              rw e (rw (opposite, z, peek) (round_level-RoundIs (ground (arith, l_is)) l h z))
        ]
        | inr e ↦ rw e (inl (ground (arith, l_is)))
      ]
