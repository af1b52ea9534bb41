-- ===== src/Engine/Uncrossed.antt =====
-- internal/domain/matching/engine.go: Match never leaves a bid at or above an ask.
use order_book_vibranium.Base.{
  ℕ, ◌<◌, ◌≡◌, refl, sym, ◌∙◌, ◌⊎◌, inl, inr, Option, none, some, List, [], ◌∷◌, arith, ◌==◌,
  Bool-cases, some_eq_some,
}
use order_book_vibranium.Base.Int64.{Int64, pos_part, IsNat}
use order_book_vibranium.Base.Assoc.{lookup}
use order_book_vibranium.Base.Run.{Run, done, panic, out_of_fuel}
use order_book_vibranium.Order.{Order, Side, OrderType, Uuid, Time, is_market}
use order_book_vibranium.Order.Lifecycle
use order_book_vibranium.Level.{Element}
use order_book_vibranium.LevelHeap.Content.{Holds}
use order_book_vibranium.LevelHeap.Ordered.{NotAfter}
use order_book_vibranium.Book.{Book, add_resting}
use order_book_vibranium.Book.Invariant
use order_book_vibranium.Book.Invariant.{
  front, IsTraded, IsPrice, levels, location, queue_of, hi, lo,
}
use order_book_vibranium.Book.Queues.{location-injective}
use order_book_vibranium.Book.Resting.{locations-add_resting}
use order_book_vibranium.Engine.{Matching, MatchResult, match, level_side, limiting_funds}
use order_book_vibranium.Engine.Quantity.{CannotAfford}
use order_book_vibranium.Engine.Ready.{IsReady, IsStopped, Refuses, Executes}
use order_book_vibranium.Engine.Settling.{level_side-IsTraded}
use order_book_vibranium.Engine.Loop.{Trading, none_more, one_more}
use order_book_vibranium.Engine.Outcome.{MatchIs, start, match-MatchIs}

-- Every bid is below every ask.
pub record IsUncrossed (b : Book) : Type 0 where
  pub apart :
      (p q : Int64) (es fs : List Element)
      → Holds (levels b Side.buy) p es
      → Holds (levels b Side.sell) q fs
      → pos_part p < pos_part q

-- A queue of a consistent book is one that a location points to.
located_queue :
    (b : Book) (s : Side) (p : Int64) (es : List Element)
    → Invariant.IsValid b
    → IsTraded s
    → Holds (levels b s) p es
    → (id : Uuid) × (a : ℕ) × (lookup id b.locations ≡ some (location s p a))
located_queue b s p [] v t x = absurd ((queue_of b v s p [] t x).filled refl)
located_queue b s p (e ∷ es) v t x =
    (e.order.id, e.addr, ((queue_of b v s p (e ∷ es) t x).placed e front).located)

held_at :
    (b : Book) (id : Uuid) (s : Side) (p : Int64) (a : ℕ)
    → Invariant.IsValid b
    → lookup id b.locations ≡ some (location s p a)
    → (es : List Element) × Holds (levels b s) p es
held_at b id s p a v e =
    let found = (v.located id (location s p a) e).there in (found.queue, found.held)

-- A queue after a trade was there before.
held_before :
    (s s' : Matching) (side : Side) (p : Int64) (es : List Element)
    → IsReady s
    → IsReady s'
    → Executes s s'
    → IsTraded side
    → Holds (levels s'.book side) p es
    → (fs : List Element) × Holds (levels s.book side) p fs
held_before s s' side p es v v' x t h =
    let (id, a, e) = located_queue s'.book side p es v'.book t h in
    elim (x.gone id) [
      | inl z ↦ (let c : none ≡ some (location side p a) = sym z ∙ e in absurd (ground (arith, c)))
      | inr same ↦ held_at s.book id side p a v.book (sym same ∙ e)
    ]

IsReady-before : {s s' : Matching} → Trading s s' → IsReady s' → IsReady s
IsReady-before none_more v = v
IsReady-before (one_more w x more) v = w

Trading-IsUncrossed :
    {s s' : Matching} → Trading s s' → IsReady s' → IsUncrossed s.book → IsUncrossed s'.book
Trading-IsUncrossed none_more v u = u
Trading-IsUncrossed (one_more {s} {s'} {s''} w x more) v u =
    let v' = IsReady-before more v in
    Trading-IsUncrossed more v (record {
      apart = λ p q es fs h k.
          let (es', h') = held_before s s' Side.buy p es w v' x tt h in
          let (fs', k') = held_before s s' Side.sell q fs w v' x tt k in u.apart p q es' fs' h' k';
    })

-- A price that an order of the side with this limit does not reach.
abbrev Beyond : Side → Int64 → Int64 → Type 0
Beyond Side.buy p q = pos_part p < pos_part q
Beyond Side.sell p q = pos_part q < pos_part p
Beyond Side.other p q = ⊥

refused-Beyond :
    (t : OrderType) (s : Side) (limit : Option Int64) (p best q : Int64)
    → limit ≡ some p
    → IsTraded s
    → IsNat best
    → IsNat q
    → Refuses t s limit best
    → NotAfter (hi (level_side s)) (lo (level_side s)) best q
    → Beyond s p q
unfolding level_side
refused-Beyond OrderType.limit Side.buy (some l) p best q e t n m r f = ground (arith, e)
refused-Beyond OrderType.limit Side.sell (some l) p best q e t n m r f = ground (arith, e)
refused-Beyond OrderType.limit Side.other l p best q e t n m r f = elim t [ ]
refused-Beyond OrderType.limit Side.buy none p best q e t n m r f = elim r [ ]
refused-Beyond OrderType.limit Side.sell none p best q e t n m r f = elim r [ ]
refused-Beyond OrderType.market s l p best q e t n m r f = elim r [ ]
refused-Beyond OrderType.other s l p best q e t n m r f = elim r [ ]

limit_can_afford :
    (o : Order) (funds : Option Int64) (price : Int64)
    → o.order_type ≡ OrderType.limit
    → CannotAfford (limiting_funds o funds) price
    → ⊥
unfolding limiting_funds is_market
limit_can_afford o funds price l c = ground (arith, l, c)

-- Where the loop stops with something left of a LIMIT order, no queue against it is in its reach.
stopped-Beyond :
    (s : Matching) (price q : Int64) (fs : List Element)
    → IsReady s
    → IsStopped s
    → 0 < Lifecycle.left s.incoming
    → s.incoming.order_type ≡ OrderType.limit
    → s.incoming.price_cents ≡ some price
    → Holds (levels s.book (level_side s.incoming.side)) q fs
    → Beyond s.incoming.side price q
stopped-Beyond s price q fs v (inl z) some_left l e h = absurd (omega (arith, z, some_left))
stopped-Beyond s price q fs v (inr (inl nothing)) some_left l e (i, lt, k, o) =
    absurd (ground (arith, nothing, lt))
stopped-Beyond s price q fs v (inr (inr (best, queue, is_best, inr cannot))) some_left l e h =
    absurd (limit_can_afford s.incoming s.funds best l cannot)
stopped-Beyond s price q fs v (inr (inr (best, queue, is_best, inl refused))) some_left l e h =
    let side = level_side s.incoming.side in
    let traded = level_side-IsTraded s.incoming.side v.taker.traded in
    refused-Beyond s.incoming.order_type s.incoming.side s.incoming.price_cents price best q e
      v.taker.traded (queue_of s.book v.book side best queue traded is_best.held).price.0
      (queue_of s.book v.book side q fs traded h).price.0 refused (is_best.first q fs h)

-- A queue after AddResting is the queue of the order's price, or was there before.
held_or_new :
    (o : Order) (price : Int64) (b b' : Book) (side : Side) (p : Int64) (es : List Element)
    → Invariant.IsValid b
    → Invariant.IsValid b'
    → o.price_cents ≡ some price
    → add_resting o b ≡ done b'
    → IsTraded side
    → Holds (levels b' side) p es
    → (side ≡ o.side) × (p ≡ price) ⊎ ((fs : List Element) × Holds (levels b side) p fs)
held_or_new o price b b' side p es v v' priced added t h =
    let (id, a, e) = located_queue b' side p es v' t h in
    let now = locations-add_resting o price b b' id priced added in
    elim (Bool-cases (o.id == id)) [
      | inl same ↦
          let both : some (location o.side price b.next_addr) ≡ some (location side p a) =
            sym (rw same at now) ∙ e in
          let parts = location-injective (some_eq_some both) in inl (sym parts.0, sym parts.1)
      | inr other ↦ inr (held_at b id side p a v (sym (rw other at now) ∙ e))
    ]

Beyond-on :
    (o : Order) (price : Int64) (b : Book)
    → ((q : Int64) (fs : List Element)
        → Holds (levels b (level_side o.side)) q fs
        → Beyond o.side price q)
    → (t : Side) → t ≡ o.side
    → (q : Int64) (fs : List Element) → Holds (levels b (level_side t)) q fs
    → Beyond t price q
Beyond-on o price b beyond t e q fs h = rw e (beyond q fs (rw e at h))

-- A book that an order is added to, beyond whose limit the other side lies.
rested_apart :
    (o : Order) (price : Int64) (b b' : Book)
    → Invariant.IsValid b
    → Invariant.IsValid b'
    → IsUncrossed b
    → o.price_cents ≡ some price
    → add_resting o b ≡ done b'
    → ((q : Int64) (fs : List Element)
        → Holds (levels b (level_side o.side)) q fs
        → Beyond o.side price q)
    → IsUncrossed b'
unfolding level_side
rested_apart o price b b' v v' u priced added beyond = record {
  apart = λ p q es fs h k. elim (held_or_new o price b b' Side.buy p es v v' priced added tt h) [
    | inl (sp, pp) ↦ elim (held_or_new o price b b' Side.sell q fs v v' priced added tt k) [
      | inl (sq, pq) ↦ absurd (ground (arith, sp, sq))
      | inr (fs', k') ↦ rw pp (Beyond-on o price b beyond Side.buy sp q fs' k')
    ]
    | inr (es', h') ↦ elim (held_or_new o price b b' Side.sell q fs v v' priced added tt k) [
      | inl (sq, pq) ↦ rw pq (Beyond-on o price b beyond Side.sell sq p es' h')
      | inr (fs', k') ↦ u.apart p q es' fs' h' k'
    ]
  ];
}

-- The result of Match is a book in which every bid is below every ask.
abbrev pub Uncrosses : Run (Book × MatchResult) → Type 0
Uncrosses panic = ⊥
Uncrosses out_of_fuel = ⊥
Uncrosses (done (b, r)) = IsUncrossed b

uncrossed :
    (b : Book) (o : Order) (funds : Option Int64) (r : Run (Book × MatchResult))
    → IsUncrossed b
    → MatchIs (start b o funds) r
    → Uncrosses r
uncrossed b o funds panic u m = m.4
uncrossed b o funds out_of_fuel u m = m.4
uncrossed b o funds (done (b', r)) u (s, v, stopped, more, (valid, trades, makers, inl x)) =
    rw x.book (Trading-IsUncrossed more v u)
uncrossed b o funds (done (b', r)) u (s, v, stopped, more, (valid, trades, makers, inr (inl x))) =
    rested_apart s.incoming x.price s.book b' v.book valid (Trading-IsUncrossed more v u) x.priced
      x.book
      (λ q fs h. stopped-Beyond s x.price q fs v stopped x.some_left x.limit_order x.priced h)
uncrossed b o funds (done (b', r)) u (s, v, stopped, more, (valid, trades, makers, inr (inr x))) =
    rw x.book (Trading-IsUncrossed more v u)

-- On a consistent book in which every bid is below every ask and which does not know the order's
-- id, Match of a valid order, with funds that are an int64 and not negative where they are given for
-- a BUY MARKET order, returns a book in which every bid is below every ask.
pub match-Uncrosses :
    (clock : ℕ → Time) (b : Book) (o : Order) (funds : Option Int64)
    → IsReady (start b o funds)
    → IsUncrossed b
    → Uncrosses (match clock b o funds)
match-Uncrosses clock b o funds ready u =
    uncrossed b o funds (match clock b o funds) u (match-MatchIs clock b o funds ready)
