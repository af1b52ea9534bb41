-- ===== src/Ranking/Concluding.antt =====
-- internal/domain/matching/engine.go: Match ends as the race is concluded.
use order_book_vibranium.Base.{◌≡◌, refl, inl, inr, List, arith, Bool-cases, true}
use order_book_vibranium.Base.Int64
use order_book_vibranium.Base.Int64.{Int64, pos}
use order_book_vibranium.Base.Run.{Run, done, panic, out_of_fuel}
use order_book_vibranium.Order.{Order, Side, Time, remaining, is_limit}
use order_book_vibranium.Order.Lifecycle.{remaining-eq-left}
use order_book_vibranium.Book.{Book}
use order_book_vibranium.Book.Invariant.{IsValid, Rests, levels}
use order_book_vibranium.Engine.{Matching, MatchResult, level_side, rest_or_cancel}
use order_book_vibranium.Engine.Ready.{IsReady}
use order_book_vibranium.Engine.Outcome.{is_limit-true, limit-IsPrice}
use order_book_vibranium.Ranking.{conclude}
use order_book_vibranium.Ranking.Shown.{Represents}
use order_book_vibranium.Ranking.Rounds.{racing_of}
use order_book_vibranium.Ranking.Resting.{add_resting-eq, joined-Represents}

-- The end of Match, as the end of the race.
abbrev pub Concludes :
    Side → List Order → Run (Book × MatchResult) → List Order × MatchResult → Type 0
Concludes sd opposite (done (b, res)) (own, res') =
    IsValid b
    × Represents (level_side sd) (levels b (level_side sd)) opposite
    × Represents sd (levels b sd) own
    × (res ≡ res')
Concludes sd opposite panic y = ⊥
Concludes sd opposite out_of_fuel y = ⊥

module _ (now : Time) (own os : List Order) (s : Matching) (v : IsReady s)
    (opposite : Represents
      (level_side s.incoming.side)
      (levels s.book (level_side s.incoming.side))
      os)
    (own_side : Represents s.incoming.side (levels s.book s.incoming.side) own) where
  IsRested-Concludes :
      Int64.lt (pos 0) (remaining s.incoming) ≡ true
      → is_limit s.incoming.order_type ≡ true
      → Concludes s.incoming.side os (rest_or_cancel now s) (conclude now own (racing_of s os))
  unfolding rest_or_cancel conclude
  IsRested-Concludes e limit =
      let l = is_limit-true s.incoming.order_type limit in
      let (price, is_price, priced) =
        limit-IsPrice s.incoming.order_type s.incoming.price_cents v.taker.priced l in
      let rests : Rests s.incoming.side price s.incoming = record {
        valid = v.taker.valid;
        some_left = ground (arith, e, remaining-eq-left s.incoming v.taker.valid);
        side = refl;
        order_type = l;
        price = priced;
      } in
      let (valid', opposite', own_side') =
        joined-Represents s.book s.incoming price own os v.book v.taker.traded is_price rests
          v.fresh opposite own_side in
      rw (e, limit)
        (rw (add_resting-eq s.incoming s.book price priced) (valid', opposite', own_side', refl))

  pub conclude-Concludes :
      Concludes s.incoming.side os (rest_or_cancel now s) (conclude now own (racing_of s os))
  unfolding rest_or_cancel conclude
  conclude-Concludes = elim (Bool-cases (Int64.lt (pos 0) (remaining s.incoming))) [
    | inr e ↦ rw e (v.book, opposite, own_side, refl)
    | inl e ↦ elim (Bool-cases (is_limit s.incoming.order_type)) [
      | inl limit ↦ IsRested-Concludes e limit
      | inr market ↦ rw (e, market) (v.book, opposite, own_side, refl)
    ]
  ]
