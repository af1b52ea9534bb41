-- ===== src/Ranking/Refined.antt =====
-- internal/domain/matching/engine.go: Match does to the book what the race does to sorted lists.
use mathlib.Core.Path.{subst}
use order_book_vibranium.Base.{ℕ, ◌≡◌, refl, sym, Option, none, some, List, arith}
use order_book_vibranium.Base.Int64.{Int64}
use order_book_vibranium.Base.Run.{Run, done, panic, out_of_fuel}
use order_book_vibranium.Order.{Order, Side, Time}
use order_book_vibranium.Order.Lifecycle.{remaining-eq-left}
use order_book_vibranium.Book.{Book}
use order_book_vibranium.Book.Invariant.{IsValid, IsTraded, levels}
use order_book_vibranium.Engine.{
  Matching, MatchResult, match_loop, rest_or_cancel, enough_rounds, match,
}
use order_book_vibranium.Engine.Ready.{IsReady}
use order_book_vibranium.Engine.Settling.{level_side-IsTraded}
use order_book_vibranium.Engine.Outcome.{start}
use order_book_vibranium.Ranking.{
  Ranks, Racing, ranked, set_ranked, other_side, race, conclude, rank_match,
}
use order_book_vibranium.Ranking.Shown.{Represents}
use order_book_vibranium.Ranking.Rounds.{racing_of}
use order_book_vibranium.Ranking.Resting.{
  IsRanked, other_side-eq-level_side, ranked-Represents, IsRanked-set_ranked,
}
use order_book_vibranium.Ranking.Looping.{LoopFollows, loop-Follows}
use order_book_vibranium.Ranking.Concluding.{Concludes, conclude-Concludes}

-- The book and the result of Match are those of the sorted lists.
abbrev pub Refines : Run (Book × MatchResult) → Option (Ranks × MatchResult) → Type 0
Refines (done (b, res)) (some (rk, res')) = IsValid b × IsRanked b rk × (res ≡ res')
Refines _ _ = ⊥

concluded :
    (rk : Ranks) (sd : Side) (os : List Order) (x : Run (Book × MatchResult))
    (y : List Order × MatchResult)
    → IsTraded sd
    → Concludes sd os x y
    → Refines x (some (set_ranked (set_ranked rk (other_side sd) os) sd y.0, y.1))
concluded rk sd os (done (b, res)) (own, res') t (v, opposite, own_side, e) =
    (v, IsRanked-set_ranked b rk sd own os t opposite own_side, e)
concluded rk sd os panic y t z = z
concluded rk sd os out_of_fuel y t z = z

finished :
    (now : Time) (rk : Ranks) (sd : Side) (own : List Order) (x : Run Matching) (y : Option Racing)
    → IsTraded sd
    → LoopFollows sd own x y
    → Refines
        (elim x [ done s ↦ rest_or_cancel now s | panic ↦ panic | out_of_fuel ↦ out_of_fuel ])
        (elim y [
          | none ↦ none
          | some r ↦
              let (own', result) = conclude now own r in
              some (set_ranked (set_ranked rk (other_side sd) r.opposite) sd own', result)
        ])
finished now rk sd own (done s) (some r) t (v, f) =
    concluded rk sd r.opposite (rest_or_cancel now s) (conclude now own r) t (
      subst (λ z. Concludes sd r.opposite (rest_or_cancel now s) (conclude now own z))
        (sym f.variables)
        (subst
          (λ d.
            Concludes d r.opposite (rest_or_cancel now s)
              (conclude now own (racing_of s r.opposite)))
          f.side
          (conclude-Concludes now own r.opposite s v (rw f.side f.opposite)
            (rw f.side f.own_side))))
finished now rk sd own (done s) none t z = elim z [ ]
finished now rk sd own panic y t z = elim z [ ]
finished now rk sd own out_of_fuel y t z = elim z [ ]

-- On a consistent book whose sides are the sorted lists `rk`, for a valid order whose id the book does
-- not know, and funds that are an int64 and not negative where they are given for a BUY MARKET order,
-- Match returns what the match on the lists returns: the same trades, filled makers,
-- incoming order and remainder, and a consistent book whose sides are the new lists.
pub match-Refines :
    (clock : ℕ → Time) (b : Book) (rk : Ranks) (o : Order) (funds : Option Int64)
    → IsReady (start b o funds)
    → IsRanked b rk
    → Refines (match clock b o funds) (rank_match clock rk o funds)
unfolding match rank_match enough_rounds
match-Refines clock b rk o funds v r =
    finished (clock 0) rk o.side (ranked rk o.side)
      (match_loop clock (enough_rounds o) (start b o funds))
      (race clock (enough_rounds o) (racing_of (start b o funds) (ranked rk (other_side o.side))))
      v.taker.traded
      (loop-Follows clock (enough_rounds o) o.side (ranked rk o.side) (start b o funds)
        (racing_of (start b o funds) (ranked rk (other_side o.side))) v
        (ground (arith, remaining-eq-left o v.taker.valid))
        (record {
          side = refl;
          opposite =
              subst (λ d. Represents d (levels b d) (ranked rk (other_side o.side)))
                (other_side-eq-level_side o.side v.taker.traded)
                (ranked-Represents b rk (other_side o.side)
                  (subst IsTraded (sym (other_side-eq-level_side o.side v.taker.traded))
                    (level_side-IsTraded o.side v.taker.traded))
                  r);
          own_side = ranked-Represents b rk o.side v.taker.traded r;
          variables = refl;
        }))
