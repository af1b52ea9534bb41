-- ===== src/Ranking/Looping.antt =====
-- internal/domain/matching/engine.go: the loop of Match ends where the race does.
use mathlib.Core.Path.{subst}
use order_book_vibranium.Base.{ℕ, zero, suc, ◌+◌, ◌*◌, ◌<◌, sym, Option, none, some, List, arith}
use order_book_vibranium.Base.Run.{Run, done, panic}
use order_book_vibranium.Order.{Order, Side, Time}
use order_book_vibranium.Order.Lifecycle.{left}
use order_book_vibranium.Engine.{Matching, Round, stop, panics, next, round, match_loop}
use order_book_vibranium.Engine.Ready.{IsReady}
use order_book_vibranium.Engine.Rounds.{RoundIs, round-RoundIs}
use order_book_vibranium.Ranking.{Racing, race, race_round}
use order_book_vibranium.Ranking.Rounds.{Follows, RoundFollows, round-Follows}

abbrev pub LoopFollows : Side → List Order → Run Matching → Option Racing → Type 0
LoopFollows sd own (done s) (some r) = IsReady s × Follows sd own s r
LoopFollows sd own _ _ = ⊥

after_round :
    (clock : ℕ → Time) (k : ℕ) (sd : Side) (own : List Order) (s : Matching) (r : Racing)
    → IsReady s
    → Follows sd own s r
    → ((s' : Matching) (r' : Racing)
        → IsReady s'
        → left s'.incoming < left s.incoming
        → Follows sd own s' r'
        → LoopFollows sd own (match_loop clock k s') (race clock k r'))
    → (x : Round) (y : Option Racing) → RoundIs s x
    → RoundFollows sd own x y
    → LoopFollows sd own
        (elim x [ stop ↦ done s | panics ↦ panic | next s' ↦ match_loop clock k s' ])
        (elim y [ none ↦ some r | some r' ↦ race clock k r' ])
after_round clock k sd own s r v f rest stop none z w = (v, f)
after_round clock k sd own s r v f rest stop (some r') z w = elim w [ ]
after_round clock k sd own s r v f rest panics y z w = elim z [ ]
after_round clock k sd own s r v f rest (next s') none z w = elim w [ ]
after_round clock k sd own s r v f rest (next s') (some r') (ready, x) w =
    rest s' r' ready (omega (arith, x.taker.less_left, x.positive)) w

pub loop-Follows :
    (clock : ℕ → Time) (k : ℕ) (sd : Side) (own : List Order) (s : Matching) (r : Racing)
    → IsReady s
    → left s.incoming < k
    → Follows sd own s r
    → LoopFollows sd own (match_loop clock k s) (race clock k r)
unfolding match_loop race
loop-Follows clock zero sd own s r v h f = absurd (omega arith)
loop-Follows clock (suc k) sd own s r v h f =
    after_round clock k sd own s r v f
      (λ s' r' v' less g. loop-Follows clock k sd own s' r' v' (omega (arith, h, less)) g)
      (round (clock (2 * k + 1)) (clock (2 * k + 2)) s)
      (race_round (clock (2 * k + 1)) (clock (2 * k + 2)) r)
      (round-RoundIs (clock (2 * k + 1)) (clock (2 * k + 2)) s v)
      (subst
        (λ x.
          RoundFollows sd own (round (clock (2 * k + 1)) (clock (2 * k + 2)) s)
            (race_round (clock (2 * k + 1)) (clock (2 * k + 2)) x))
        (sym f.variables)
        (round-Follows (clock (2 * k + 1)) (clock (2 * k + 2)) s v own r.opposite sd f.side
          f.opposite f.own_side))
