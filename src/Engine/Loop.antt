-- ===== src/Engine/Loop.antt =====
-- internal/domain/matching/engine.go: the loop of Match ends, and the trades on the way.
use order_book_vibranium.Base.{ℕ, suc, zero, ◌+◌, ◌*◌, ◌<◌, arith}
use order_book_vibranium.Base.Run.{Run, done, panic, out_of_fuel}
use order_book_vibranium.Order.{Time}
use order_book_vibranium.Order.Lifecycle.{left}
use order_book_vibranium.Engine.{Matching, Round, stop, panics, next, round, match_loop}
use order_book_vibranium.Engine.Ready.{IsReady, IsStopped, Executes}
use order_book_vibranium.Engine.Rounds.{RoundIs, round-RoundIs}

-- Zero or more trades lead from one state to the other.
pub data Trading : Matching → Matching → Type 0 where
  none_more : {s : Matching} → Trading s s
  one_more : {s s' s'' : Matching} → IsReady s → Executes s s' → Trading s' s'' → Trading s s''

-- The loop from `s` returns a state that is ready, in which the loop stops with a reason, and to
-- which trades lead from `s`.
abbrev pub LoopIs : Matching → Run Matching → Type 0
LoopIs s (done s') = IsReady s' × IsStopped s' × Trading s s'
LoopIs s panic = ⊥
LoopIs s out_of_fuel = ⊥

extend :
    {s s' : Matching} → IsReady s → Executes s s' → (r : Run Matching) → LoopIs s' r → LoopIs s r
extend v x (done s'') (w, stopped, more) = (w, stopped, one_more v x more)
extend v x panic z = z
extend v x out_of_fuel z = z

after_round :
    (clock : ℕ → Time) (k : ℕ) (s : Matching)
    → IsReady s
    → ((s' : Matching) → IsReady s' → Executes s s' → LoopIs s' (match_loop clock k s'))
    → (r : Round) → RoundIs s r
    → LoopIs s (elim r [ stop ↦ done s | panics ↦ panic | next s' ↦ match_loop clock k s' ])
after_round clock k s v rest stop z = (v, z, none_more)
after_round clock k s v rest panics z = z
after_round clock k s v rest (next s') (w, x) = extend v x (match_loop clock k s') (rest s' w x)

pub match_loop-LoopIs :
    (clock : ℕ → Time) (k : ℕ) (s : Matching)
    → IsReady s
    → left s.incoming < k
    → LoopIs s (match_loop clock k s)
unfolding match_loop
match_loop-LoopIs clock zero s v h = absurd (omega arith)
match_loop-LoopIs clock (suc k) s v h =
    after_round clock k s v
      (λ s' w x. match_loop-LoopIs clock k s' w (omega (arith, x.taker.less_left, x.positive, h)))
      (round (clock (2 * k + 1)) (clock (2 * k + 2)) s)
      (round-RoundIs (clock (2 * k + 1)) (clock (2 * k + 2)) s v)
