-- ===== src/Ranking/Commands.antt =====
-- internal/domain/matching/book.go and engine.go: sequences of calls, on the book and on the sorted
-- lists.
--
-- The matcher applies Match and Cancel to its book one message after the other, on a book that
-- RecoverBook fills with AddResting.
use order_book_vibranium.Base.{ℕ, ◌≡◌, ◌≢◌, ◌<◌, Option, none, some, List, [], ◌∷◌}
use order_book_vibranium.Base.Int64.{Int64}
use order_book_vibranium.Base.Run.{Run, done, panic, out_of_fuel}
use order_book_vibranium.Order.{Order, OrderType, Time, Uuid}
use order_book_vibranium.Order.Lifecycle.{left}
use order_book_vibranium.Book.{Book, add_resting, cancel}
use order_book_vibranium.Engine.{MatchResult, match, limiting_funds}
use order_book_vibranium.Engine.Quantity.{IsFunds}
use order_book_vibranium.Engine.Ready.{IsTaker}
use order_book_vibranium.Ranking.{Ranks, ranked, set_ranked, enqueue, rank_match, rank_cancel}

-- One call, with the readings of its clock.
pub data Command : Type 0 where
  submit : (ℕ → Time) → Order → Option Int64 → Command
  withdrawal : Uuid → Command
  restore : Order → Command

pub data Answer : Type 0 where
  matched : MatchResult → Answer
  withdrawn : Option Order → Answer
  restored : Answer

unfoldable pub run_command : Command → Book → Run (Book × Answer)
run_command (submit clock o funds) b = elim (match clock b o funds) [
  | done (b', r) ↦ done (b', matched r)
  | panic ↦ panic
  | out_of_fuel ↦ out_of_fuel
]
run_command (withdrawal id) b = let (o, b') = cancel id b in done (b', withdrawn o)
run_command (restore o) b = elim (add_resting o b) [
  | done b' ↦ done (b', restored)
  | panic ↦ panic
  | out_of_fuel ↦ out_of_fuel
]

unfoldable pub rank_command : Command → Ranks → Option (Ranks × Answer)
unfolding rank_match rank_cancel enqueue
rank_command (submit clock o funds) rk = elim (rank_match clock rk o funds) [
  | none ↦ none
  | some (rk', r) ↦ some (rk', matched r)
]
rank_command (withdrawal id) rk = let (o, rk') = rank_cancel id rk in some (rk', withdrawn o)
rank_command (restore o) rk =
    some (set_ranked rk o.side (enqueue o.side o (ranked rk o.side)), restored)

-- The calls in order, with their answers.
unfoldable pub run_commands : List Command → Book → Run (Book × List Answer)
unfolding run_command
run_commands [] b = done (b, [])
run_commands (c ∷ cs) b = elim (run_command c b) [
  | panic ↦ panic
  | out_of_fuel ↦ out_of_fuel
  | done (b', a) ↦ elim (run_commands cs b') [
    | panic ↦ panic
    | out_of_fuel ↦ out_of_fuel
    | done (b'', more) ↦ done (b'', a ∷ more)
  ]
]

unfoldable pub rank_commands : List Command → Ranks → Option (Ranks × List Answer)
unfolding rank_command
rank_commands [] rk = some (rk, [])
rank_commands (c ∷ cs) rk = elim (rank_command c rk) [
  | none ↦ none
  | some (rk', a) ↦ elim (rank_commands cs rk') [
    | none ↦ none
    | some (rk'', more) ↦ some (rk'', a ∷ more)
  ]
]

-- The id of the order that the call brings.
abbrev pub brings : Command → Option Order
brings (submit clock o funds) = some o
brings (withdrawal id) = none
brings (restore o) = some o

abbrev pub IsOther : Uuid → Option Order → Type 0
IsOther id none = Unit
IsOther id (some o) = id ≢ o.id

abbrev pub NoneBrings : Uuid → List Command → Type 0
NoneBrings id [] = Unit
NoneBrings id (c ∷ cs) = IsOther id (brings c) × NoneBrings id cs

-- The arguments that the calls are made with: valid orders and funds, and for AddResting a LIMIT
-- order with something left.
abbrev pub IsCall : Command → Type 0
IsCall (submit clock o funds) = IsTaker o × IsFunds (limiting_funds o funds)
IsCall (withdrawal id) = Unit
IsCall (restore o) = IsTaker o × (o.order_type ≡ OrderType.limit) × (0 < left o)

-- No later call brings the id.
abbrev pub IsLast : Option Order → List Command → Type 0
IsLast none cs = Unit
IsLast (some o) cs = NoneBrings o.id cs

-- No two calls bring one id.
abbrev pub AreCalls : List Command → Type 0
AreCalls [] = Unit
AreCalls (c ∷ cs) = IsCall c × IsLast (brings c) cs × AreCalls cs
