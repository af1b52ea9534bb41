-- ===== src/Ranking/Answers.antt =====
-- internal/domain/matching/book.go and engine.go: one call on the book and on the sorted lists.
use order_book_vibranium.Base.{ℕ, ◌≡◌, ◌≢◌, refl, sym, ap, Option, none, some, arith}
use order_book_vibranium.Base.Int64.{Int64}
use order_book_vibranium.Base.Run.{Run, done, panic, out_of_fuel}
use order_book_vibranium.Base.Assoc.{lookup}
use order_book_vibranium.Order.{Order, Time, Uuid}
use order_book_vibranium.Book.{Book, add_to_side, cancel}
use order_book_vibranium.Book.Invariant.{IsValid, Rests}
use order_book_vibranium.Book.Cancelling.{Cancels, cancel-Cancels}
use order_book_vibranium.Engine.{MatchResult, match, level_side}
use order_book_vibranium.Engine.Ready.{IsReady}
use order_book_vibranium.Engine.Outcome.{start, limit-IsPrice}
use order_book_vibranium.Engine.Known.{IsUnknown, match-IsUnknown, add_resting_unknown}
use order_book_vibranium.Ranking.{Ranks, ranked, rank_match, rank_cancel}
use order_book_vibranium.Ranking.Refined.{Refines, match-Refines}
use order_book_vibranium.Ranking.Resting.{
  IsRanked, add_resting-eq, joined-Represents, ranked-Represents, add_to_side-IsRanked,
}
use order_book_vibranium.Engine.Settling.{level_side-IsTraded}
use order_book_vibranium.Ranking.Withdrawn.{RefinesCancel, cancel-Refines}
use order_book_vibranium.Ranking.Commands.{
  Command, submit, withdrawal, restore, Answer, matched, withdrawn, restored, run_command,
  rank_command, brings, IsOther, IsCall,
}

abbrev pub IsFresh : Book → Option Order → Type 0
IsFresh b none = Unit
IsFresh b (some o) = lookup o.id b.locations ≡ none

-- The book and the answer of a call are those of the sorted lists, and the book knows no new ids
-- but that of the call.
abbrev pub Answers : Command → Book → Run (Book × Answer) → Option (Ranks × Answer) → Type 0
Answers c b (done (b', a)) (some (rk, a')) =
    IsValid b'
    × IsRanked b' rk
    × (a ≡ a')
    × ((j : Uuid)
        → IsOther j (brings c)
        → lookup j b.locations ≡ none
        → lookup j b'.locations ≡ none)
Answers c b _ _ = ⊥

match-Answers :
    (clock : ℕ → Time) (o : Order) (funds : Option Int64) (b : Book) (x : Run (Book × MatchResult))
    (y : Option (Ranks × MatchResult))
    → Refines x y
    → ((j : Uuid) → o.id ≢ j → lookup j b.locations ≡ none → IsUnknown j x)
    → Answers
        (submit clock o funds)
        b
        (elim x [ done (b', r) ↦ done (b', matched r) | panic ↦ panic | out_of_fuel ↦ out_of_fuel ])
        (elim y [ none ↦ none | some (rk', r) ↦ some (rk', matched r) ])
match-Answers clock o funds b (done (b', r)) (some (rk, r')) (v, k, e) new =
    (v, k, ap matched e, λ j ne h. new j (λ z. ne (sym z)) h)
match-Answers clock o funds b (done (b', r)) none z new = z
match-Answers clock o funds b panic y z new = z
match-Answers clock o funds b out_of_fuel y z new = z

cancel-Answers :
    (id : Uuid) (b : Book) (x : Option Order × Book) (y : Option Order × Ranks)
    → IsValid b
    → Cancels b id x
    → RefinesCancel x y
    → Answers (withdrawal id) b (done (x.1, withdrawn x.0)) (some (y.1, withdrawn y.0))
cancel-Answers id b (none, b') (o, rk) v (unknown, same) (e, k) =
    (rw same v, k, ap withdrawn e, λ j ne h. rw same h)
cancel-Answers id b (some o', b') (o, rk) v (same_id, rests, valid, forgets) (e, k) =
    (valid, k, ap withdrawn e, λ j ne h. ground (arith, forgets j, h))

run_restore :
    (o : Order) (b : Book) (p : Int64)
    → o.price_cents ≡ some p
    → run_command (restore o) b ≡ done (add_to_side o.side p o b, restored)
unfolding run_command
run_restore o b p priced = rw (add_resting-eq o b p priced, run_command) refl

restore-Answers :
    (o : Order) (b : Book) (rk : Ranks)
    → IsCall (restore o)
    → IsValid b
    → IsRanked b rk
    → lookup o.id b.locations ≡ none
    → Answers (restore o) b (run_command (restore o) b) (rank_command (restore o) rk)
unfolding rank_command
restore-Answers o b rk (taker, limit, some_left) v r fresh =
    let (p, is_price, priced) = limit-IsPrice o.order_type o.price_cents taker.priced limit in
    let rests : Rests o.side p o = record {
      valid = taker.valid;
      some_left = some_left;
      side = refl;
      order_type = limit;
      price = priced;
    } in
    let against = level_side-IsTraded o.side taker.traded in
    let (valid', opposite, own_side) =
      joined-Represents b o p (ranked rk o.side) (ranked rk (level_side o.side)) v taker.traded
        is_price rests fresh (ranked-Represents b rk (level_side o.side) against r)
        (ranked-Represents b rk o.side taker.traded r) in
    rw (run_restore o b p priced) (
      valid',
      add_to_side-IsRanked b rk o p taker.traded opposite own_side,
      refl,
      λ j ne h.
          add_resting_unknown j o p b (add_to_side o.side p o b) priced
            (add_resting-eq o b p priced) (λ z. ne (sym z)) h,
    )

-- One call from a consistent book whose sides are the lists.
pub command-Answers :
    (c : Command) (b : Book) (rk : Ranks)
    → IsCall c
    → IsValid b
    → IsRanked b rk
    → IsFresh b (brings c)
    → Answers c b (run_command c b) (rank_command c rk)
unfolding run_command rank_command
command-Answers (submit clock o funds) b rk (taker, paid) v r fresh =
    let ready : IsReady (start b o funds) = record {
      book = v;
      taker = taker;
      fresh = fresh;
      funds = paid;
    } in
    match-Answers clock o funds b (match clock b o funds) (rank_match clock rk o funds)
      (match-Refines clock b rk o funds ready r)
      (λ j ne h. match-IsUnknown j clock b o funds ready ne h)
command-Answers (withdrawal id) b rk call v r fresh =
    cancel-Answers id b (cancel id b) (rank_cancel id rk) v (cancel-Cancels b id v)
      (cancel-Refines b v rk r id)
command-Answers (restore o) b rk call v r fresh = restore-Answers o b rk call v r fresh
