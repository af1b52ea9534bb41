-- ===== src/Matcher/Recovery.antt =====
-- internal/application/matcherapp/book_recovery.go: the book is rebuilt from the open orders.
use order_book_vibranium.Base.{List, [], ◌∷◌, if◌then◌else◌}
use order_book_vibranium.Base.Run.{ok, err, Run, done, panic, out_of_fuel}
use order_book_vibranium.Order.{Order, is_limit}
use order_book_vibranium.Book.{Book, new_book, add_resting}
use order_book_vibranium.Store.{Action, panicked, no_fuel, ◌>>=◌}
use order_book_vibranium.Store.Repositories.{list_open_for_recovery}

-- The loop over the open orders.
unfoldable pub rest_all : List Order → Book → Run Book
rest_all [] b = done b
rest_all (o ∷ os) b =
    if is_limit o.order_type
    then elim (add_resting o b) [
      | done b' ↦ rest_all os b'
      | panic ↦ panic
      | out_of_fuel ↦ out_of_fuel
    ]
    else rest_all os b

unfoldable pub run_or_raise : {A : Type 0} → Run A → Action A
run_or_raise (done a) faults s = (ok a, s)
run_or_raise panic faults s = (err panicked, s)
run_or_raise out_of_fuel faults s = (err no_fuel, s)

-- RecoverBook
unfoldable pub recover_book : Action Book
unfolding rest_all run_or_raise
recover_book = do open_orders ← list_open_for_recovery; run_or_raise (rest_all open_orders new_book)

-- resyncBook: the book is replaced only if all of it could be read.
unfoldable pub resync_book : Action (Unit {0})
unfolding recover_book
resync_book = do b ← recover_book; λ faults s. (ok tt, record s { book = b })
