-- ===== src/Matcher/Rounds.antt =====
-- internal/application/matcherapp/consumer_loop.go: what Run and its recovery keep, if a batch does.
use order_book_vibranium.Base.{
  ◌≡◌, ap, length, ℕ, zero, suc, refl, Bool, true, false, List, [], ◌∷◌, if◌then◌else◌, arith,
}
use order_book_vibranium.Base.Run.{Result, ok, err, Run, done, panic, out_of_fuel}
use order_book_vibranium.Book.{new_book}
use order_book_vibranium.Store.{
  Database, OutboxEvent, Session, Action, Failure, pure, attempt, remote, query, ◌>>=◌, ◌>>◌,
}
use order_book_vibranium.Store.Repositories.{list_open_for_recovery}
use order_book_vibranium.Matcher.{Message, apply_batch}
use order_book_vibranium.Matcher.Recovery.{rest_all, run_or_raise, recover_book, resync_book}
use order_book_vibranium.Matcher.Frames.{Keeps, >>=-Keeps}
use order_book_vibranium.Matcher.Loop.{
  ack, after_batch, message_ids, set_dirty, process_messages, read, check_context, process_once,
  reclaim_batch, reclaim_pending, after_resync, resync_until_clean, recover_after_failure,
  after_cycle, cycles, run,
}
use order_book_vibranium.Matcher.Safe.{durable, IsDurable, Safe, >>=-Safe, attempt-Safe, Keeps-Safe}

run_or_raise-Keeps : {A : Type 0} (r : Run A) → Keeps durable (run_or_raise r)
unfolding run_or_raise
run_or_raise-Keeps (done a) faults s = refl
run_or_raise-Keeps panic faults s = refl
run_or_raise-Keeps out_of_fuel faults s = refl

open_orders-Keeps : Keeps durable list_open_for_recovery
unfolding list_open_for_recovery query
open_orders-Keeps faults s = ground arith

pub recover_book-Keeps : Keeps durable recover_book
unfolding recover_book
recover_book-Keeps =
    >>=-Keeps durable list_open_for_recovery (λ os. run_or_raise (rest_all os new_book))
      open_orders-Keeps (λ os. run_or_raise-Keeps (rest_all os new_book))

resync_book-Keeps : Keeps durable resync_book
unfolding resync_book
resync_book-Keeps =
    >>=-Keeps durable recover_book (λ b faults s. (ok tt, record s { book = b })) recover_book-Keeps
      (λ b faults s. refl)

module _ (replies : ℕ → List Message) (stops : ℕ → Bool) (P : Session → Type 0) (kept : IsDurable P)
    (batch_safe : (msgs : List Message) → Safe P (process_messages msgs)) where
  check_context-Safe : Safe P (check_context replies stops)
  unfolding check_context
  check_context-Safe faults s c = c

  read-Safe : Safe P (read replies stops)
  unfolding read remote
  read-Safe = Keeps-Safe P (read replies stops) kept (λ faults s. ground arith)

  process_once-Safe : Safe P (process_once replies stops)
  unfolding process_once
  process_once-Safe = >>=-Safe P (read replies stops) process_messages read-Safe batch_safe

  reclaim_batch-Safe :
      (msgs : List Message) (again : Action (Unit {0}))
      → Safe P again
      → Safe P (reclaim_batch replies stops msgs again)
  unfolding reclaim_batch
  reclaim_batch-Safe [] again h = λ faults s c. c
  reclaim_batch-Safe (m ∷ ms) again h =
      >>=-Safe P (process_messages (m ∷ ms)) (λ n. again) (batch_safe (m ∷ ms)) (λ n. h)

  reclaim_pending-Safe : (k : ℕ) → Safe P (reclaim_pending replies stops k)
  unfolding reclaim_pending
  reclaim_pending-Safe zero = λ faults s c. c
  reclaim_pending-Safe (suc k) =
      let next = λ (msgs : List Message).
        reclaim_batch replies stops msgs (reclaim_pending replies stops k) in
      >>=-Safe P (check_context replies stops) (λ _. read replies stops >>= next) check_context-Safe
        (λ _. >>=-Safe P (read replies stops) next read-Safe (λ msgs.
          reclaim_batch-Safe msgs (reclaim_pending replies stops k) (reclaim_pending-Safe k)))

  after_resync-Safe :
      (r : Result Failure (Unit {0})) (again : Action (Unit {0}))
      → Safe P again
      → Safe P (after_resync replies stops r again)
  unfolding after_resync set_dirty
  after_resync-Safe (ok u) again h = Keeps-Safe P (set_dirty false) kept (λ faults s. refl)
  after_resync-Safe (err e) again h = h

  resync_until_clean-Safe : (k : ℕ) → Safe P (resync_until_clean replies stops k)
  unfolding resync_until_clean
  resync_until_clean-Safe zero = λ faults s c. c
  resync_until_clean-Safe (suc k) =
      let next = λ (r : Result Failure (Unit {0})).
        after_resync replies stops r (resync_until_clean replies stops k) in
      >>=-Safe P (check_context replies stops) (λ _. attempt resync_book >>= next)
        check_context-Safe
        (λ _.
          >>=-Safe P (attempt resync_book) next
            (attempt-Safe P resync_book (Keeps-Safe P resync_book kept resync_book-Keeps))
            (λ r.
              after_resync-Safe r (resync_until_clean replies stops k) (resync_until_clean-Safe k)))

  clean_first-Safe :
      (k : ℕ)
      → Safe P (λ faults s.
        (if s.book_dirty then resync_until_clean replies stops k else pure tt) faults s)
  clean_first-Safe k faults s c =
      elim s.book_dirty
        as (λ b. P ((if b then resync_until_clean replies stops k else pure tt) faults s).1) [
          | true ↦ resync_until_clean-Safe k faults s c
          | false ↦ c
        ]

  recover_after_failure-Safe : (k : ℕ) → Safe P (recover_after_failure replies stops k)
  unfolding recover_after_failure
  recover_after_failure-Safe k =
      >>=-Safe P
        (λ faults s.
          (if s.book_dirty then resync_until_clean replies stops k else pure tt) faults s)
        (λ _. attempt (reclaim_pending replies stops k) >>= λ _. pure tt) (clean_first-Safe k)
        (λ _.
          >>=-Safe P (attempt (reclaim_pending replies stops k)) (λ _. pure tt)
            (attempt-Safe P (reclaim_pending replies stops k) (reclaim_pending-Safe k))
            (λ r faults s c. c))

  after_cycle-Safe : (k : ℕ) (r : Result Failure ℕ) → Safe P (after_cycle replies stops k r)
  unfolding after_cycle
  after_cycle-Safe k (ok n) = λ faults s c. c
  after_cycle-Safe k (err e) = recover_after_failure-Safe k

  cycles-Safe : (k n : ℕ) → Safe P (cycles replies stops k n)
  unfolding cycles
  cycles-Safe k zero = λ faults s c. c
  cycles-Safe k (suc n) =
      let next =
        λ (r : Result Failure ℕ). after_cycle replies stops k r >> cycles replies stops k n in
      >>=-Safe P (check_context replies stops) (λ _. attempt (process_once replies stops) >>= next)
        check_context-Safe
        (λ _.
          >>=-Safe P (attempt (process_once replies stops)) next
            (attempt-Safe P (process_once replies stops) process_once-Safe)
            (λ r.
              >>=-Safe P (after_cycle replies stops k r) (λ _. cycles replies stops k n)
                (after_cycle-Safe k r) (λ _. cycles-Safe k n)))

  -- What every batch keeps, Run keeps.
  pub run-Safe : (k n : ℕ) → Safe P (run replies stops k n)
  unfolding run
  run-Safe k n =
      >>=-Safe P (reclaim_pending replies stops k) (λ _. cycles replies stops k n)
        (reclaim_pending-Safe k) (λ _. cycles-Safe k n)

-- What does not concern the acknowledgements.
abbrev pub plain : Session → Database × List OutboxEvent
plain s = (s.db, s.sent)

-- What every batch keeps of the tables and the sent events, Run keeps.
module _ (P : Session → Type 0) (kept : (s t : Session) → plain t ≡ plain s → P s → P t)
    (batch_safe : (msgs : List Message) → Safe P (apply_batch msgs)) where
  after_batch-Safe :
      (msgs : List Message) (r : Result Failure (Unit {0})) → Safe P (after_batch msgs r)
  unfolding after_batch ack set_dirty remote
  after_batch-Safe msgs (err e) = λ faults s. kept s (record s { book_dirty = true }) refl
  after_batch-Safe msgs (ok u) =
      >>=-Safe P (ack (message_ids msgs)) (λ _. pure (length msgs))
        (λ faults s. kept s (ack (message_ids msgs) faults s).1 (ground arith)) (λ _ faults s c. c)

  process_messages-Safe : (msgs : List Message) → Safe P (process_messages msgs)
  unfolding process_messages
  process_messages-Safe [] = λ faults s c. c
  process_messages-Safe (m ∷ ms) =
      >>=-Safe P (attempt (apply_batch (m ∷ ms))) (after_batch (m ∷ ms))
        (attempt-Safe P (apply_batch (m ∷ ms)) (batch_safe (m ∷ ms))) (after_batch-Safe (m ∷ ms))

  pub run_plain-Safe :
      (replies : ℕ → List Message) (stops : ℕ → Bool) (k n : ℕ) → Safe P (run replies stops k n)
  run_plain-Safe replies stops =
      run-Safe replies stops P
        (λ s t e. kept s t (ap (λ (p : Database × List ℕ × List OutboxEvent). (p.0, p.2)) e))
        process_messages-Safe
