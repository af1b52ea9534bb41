-- ===== src/Matcher/Loop.antt =====
-- internal/application/matcherapp/consumer_loop.go: reading, acknowledging, and recovery.
--
-- `replies n` is what the n-th call of the process reads from the stream, and `stops n` whether the
-- context is cancelled by then. The endless loops take fuel; running out of it is an outcome of its
-- own. The pauses before a retry have no effect on the state.
use order_book_vibranium.Base.{
  ℕ, zero, suc, Bool, true, false, List, [], ◌∷◌, ◌++◌, length, if◌then◌else◌,
}
use order_book_vibranium.Base.Run.{Result, ok, err}
use order_book_vibranium.Store.{
  Action, Failure, context_done, no_fuel, pure, raise, attempt, remote, ◌>>=◌, ◌>>◌,
}
use order_book_vibranium.Matcher.{Message, apply_batch}
use order_book_vibranium.Matcher.Recovery.{resync_book}

unfoldable pub set_dirty : Bool → Action (Unit {0})
set_dirty d faults s = (ok tt, record s { book_dirty = d })

abbrev pub message_ids : List Message → List ℕ
message_ids [] = []
message_ids (m ∷ ms) = m.id ∷ message_ids ms

-- Consumer.Ack, on at least one id.
unfoldable pub ack : List ℕ → Action (Unit {0})
ack ids = remote tt (λ s. record s { acked = s.acked ++ ids })

-- What follows applyBatch: an error marks the book, a success acknowledges the messages.
unfoldable pub after_batch : List Message → Result Failure (Unit {0}) → Action ℕ
unfolding set_dirty ack
after_batch msgs (err e) = set_dirty true >> raise e
after_batch msgs (ok u) = do ack (message_ids msgs); pure (length msgs)

-- processMessages
unfoldable pub process_messages : List Message → Action ℕ
process_messages [] = pure 0
process_messages (m ∷ ms) = do r ← attempt (apply_batch (m ∷ ms)); after_batch (m ∷ ms) r

module _ (replies : ℕ → List Message) (stops : ℕ → Bool) where
  -- Consumer.ReadBatch and ReadPending
  unfoldable pub read : Action (List Message)
  read faults s = remote (replies s.calls) (λ t. t) faults s

  unfoldable pub check_context : Action (Unit {0})
  check_context faults s = (if stops s.calls then err context_done else ok tt, s)

  -- ProcessOnce
  unfoldable pub process_once : Action ℕ
  unfolding read
  process_once = do msgs ← read; process_messages msgs

  -- One round of ReclaimPending, which `again` repeats.
  unfoldable pub reclaim_batch : List Message → Action (Unit {0}) → Action (Unit {0})
  reclaim_batch [] again = pure tt
  reclaim_batch (m ∷ ms) again = do n ← process_messages (m ∷ ms); again

  -- ReclaimPending
  unfoldable pub reclaim_pending : ℕ → Action (Unit {0})
  unfolding read check_context reclaim_batch
  reclaim_pending zero = raise no_fuel
  reclaim_pending (suc k) = do check_context; msgs ← read; reclaim_batch msgs (reclaim_pending k)

  unfoldable pub after_resync : Result Failure (Unit {0}) → Action (Unit {0}) → Action (Unit {0})
  after_resync (err e) again = again
  after_resync (ok u) again = set_dirty false

  -- The loop of recoverAfterFailure: the book is rebuilt until it succeeds.
  unfoldable pub resync_until_clean : ℕ → Action (Unit {0})
  unfolding check_context after_resync
  resync_until_clean zero = raise no_fuel
  resync_until_clean (suc k) = do
    check_context
    r ← attempt resync_book
    after_resync r (resync_until_clean k)

  -- recoverAfterFailure; an error of ReclaimPending is logged and dropped.
  unfoldable pub recover_after_failure : ℕ → Action (Unit {0})
  unfolding resync_until_clean reclaim_pending
  recover_after_failure k = do
    (λ faults s. (if s.book_dirty then resync_until_clean k else pure tt) faults s)
    r ← attempt (reclaim_pending k)
    pure tt

  unfoldable pub after_cycle : ℕ → Result Failure ℕ → Action (Unit {0})
  after_cycle k (ok n) = pure tt
  after_cycle k (err e) = recover_after_failure k

  -- The loop of Run.
  unfoldable pub cycles : ℕ → ℕ → Action (Unit {0})
  unfolding process_once check_context after_cycle
  cycles k zero = raise no_fuel
  cycles k (suc n) = do check_context; r ← attempt process_once; after_cycle k r; cycles k n

  -- Run
  unfoldable pub run : ℕ → ℕ → Action (Unit {0})
  unfolding cycles reclaim_pending
  run k n = reclaim_pending k >> cycles k n
