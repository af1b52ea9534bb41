-- ===== src/Publisher/Rounds.antt =====
-- internal/application/outboxapp/publisher_loop.go: what Run keeps, if each candidate does.
use order_book_vibranium.Base.{
  ℕ, zero, suc, Bool, true, false, Option, some, List, [], ◌∷◌, if◌then◌else◌,
}
use order_book_vibranium.Base.Int64
use order_book_vibranium.Base.Int64.{Int64, pos}
use order_book_vibranium.Base.Run.{Result, ok, err}
use order_book_vibranium.Store.{
  OutboxEvent, Session, Failure, context_done, panicked, Action, pure, raise, attempt, ◌>>=◌,
}
use order_book_vibranium.Publisher.{
  fetch_batch, publish_and_mark_one, publish_each, publish_once, poll, run,
}
use order_book_vibranium.Matcher.Safe.{Safe, >>=-Safe, attempt-Safe}

module _ (P : Session → Type 0) (one_safe : (e : OutboxEvent) → Safe P (publish_and_mark_one e))
    (fetch_safe : (n : Int64) → Safe P (fetch_batch n)) where
  answered :
      (n : ℕ) (es : List OutboxEvent)
      → ((k : ℕ) → Safe P (publish_each k es))
      → (r : Result Failure Bool)
      → Safe P (elim r as (λ _. Action (ℕ × Option Failure)) [
        | err f ↦ pure (n, some f)
        | ok true ↦ publish_each (suc n) es
        | ok false ↦ publish_each n es
      ])
  answered n es h (err f) = λ faults s c. c
  answered n es h (ok true) = h (suc n)
  answered n es h (ok false) = h n

  publish_each-Safe : (es : List OutboxEvent) (n : ℕ) → Safe P (publish_each n es)
  unfolding publish_each
  publish_each-Safe [] n = λ faults s c. c
  publish_each-Safe (e ∷ es) n =
      >>=-Safe P (attempt (publish_and_mark_one e))
        (λ r. elim r [
          | err f ↦ pure (n, some f)
          | ok true ↦ publish_each (suc n) es
          | ok false ↦ publish_each n es
        ])
        (attempt-Safe P (publish_and_mark_one e) (one_safe e))
        (answered n es (publish_each-Safe es))

  fetched :
      (r : Result Failure (List OutboxEvent))
      → Safe P (elim r as (λ _. Action (ℕ × Option Failure)) [
        | err f ↦ pure (0, some f)
        | ok events ↦ publish_each 0 events
      ])
  fetched (err f) = λ faults s c. c
  fetched (ok es) = publish_each-Safe es 0

  publish_once-Safe : (n : Int64) → Safe P (publish_once n)
  unfolding publish_once
  publish_once-Safe n =
      >>=-Safe P (attempt (fetch_batch n))
        (λ r. elim r [ err f ↦ pure (0, some f) | ok events ↦ publish_each 0 events ])
        (attempt-Safe P (fetch_batch n) (fetch_safe n)) fetched

  poll-Safe : (stops : ℕ → Bool) (n : Int64) (ticks : ℕ) → Safe P (poll stops n ticks)
  unfolding poll
  poll-Safe stops n zero = λ faults s c. c
  poll-Safe stops n (suc ticks) =
      >>=-Safe P (λ faults s. (if stops s.calls then err context_done else ok tt, s))
        (λ _. publish_once n >>= λ _. poll stops n ticks) (λ faults s c. c)
        (λ _.
          >>=-Safe P (publish_once n) (λ _. poll stops n ticks) (publish_once-Safe n)
            (λ _. poll-Safe stops n ticks))

  pub run-Safe :
      (stops : ℕ → Bool) (n : Int64) (interval : Int64) (ticks : ℕ)
      → Safe P (run stops n interval ticks)
  unfolding run
  run-Safe stops n interval ticks faults s c =
      elim (Int64.le interval (pos 0))
        as (λ (b : Bool). P ((if b then raise panicked else poll stops n ticks) faults s).1) [
          | true ↦ c
          | false ↦ poll-Safe stops n ticks faults s c
        ]
