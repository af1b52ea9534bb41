-- ===== src/Publisher/Polling.antt =====
-- internal/application/outboxapp/publisher_loop.go: Run.
use order_book_vibranium.Base.{
  ℕ, zero, suc, ◌*◌, ◌-◌, ◌≤◌, ◌≡◌, refl, sym, ap, ◌∙◌, Bool, true, false, Option, List, [], ◌∷◌,
  ◌++◌, if◌then◌else◌, arith, take, drop, length, length-drop, take-append-drop,
}
use mathlib.Core.List.{append-nil, append_assoc}
use order_book_vibranium.Base.Int64
use order_book_vibranium.Base.Int64.{Int64, pos}
use order_book_vibranium.Base.Run.{Result, ok, err}
use order_book_vibranium.Store.{
  OutboxEvent, Session, Faults, Failure, context_done, panicked, raise, ◌>>=◌,
}
use order_book_vibranium.Publisher.{publish_once, poll, run}
use order_book_vibranium.Publisher.Delivered.{IsDelivered, publish_once-Safe}
use order_book_vibranium.Publisher.Rows.{Unique}
use order_book_vibranium.Publisher.Progress.{no_faults, waiting, Sends, publish_once-Sends}
use order_book_vibranium.Matcher.Safe.{Safe, >>=-Safe}

poll-Safe :
    (stops : ℕ → Bool) (batch_size : Int64) (ticks : ℕ)
    → Safe IsDelivered (poll stops batch_size ticks)
unfolding poll
poll-Safe stops n zero = λ faults s d. d
poll-Safe stops n (suc ticks) =
    >>=-Safe IsDelivered (λ faults s. (if stops s.calls then err context_done else ok tt, s))
      (λ _. publish_once n >>= λ _. poll stops n ticks) (λ faults s d. d)
      (λ _.
        >>=-Safe IsDelivered (publish_once n) (λ _. poll stops n ticks) (publish_once-Safe n)
          (λ _. poll-Safe stops n ticks))

-- Run of the publisher, for every interval and number of ticks, whenever the context is cancelled
-- and whatever calls of Postgres and Redis fail: if the ids of the outbox differ and every row that
-- is marked as published is in its stream, as it was inserted, then this is so at the end: an event
-- is marked only after an XADD of it that took effect.
pub run-Delivers :
    (stops : ℕ → Bool) (batch_size : Int64) (interval : Int64) (ticks : ℕ) (faults : Faults)
    (s : Session)
    → IsDelivered s
    → IsDelivered (run stops batch_size interval ticks faults s).1
unfolding run
run-Delivers stops n interval ticks faults s d =
    elim (Int64.le interval (pos 0))
      as (λ (b : Bool).
        IsDelivered ((if b then raise panicked else poll stops n ticks) faults s).1) [
          | true ↦ d
          | false ↦ poll-Safe stops n ticks faults s d
        ]

-- What the ticks have sent of the rows that waited, and what is left of them.
abbrev Polled : ℕ → List OutboxEvent → Session → Session → Type 0
Polled room rows s t =
    (es : List OutboxEvent) × (rest : List OutboxEvent) × (rows ≡ es ++ rest)
    × (t.sent ≡ s.sent ++ es)
    × (waiting t.db.outbox_events ≡ rest)
    × (length rest ≡ length rows - room)

poll-Polled :
    (n ticks : ℕ) (s : Session)
    → Unique s.db.outbox_events
    → Polled
        (ticks * n)
        (waiting s.db.outbox_events)
        s
        (poll (λ k. false) (pos n) ticks no_faults s).1
unfolding poll
poll-Polled n zero s u =
    ([], waiting s.db.outbox_events, refl, sym (append-nil s.sent), refl, omega arith)
poll-Polled n (suc ticks) s u =
    let rows = waiting s.db.outbox_events in
    let sends = publish_once-Sends n s u in
    one_tick (publish_once (pos n) no_faults s) sends
      (poll-Polled n ticks (publish_once (pos n) no_faults s).1 sends.3)
  where
    one_tick :
        (p : Result Failure (ℕ × Option Failure) × Session)
        → Sends
            (length (take n (waiting s.db.outbox_events)))
            (take n (waiting s.db.outbox_events))
            (drop n (waiting s.db.outbox_events))
            s
            p
        → Polled
            (ticks * n)
            (waiting p.1.db.outbox_events)
            p.1
            (poll (λ k. false) (pos n) ticks no_faults p.1).1
        → Polled
            (suc ticks * n)
            (waiting s.db.outbox_events)
            s
            (elim p.0 as (λ _. Result Failure (Unit {0}) × Session) [
              | ok a ↦ poll (λ k. false) (pos n) ticks no_faults p.1
              | err e ↦ (err e, p.1)
            ]).1
    one_tick (err f, t) (done, _, _, _) q = ground (arith, done)
    one_tick (ok a, t) (_, sent, left, _) (es, rest, split, sent', left', room) = (
      take n (waiting s.db.outbox_events) ++ es,
      rest,
      sym (take-append-drop n (waiting s.db.outbox_events))
          ∙ ap (λ (x : List OutboxEvent). take n (waiting s.db.outbox_events) ++ x)
              (sym left ∙ split)
          ∙ sym (append_assoc (take n (waiting s.db.outbox_events)) es rest),
      sent'
          ∙ ap (λ (x : List OutboxEvent). x ++ es) sent
          ∙ append_assoc s.sent (take n (waiting s.db.outbox_events)) es,
      left',
      grind (
        arith,
        room,
        ap (length {A = OutboxEvent}) left,
        length-drop n (waiting s.db.outbox_events),
      ),
    )

-- Run of the publisher where no call fails and the context is not cancelled, with a positive
-- interval and ids of the outbox that differ: after ticks enough for the rows that wait, in batches
-- of the given size, exactly these rows have been put in their streams, in the order of the table, and
-- none waits.
pub run-Empties :
    (batch_size : ℕ) (interval : Int64) (ticks : ℕ) (s : Session)
    → Unique s.db.outbox_events
    → Int64.lt (pos 0) interval ≡ true
    → length (waiting s.db.outbox_events) ≤ ticks * batch_size
    → let t = (run (λ k. false) (pos batch_size) interval ticks no_faults s).1 in
      (t.sent ≡ s.sent ++ waiting s.db.outbox_events) × (waiting t.db.outbox_events ≡ [])
unfolding run
run-Empties n interval ticks s u positive enough =
    let runs : Int64.le interval (pos 0) ≡ false = ground (arith, positive) in
    let (es, rest, split, sent, left, room) = poll-Polled n ticks s u in
    let nothing : rest ≡ [] = empty rest (omega (arith, room, enough)) in
    rw runs (
      sent
          ∙ ap (λ (x : List OutboxEvent). s.sent ++ x)
              (sym (append-nil es)
                ∙ ap (λ (x : List OutboxEvent). es ++ x) (sym nothing)
                ∙ sym split),
      left ∙ nothing,
    )
  where
    empty : (xs : List OutboxEvent) → length xs ≡ 0 → xs ≡ []
    empty [] h = refl
    empty (x ∷ xs) h = absurd (omega arith)
