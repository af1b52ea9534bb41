-- ===== src/Publisher/Publishing.antt =====
-- internal/application/outboxapp/publisher_loop.go: an event is marked only once it is in the stream.
use order_book_vibranium.Base.{
  ℕ, ◌≡◌, ◌⊎◌, Bool, true, false, [], ◌∷◌, ◌++◌, ◌==◌, ◌&&◌, not, arith,
}
use order_book_vibranium.Base.Run.{Result, ok, err}
use order_book_vibranium.Store.{
  Database, OutboxEvent, Session, Faults, Failure, transaction_if, commit_if, commit, query, exec,
  command,
}
use order_book_vibranium.Store.Repositories.{any, update_rows, lock_if_unpublished, mark_published}
use order_book_vibranium.Publisher.{publish, publish_locked, publish_and_mark_one}

-- The tables with the event marked as published.
abbrev pub with_mark : ℕ → Database → Database
with_mark id db = record db {
  outbox_events =
      update_rows (λ (e : OutboxEvent). e.id == id) (λ e. record e { published = true })
        db.outbox_events;
}

abbrev pub is_unpublished : ℕ → Database → Bool
is_unpublished id db = any (λ (e : OutboxEvent). (e.id == id) && not e.published) db.outbox_events

-- How publishAndMarkOne ends.
abbrev pub Publishes : OutboxEvent → Session → Result Failure Bool × Session → Type 0
Publishes e s (ok true, t) =
    (is_unpublished e.id s.db ≡ true) × (t.sent ≡ s.sent ++ e ∷ []) × (t.db ≡ with_mark e.id s.db)
Publishes e s (ok false, t) = (is_unpublished e.id s.db ≡ false) × (t.sent ≡ s.sent) × (t.db ≡ s.db)
Publishes e s (err f, t) =
    (t.sent ≡ s.sent) × (t.db ≡ s.db)
    ⊎ (t.sent ≡ s.sent ++ e ∷ []) × ((t.db ≡ s.db) ⊎ (t.db ≡ with_mark e.id s.db))

-- publishAndMarkOne, whatever calls of Postgres and Redis fail or lose their reply: true means that
-- the event had no mark, that one XADD has put it in its stream, and that it is marked now; false
-- that there was no such row without a mark, and nothing is sent or changed; an error has put the
-- event in its stream at most once, and marks it only if its XADD took effect.
pub publish_and_mark_one-Publishes :
    (e : OutboxEvent) (faults : Faults) (s : Session)
    → Publishes e s (publish_and_mark_one e faults s)
unfolding publish_and_mark_one publish_locked publish transaction_if commit_if commit query exec
    command lock_if_unpublished mark_published
publish_and_mark_one-Publishes e faults s = ground arith
