-- ===== src/System/Polls.antt =====
-- internal/application/outboxapp/publisher_loop.go: ticks of the publisher on the database that the
-- three programs share.
use order_book_vibranium.Base.{ℕ, ◌≡◌, sym, ◌∙◌, inl, inr, Bool, true, false, List, [], ◌∷◌, arith}
use mathlib.Core.Path.{subst}
use order_book_vibranium.Base.Int64.{Int64}
use order_book_vibranium.Base.Run.{Result, ok, err}
use order_book_vibranium.Wallet.{Wallet}
use order_book_vibranium.Store.{
  Database, OutboxEvent, Session, Failure, command, transaction, transaction_if, commit_if, commit,
  query, exec,
}
use order_book_vibranium.Store.Repositories.{
  update_rows, lock_if_unpublished, mark_published, fetch_unpublished_batch,
}
use order_book_vibranium.Publisher.{publish, publish_locked, publish_and_mark_one, fetch_batch, run}
use order_book_vibranium.Publisher.Publishing.{Publishes, publish_and_mark_one-Publishes}
use order_book_vibranium.Publisher.Delivered.{Fetches, fetch_batch-Fetches}
use order_book_vibranium.Publisher.Rows.{marked}
use order_book_vibranium.Publisher.Rounds.{run-Safe}
use order_book_vibranium.Matcher.Frames.{Keeps}
use order_book_vibranium.Matcher.Safe.{Safe}
use order_book_vibranium.System.Fresh.{Below}

-- What the publisher has no part in.
pub record Others : Type 0 where
  pub wallets : List Wallet
  pub processed : List ℕ
  pub next : ℕ
  pub acked : List ℕ

abbrev pub others : Session → Others
others s = record {
  wallets = s.db.wallets;
  processed = s.db.processed_stream_events;
  next = s.db.next_outbox_id;
  acked = s.acked;
}

one-Keeps : (e : OutboxEvent) → Keeps others (publish_and_mark_one e)
unfolding publish_and_mark_one publish_locked publish transaction_if commit_if commit query exec
    command lock_if_unpublished mark_published
one-Keeps e faults s = ground arith

fetch_batch-Keeps : (n : Int64) → Keeps others (fetch_batch n)
unfolding fetch_batch fetch_unpublished_batch transaction commit query
fetch_batch-Keeps n faults s = ground arith

mark-Below : (n id : ℕ) (rows : List OutboxEvent) → Below n rows → Below n (marked id rows)
unfolding update_rows
mark-Below n id [] b = tt
mark-Below n id (r ∷ rows) b = (ground (arith, b.0), mark-Below n id rows b.1)

-- The rows of the outbox, apart from the number that the next one gets.
abbrev Numbered : ℕ → Session → Type 0
Numbered n s = Below n s.db.outbox_events

numbered_lem :
    (n : ℕ) (e : OutboxEvent) (s : Session) (p : Result Failure Bool × Session)
    → Publishes e s p
    → Numbered n s
    → Numbered n p.1
numbered_lem n e s (ok true, t) (_, _, db) b =
    subst (λ (d : Database). Below n d.outbox_events) (sym db)
      (mark-Below n e.id s.db.outbox_events b)
numbered_lem n e s (ok false, t) (_, _, db) b =
    subst (λ (d : Database). Below n d.outbox_events) (sym db) b
numbered_lem n e s (err f, t) (inl (_, db)) b =
    subst (λ (d : Database). Below n d.outbox_events) (sym db) b
numbered_lem n e s (err f, t) (inr (_, inl db)) b =
    subst (λ (d : Database). Below n d.outbox_events) (sym db) b
numbered_lem n e s (err f, t) (inr (_, inr db)) b =
    subst (λ (d : Database). Below n d.outbox_events) (sym db)
      (mark-Below n e.id s.db.outbox_events b)

fetched_lem :
    (n : ℕ) (k : Int64) (s : Session) (p : Result Failure (List OutboxEvent) × Session)
    → Fetches k s p
    → Numbered n s
    → Numbered n p.1
fetched_lem n k s (ok es, t) (_, db, _) b =
    subst (λ (d : Database). Below n d.outbox_events) (sym db) b
fetched_lem n k s (err f, t) (db, _) b =
    subst (λ (d : Database). Below n d.outbox_events) (sym db) b

-- Run of the publisher changes nothing else, and gives no new numbers.
pub run-Keeps :
    (stops : ℕ → Bool) (batch_size : Int64) (interval : Int64) (ticks n : ℕ) (o : Others)
    → Safe (λ s. (others s ≡ o) × Numbered n s) (run stops batch_size interval ticks)
run-Keeps stops batch_size interval ticks n o =
    run-Safe (λ s. (others s ≡ o) × Numbered n s)
      (λ e faults s c. (
        one-Keeps e faults s ∙ c.0,
        numbered_lem n e s (publish_and_mark_one e faults s)
            (publish_and_mark_one-Publishes e faults s) c.1,
      ))
      (λ k faults s c. (
        fetch_batch-Keeps k faults s ∙ c.0,
        fetched_lem n k s (fetch_batch k faults s) (fetch_batch-Fetches k faults s) c.1,
      ))
      stops batch_size interval ticks
