-- ===== src/Publisher/Progress.antt =====
-- internal/application/outboxapp/publisher_loop.go: what PublishOnce does where no call fails.
use order_book_vibranium.Base.{
  ℕ, suc, inl, inr, ◌+◌, ◌≡◌, refl, sym, ap, ◌∙◌, Bool, true, false, ◌&&◌, not, Option, none, some,
  List, [], ◌∷◌, ◌++◌, ◌==◌, ==_iff, arith, All, take, drop, take-append-drop, length, Bool-cases,
}
use mathlib.Core.Path.{subst}
use mathlib.Core.List.{append-nil, append_assoc}
use order_book_vibranium.Base.Int64
use order_book_vibranium.Base.Int64.{pos}
use order_book_vibranium.Base.Run.{Result, ok, err}
use order_book_vibranium.Store.{
  Database, OutboxEvent, Session, Faults, fine, Action, Failure, pure, attempt, ◌>>=◌, query,
  transaction, transaction_if, commit, commit_if, command, exec,
}
use order_book_vibranium.Store.Repositories.{
  any, filter, update_rows, fetch_unpublished_batch, lock_if_unpublished, mark_published,
}
use order_book_vibranium.Publisher.{
  publish, publish_locked, publish_and_mark_one, publish_each, publish_once, fetch_batch,
}
use order_book_vibranium.Publisher.Publishing.{with_mark, is_unpublished}
use order_book_vibranium.Publisher.Rows.{marked, Unique, mark-Unique}

-- Every call goes as it should.
abbrev pub no_faults : Faults
no_faults k = fine

abbrev pub waiting : List OutboxEvent → List OutboxEvent
waiting = filter (λ (e : OutboxEvent). not e.published)

mark_absent :
    (id : ℕ) (rows : List OutboxEvent)
    → All (λ (r : OutboxEvent). (r.id == id) ≡ false) rows
    → marked id rows ≡ rows
unfolding update_rows
mark_absent id [] h = refl
mark_absent id (r ∷ rows) h = ground (arith, mark_absent id rows)

-- The first row that waits is found, and then the others wait.
mark_first :
    (e : OutboxEvent) (rest rows : List OutboxEvent)
    → Unique rows
    → waiting rows ≡ e ∷ rest
    → (any (λ (r : OutboxEvent). (r.id == e.id) && not r.published) rows ≡ true)
      × (waiting (marked e.id rows) ≡ rest)
unfolding filter any update_rows
mark_first e rest [] u h = ground (arith, h)
mark_first e rest (r ∷ rows) u h = elim (Bool-cases r.published) [
  | inl done ↦ ground (arith, done, mark_first e rest rows)
  | inr fresh ↦ ground (arith, fresh, h, mark_absent r.id rows, ==_iff r.id r.id)
]

-- What one candidate does to the session.
publish_and_mark_one_fine :
    (e : OutboxEvent) (s : Session)
    → is_unpublished e.id s.db ≡ true
    → (t : Session) × (publish_and_mark_one e no_faults s ≡ (ok true, t))
      × (t.sent ≡ s.sent ++ e ∷ [])
      × (t.db ≡ with_mark e.id s.db)
unfolding publish_and_mark_one publish_locked publish transaction_if commit_if commit query exec
    command lock_if_unpublished mark_published
publish_and_mark_one_fine e s h = (
  record s {
    calls = suc (suc (suc (suc (suc s.calls))));
    sent = s.sent ++ e ∷ [];
    db = with_mark e.id s.db;
  },
  ground (arith, h),
  refl,
  refl,
)

-- How a loop over the candidates `es` ends, with `rest` waiting behind them.
abbrev pub Sends :
    ℕ
    → List OutboxEvent
    → List OutboxEvent
    → Session
    → Result Failure (ℕ × Option Failure) × Session
    → Type 0
Sends n es rest s p =
    (p.0 ≡ ok (n, none))
    × (p.1.sent ≡ s.sent ++ es)
    × (waiting p.1.db.outbox_events ≡ rest)
    × Unique p.1.db.outbox_events

publish_each-Sends :
    (es rest : List OutboxEvent) (n : ℕ) (s : Session)
    → Unique s.db.outbox_events
    → waiting s.db.outbox_events ≡ es ++ rest
    → Sends (n + length es) es rest s (publish_each n es no_faults s)
unfolding publish_each
publish_each-Sends [] rest n s u h = (ground arith, sym (append-nil s.sent), h, u)
publish_each-Sends (e ∷ es) rest n s u h =
    let (found, others) = mark_first e (es ++ rest) s.db.outbox_events u h in
    let (t, went, sent, db) = publish_and_mark_one_fine e s found in
    let rows = ap (λ (d : Database). d.outbox_events) db in
    let (done, sent', left, u') =
      publish_each-Sends es rest (suc n) t (rw rows (mark-Unique e s.db.outbox_events u))
        (ap waiting rows ∙ others) in
    subst
      (λ (p : Result Failure Bool × Session). Sends (n + length (e ∷ es)) (e ∷ es) rest s (
        (attempt (λ faults s. p) >>= λ r. elim r as (λ _. Action (ℕ × Option Failure)) [
          | err f ↦ pure (n, some f)
          | ok true ↦ publish_each (suc n) es
          | ok false ↦ publish_each n es
        ])
          no_faults s))
      (sym went)
      (
        done ∙ ap (λ (k : ℕ). ok (k, none)) (omega arith),
        sent' ∙ ap (λ (x : List OutboxEvent). x ++ es) sent ∙ append_assoc s.sent (e ∷ []) es,
        left,
        u',
      )

fetch_batch_fine :
    (n : ℕ) (s : Session)
    → (t : Session) × (fetch_batch (pos n) no_faults s
        ≡ (ok (take n (waiting s.db.outbox_events)), t))
      × (t.sent ≡ s.sent)
      × (t.db ≡ s.db)
unfolding fetch_batch fetch_unpublished_batch transaction commit query
fetch_batch_fine n s =
    let natural : Int64.lt (pos n) (pos 0) ≡ false = ground arith in
    (record s { calls = suc (suc (suc s.calls)) }, rw natural refl, refl, refl)

-- PublishOnce sends the first rows that wait, as many as fit a batch, and the others wait.
pub publish_once-Sends :
    (n : ℕ) (s : Session)
    → Unique s.db.outbox_events
    → let rows = waiting s.db.outbox_events in
      Sends (length (take n rows)) (take n rows) (drop n rows) s (publish_once (pos n) no_faults s)
unfolding publish_once
publish_once-Sends n s u =
    let rows = waiting s.db.outbox_events in
    let (t, went, sent, db) = fetch_batch_fine n s in
    let same = ap (λ (d : Database). d.outbox_events) db in
    let (done, sent', left, u') =
      publish_each-Sends (take n rows) (drop n rows) 0 t (rw same u)
        (ap waiting same ∙ sym (take-append-drop n rows)) in
    subst
      (λ (p : Result Failure (List OutboxEvent) × Session).
        Sends (length (take n rows)) (take n rows) (drop n rows) s (
          (attempt (λ faults s. p) >>= λ r. elim r as (λ _. Action (ℕ × Option Failure)) [
            | err f ↦ pure (0, some f)
            | ok events ↦ publish_each 0 events
          ])
            no_faults s))
      (sym went)
      (
        done ∙ ap (λ (k : ℕ). ok (k, none)) (omega arith),
        sent' ∙ ap (λ (x : List OutboxEvent). x ++ take n rows) sent,
        left,
        u',
      )
