-- ===== src/Publisher/Delivered.antt =====
-- internal/application/outboxapp/publisher_loop.go: what is marked as published is in its stream.
use order_book_vibranium.Base.{
  ℕ, suc, ◌≡◌, sym, ap, inl, inr, Bool, true, false, not, Option, some, List, [], ◌∷◌, ◌++◌, arith,
  All, All-map, All-take, take,
}
use mathlib.Core.Path.{subst}
use order_book_vibranium.Base.Int64.{Int64, pos_part}
use order_book_vibranium.Base.Run.{Result, ok, err}
use order_book_vibranium.Store.{
  Database, OutboxEvent, Session, Faults, Action, Failure, panicked, no_fuel, pure, attempt, ◌>>=◌,
  query, transaction, commit,
}
use order_book_vibranium.Store.Repositories.{filter, fetch_unpublished_batch}
use order_book_vibranium.Publisher.{publish_and_mark_one, publish_each, publish_once, fetch_batch}
use order_book_vibranium.Publisher.Publishing.{Publishes, publish_and_mark_one-Publishes}
use order_book_vibranium.Matcher.Safe.{Safe, attempt-Safe, Leads, >>=-Leads}
use order_book_vibranium.Publisher.Rows.{
  Delivered, Names, Unique, marked, send-Delivered, mark-Delivered, mark-Names, mark-Unique,
  Names-of_Unique, filter_lem,
}

-- The rows keep their ids apart, what is marked is in its stream, and the candidates are rows.
abbrev Ready : List OutboxEvent → List OutboxEvent → List OutboxEvent → Type 0
Ready es rows sent = Unique rows × Delivered rows sent × All (Names rows) es

abbrev pub outbox : Database → List OutboxEvent
outbox db = db.outbox_events

abbrev ReadyFor : List OutboxEvent → Session → Type 0
ReadyFor es s = Ready es s.db.outbox_events s.sent

module _ (e : OutboxEvent) (es rows sent : List OutboxEvent) where
  sent_lem : Ready (e ∷ es) rows sent → Ready (e ∷ es) rows (sent ++ e ∷ [])
  sent_lem (u, d, n) = (u, send-Delivered e rows sent d, n)

  marked_lem : Ready (e ∷ es) rows sent → Ready (e ∷ es) (marked e.id rows) (sent ++ e ∷ [])
  marked_lem (u, d, n) = (
    mark-Unique e rows u,
    mark-Delivered e rows sent n.0 d,
    All-map (e ∷ es) (λ f. mark-Names e f rows) n,
  )

Ready-transport :
    (es rows rows' sent sent' : List OutboxEvent)
    → sent' ≡ sent
    → rows' ≡ rows
    → Ready es rows sent
    → Ready es rows' sent'
Ready-transport es rows rows' sent sent' p q =
    subst (λ (v : List OutboxEvent × List OutboxEvent). Ready es v.0 v.1) (λ i. (sym q i, sym p i))

module _ (e : OutboxEvent) (es : List OutboxEvent) where
  published_lem :
      (s : Session) (p : Result Failure Bool × Session)
      → Publishes e s p
      → ReadyFor (e ∷ es) s
      → ReadyFor (e ∷ es) p.1
  published_lem s (ok true, t) (_, sent, db) r =
      Ready-transport (e ∷ es) (marked e.id s.db.outbox_events) t.db.outbox_events
        (s.sent ++ e ∷ []) t.sent sent (ap outbox db) (marked_lem e es s.db.outbox_events s.sent r)
  published_lem s (ok false, t) (_, sent, db) r =
      Ready-transport (e ∷ es) s.db.outbox_events t.db.outbox_events s.sent t.sent sent
        (ap outbox db) r
  published_lem s (err f, t) (inl (sent, db)) r =
      Ready-transport (e ∷ es) s.db.outbox_events t.db.outbox_events s.sent t.sent sent
        (ap outbox db) r
  published_lem s (err f, t) (inr (sent, inl db)) r =
      Ready-transport (e ∷ es) s.db.outbox_events t.db.outbox_events (s.sent ++ e ∷ []) t.sent sent
        (ap outbox db) (sent_lem e es s.db.outbox_events s.sent r)
  published_lem s (err f, t) (inr (sent, inr db)) r =
      Ready-transport (e ∷ es) (marked e.id s.db.outbox_events) t.db.outbox_events
        (s.sent ++ e ∷ []) t.sent sent (ap outbox db) (marked_lem e es s.db.outbox_events s.sent r)

  publish_and_mark_one-Safe : Safe (ReadyFor (e ∷ es)) (publish_and_mark_one e)
  publish_and_mark_one-Safe faults s =
      published_lem s (publish_and_mark_one e faults s) (publish_and_mark_one-Publishes e faults s)

-- What is left when the candidates have been dealt with.
abbrev pub IsDelivered : Session → Type 0
IsDelivered s = Unique s.db.outbox_events × Delivered s.db.outbox_events s.sent

answered :
    (n : ℕ) (e : OutboxEvent) (es : List OutboxEvent)
    → ((k : ℕ) → Leads (ReadyFor es) IsDelivered (publish_each k es))
    → (r : Result Failure Bool)
    → Leads (ReadyFor (e ∷ es)) IsDelivered (elim r as (λ _. Action (ℕ × Option Failure)) [
      | err f ↦ pure (n, some f)
      | ok true ↦ publish_each (suc n) es
      | ok false ↦ publish_each n es
    ])
answered n e es h (err f) faults s (u, d, _) = (u, d)
answered n e es h (ok true) faults s (u, d, k) = h (suc n) faults s (u, d, k.1)
answered n e es h (ok false) faults s (u, d, k) = h n faults s (u, d, k.1)

publish_each-Leads :
    (es : List OutboxEvent) (n : ℕ) → Leads (ReadyFor es) IsDelivered (publish_each n es)
unfolding publish_each
publish_each-Leads [] n = λ faults s r. (r.0, r.1)
publish_each-Leads (e ∷ es) n =
    >>=-Leads (ReadyFor (e ∷ es)) IsDelivered (ReadyFor (e ∷ es)) (attempt (publish_and_mark_one e))
      (λ r. elim r [
        | err f ↦ pure (n, some f)
        | ok true ↦ publish_each (suc n) es
        | ok false ↦ publish_each n es
      ])
      (attempt-Safe (ReadyFor (e ∷ es)) (publish_and_mark_one e) (publish_and_mark_one-Safe e es))
      (answered n e es (publish_each-Leads es)) (λ s r. (r.0, r.1))

-- The candidates are unpublished rows; fetching them changes nothing.
abbrev pub Fetches : Int64 → Session → Result Failure (List OutboxEvent) × Session → Type 0
Fetches n s (ok es, t) =
    (es ≡ take (pos_part n) (filter (λ (e : OutboxEvent). not e.published) s.db.outbox_events))
    × (t.db ≡ s.db)
    × (t.sent ≡ s.sent)
Fetches n s (err f, t) = (t.db ≡ s.db) × (t.sent ≡ s.sent)

pub fetch_batch-Fetches :
    (n : Int64) (faults : Faults) (s : Session) → Fetches n s (fetch_batch n faults s)
unfolding fetch_batch fetch_unpublished_batch transaction commit query
fetch_batch-Fetches n faults s = ground arith

pub publish_once-Safe : (n : Int64) → Safe IsDelivered (publish_once n)
unfolding publish_once
publish_once-Safe n faults s d = fetched (fetch_batch n faults s) (fetch_batch-Fetches n faults s)
  where
    candidates :
        (es : List OutboxEvent)
        → es ≡ take (pos_part n) (filter (λ (e : OutboxEvent). not e.published) s.db.outbox_events)
        → All (Names s.db.outbox_events) es
    candidates es es_is = subst (All (Names s.db.outbox_events)) (sym es_is) (
        All-take (Names s.db.outbox_events) (pos_part n)
          (filter (λ (e : OutboxEvent). not e.published) s.db.outbox_events)
          (filter_lem (Names s.db.outbox_events) s.db.outbox_events
            (Names-of_Unique s.db.outbox_events d.0)))

    fetched :
        (p : Result Failure (List OutboxEvent) × Session)
        → Fetches n s p
        → IsDelivered
            ((attempt (λ faults s. p) >>= λ r. elim r as (λ _. Action (ℕ × Option Failure)) [
              | err f ↦ pure (0, some f)
              | ok events ↦ publish_each 0 events
            ])
              faults s).1
    fetched (ok es, t) (es_is, db, sent) = publish_each-Leads es 0 faults t (
        Ready-transport es s.db.outbox_events t.db.outbox_events s.sent t.sent sent (ap outbox db)
          (d.0, d.1, candidates es es_is))
    fetched (err f, t) (db, sent) =
        let rest : IsDelivered t =
          let (u, k, _) =
            Ready-transport [] s.db.outbox_events t.db.outbox_events s.sent t.sent sent
              (ap outbox db) (d.0, d.1, tt) in
          (u, k) in
        elim f
          as (λ k.
            IsDelivered
              ((attempt {A = List OutboxEvent} (λ faults s. (err k, t)) >>= λ r.
                  elim r as (λ _. Action (ℕ × Option Failure)) [
                    | err f ↦ pure (0, some f)
                    | ok events ↦ publish_each 0 events
                  ])
                faults s).1) [ panicked ↦ rest | no_fuel ↦ rest | _ ↦ rest ]
