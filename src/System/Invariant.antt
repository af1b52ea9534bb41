-- ===== src/System/Invariant.antt =====
-- cmd/api, cmd/outbox-publisher and cmd/matcher: what every interleaving of the programs keeps.
use order_book_vibranium.Base.{ℕ, suc, ◌≡◌, refl, sym, ap, ◌∙◌, inl, inr, Bool, List, ◌==◌}
use mathlib.Core.Path.{subst}
use order_book_vibranium.Base.Int64.{Int64}
use order_book_vibranium.Wallet.Supply.{Asset, supply}
use order_book_vibranium.Store.{Database, OutboxEvent, Session, Faults}
use order_book_vibranium.Store.Repositories.{any}
use order_book_vibranium.Publisher
use order_book_vibranium.Publisher.Rows.{Unique, Delivered}
use order_book_vibranium.Publisher.Polling.{run-Delivers}
use order_book_vibranium.Matcher.{Message}
use order_book_vibranium.Matcher.Loop
use order_book_vibranium.Matcher.Frames.{Queues}
use order_book_vibranium.Matcher.Acknowledging.{apply_batch-Keeps}
use order_book_vibranium.Matcher.Rounds.{run_plain-Safe}
use order_book_vibranium.Matcher.Running.{Committed, run-Commits}
use order_book_vibranium.Matcher.Supply.{Distinct}
use order_book_vibranium.Matcher.Supply.Conserved.{run-Conserves}
use order_book_vibranium.Service.Place.{place}
use order_book_vibranium.Service.Withdraw.{request_cancel}
use order_book_vibranium.System.{
  Step, place_order, cancel_order, publish_events, match_orders, Reach, here, next, IsConsistent,
}
use order_book_vibranium.System.Fresh.{Below, append-Unique, append-Below, append-Delivered}
use order_book_vibranium.System.Requests.{Requests, place-Requests, request_cancel-Requests}
use order_book_vibranium.System.Calls.{calls, place-Keeps, request_cancel-Keeps}
use order_book_vibranium.System.Polls.{Others, others, run-Keeps}

-- The system stays consistent, and the users hold of each asset what they held.
abbrev pub Holds : Session → Session → Type 0
Holds s t = IsConsistent t × ((a : Asset) → supply a t.db.wallets ≡ supply a s.db.wallets)

-- The outbox and the sent events.
abbrev Outbox : Type 0
Outbox = List OutboxEvent × ℕ × List OutboxEvent

abbrev outbox : Session → Outbox
outbox s = (s.db.outbox_events, s.db.next_outbox_id, s.sent)

abbrev IsOutbox : Outbox → Type 0
IsOutbox o = Unique o.0 × Below o.1 o.0 × Delivered o.0 o.2

-- What IsConsistent says of the acknowledgements can be told from the marks.
committed_lem :
    (s t : Session)
    → t.acked ≡ s.acked
    → t.db.processed_stream_events ≡ s.db.processed_stream_events
    → Committed s
    → Committed t
committed_lem s t acked processed c j h =
    ap (any (λ i. i == j)) processed ∙ c j (sym (ap (any (λ i. i == j)) acked) ∙ h)

module _ (s t : Session) (v : IsConsistent s) (kept : calls t ≡ calls s) where
  -- The outbox after a request.
  requested_outbox : Requests s.db t.db → IsOutbox (outbox t)
  requested_outbox r = elim r.outbox [
    | inl (rows, number) ↦
        subst IsOutbox
          (λ i.
            (sym rows i, sym number i, sym (ap (λ (c : List OutboxEvent × List ℕ). c.0) kept) i))
          (v.unique, v.numbered, v.delivered)
    | inr (e, id, new, rows, number) ↦
        let below : Below e.id s.db.outbox_events = rw id v.numbered in
        subst IsOutbox
          (λ i. (
            sym rows i,
            (ap suc id ∙ sym number) i,
            sym (ap (λ (c : List OutboxEvent × List ℕ). c.0) kept) i,
          ))
          (
            append-Unique e s.db.outbox_events below v.unique,
            append-Below e s.db.outbox_events below,
            append-Delivered e s.db.outbox_events s.sent new v.delivered,
          )
  ]

  requested_lem : Requests s.db t.db → Holds s t
  requested_lem r =
      let (unique, numbered, delivered) = requested_outbox r in
      let acked = ap (λ (c : List OutboxEvent × List ℕ). c.1) kept in
      (
        record {
          distinct = (r.wallets v.distinct Asset.real).0;
          unique = unique;
          numbered = numbered;
          delivered = delivered;
          committed = committed_lem s t acked r.processed v.committed;
        },
        λ a. (r.wallets v.distinct a).1,
      )

-- Ticks of the publisher.
polled_lem :
    (stops : ℕ → Bool) (batch_size : Int64) (interval : Int64) (ticks : ℕ) (faults : Faults)
    (s : Session)
    → IsConsistent s
    → Holds s (Publisher.run stops batch_size interval ticks faults s).1
polled_lem stops batch_size interval ticks faults s v =
    let t = (Publisher.run stops batch_size interval ticks faults s).1 in
    let (same, below) =
      run-Keeps stops batch_size interval ticks s.db.next_outbox_id (others s) faults s
        (refl, v.numbered) in
    let (unique, delivered) =
      run-Delivers stops batch_size interval ticks faults s (v.unique, v.delivered) in
    let wallets = ap (λ (o : Others). o.wallets) same in
    (
      record {
        distinct = subst Distinct (sym wallets) v.distinct;
        unique = unique;
        numbered =
            subst (λ n. Below n t.db.outbox_events) (sym (ap (λ (o : Others). o.next) same)) below;
        delivered = delivered;
        committed =
            committed_lem s t (ap (λ (o : Others). o.acked) same)
              (ap (λ (o : Others). o.processed) same) v.committed;
      },
      λ a. ap (supply a) wallets,
    )

of_queues : Queues → Outbox
of_queues q = (q.outbox_events, q.next_outbox_id, q.sent)

-- The matcher leaves the outbox alone.
matched_outbox :
    (replies : ℕ → List Message) (stops : ℕ → Bool) (k n : ℕ) (faults : Faults) (s : Session)
    → outbox (Loop.run replies stops k n faults s).1 ≡ outbox s
unfolding of_queues
matched_outbox replies stops k n faults s =
    run_plain-Safe (λ t. outbox t ≡ outbox s)
      (λ t u e c.
        ap (λ (p : Database × List OutboxEvent). (p.0.outbox_events, p.0.next_outbox_id, p.1)) e
        ∙ c)
      (λ msgs faults t c. ap of_queues (apply_batch-Keeps msgs faults t) ∙ c) replies stops k n
      faults s refl

-- Rounds of the matcher.
matched_lem :
    (replies : ℕ → List Message) (stops : ℕ → Bool) (k n : ℕ) (faults : Faults) (s : Session)
    → IsConsistent s
    → Holds s (Loop.run replies stops k n faults s).1
matched_lem replies stops k n faults s v =
    let (unique, numbered, delivered) =
      subst IsOutbox (sym (matched_outbox replies stops k n faults s))
        (v.unique, v.numbered, v.delivered) in
    (
      record {
        distinct = (run-Conserves Asset.real replies stops k n faults s v.distinct).0;
        unique = unique;
        numbered = numbered;
        delivered = delivered;
        committed = run-Commits replies stops k n faults s v.committed;
      },
      λ a. (run-Conserves a replies stops k n faults s v.distinct).1,
    )

Step-Holds : {s t : Session} → IsConsistent s → Step s t → Holds s t
Step-Holds {s} v (place_order stream_name id now input faults) =
    requested_lem s (place stream_name id now input faults s).1 v
      (place-Keeps stream_name id now input faults s)
      (place-Requests stream_name id now input faults s)
Step-Holds {s} v (cancel_order stream_name order_id user_id faults) =
    requested_lem s (request_cancel stream_name order_id user_id faults s).1 v
      (request_cancel-Keeps stream_name order_id user_id faults s)
      (request_cancel-Requests stream_name order_id user_id faults s)
Step-Holds {s} v (publish_events stops batch_size interval ticks faults) =
    polled_lem stops batch_size interval ticks faults s v
Step-Holds {s} v (match_orders replies stops pulls rounds faults) =
    matched_lem replies stops pulls rounds faults s v

-- Every interleaving of requests of the API, ticks of the publisher and rounds of the matcher,
-- whatever calls of Postgres and Redis fail and whatever the stream delivers: from a consistent
-- state, each user has one wallet, the ids of the outbox differ and stay below the next one, every
-- row that is marked as published was put in its stream as it was inserted, every acknowledged entry is
-- marked as processed, and all users together hold of BRL and of Vibranium what they held, as sums
-- of int64 values.
pub Reach-Holds : {s t : Session} → IsConsistent s → Reach s t → Holds s t
Reach-Holds v here = (v, λ a. refl)
Reach-Holds v (next r st) =
    let (u, held) = Reach-Holds v r in
    let (w, held') = Step-Holds u st in (w, λ a. held' a ∙ held a)
