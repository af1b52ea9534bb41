-- ===== src/Matcher/Acknowledging.antt =====
-- internal/application/matcherapp/consumer_loop.go: what processMessages acknowledges.
use order_book_vibranium.Base.{
  ℕ, ◌≡◌, refl, sym, ap, ◌∙◌, ◌⊎◌, inl, inr, ◌||◌, List, [], ◌∷◌, ◌++◌, length, arith,
}
use mathlib.Core.Bool.{or-false}
use mathlib.Core.List.{append-nil}
use order_book_vibranium.Base.Run.{Result, ok, err}
use order_book_vibranium.Store.{
  Database, Session, Faults, Action, Failure, panicked, no_fuel, when, for_each, ◌>>=◌, ◌>>◌,
  attempt, remote, commit, transaction, exec_rows, counted,
}
use order_book_vibranium.Store.Repositories.{try_mark}
use order_book_vibranium.Matcher.{
  Message, apply_message, apply_batch, apply_payload, empty_cache, flush_wallets,
}
use order_book_vibranium.Matcher.Frames.{
  Queues, queues, Keeps, Frames, >>=-Keeps, for_each-Keeps, when-Frames,
}
use order_book_vibranium.Matcher.Entries.{apply_payload-Frames, flush_wallets-Frames}
use order_book_vibranium.Matcher.Batches.{names, is_marked, Applies, apply_batch-Applies}
use order_book_vibranium.Matcher.Loop.{set_dirty, ack, after_batch, process_messages, message_ids}

framed-Keeps : {A : Type 0} (m : Action A) → Frames m → Keeps queues m
framed-Keeps m h faults s = ap (λ (p : List ℕ × Queues). p.1) (h faults s)

try_mark-Keeps : (id : ℕ) → Keeps queues (try_mark id)
unfolding try_mark exec_rows
try_mark-Keeps id faults s = ground arith

apply_message-Keeps : (m : Message) → Keeps queues (apply_message m)
unfolding apply_message
apply_message-Keeps m =
    let payload = apply_payload m.readings m.payload in
    >>=-Keeps queues (try_mark m.id) (λ first. when first payload) (try_mark-Keeps m.id)
      (λ first.
        framed-Keeps (when first payload)
          (when-Frames first payload (apply_payload-Frames m.readings m.payload)))

body-Keeps :
    (msgs : List Message)
    → Keeps queues (empty_cache >> (for_each msgs apply_message >> flush_wallets))
unfolding empty_cache
body-Keeps msgs =
    >>=-Keeps queues empty_cache (λ _. for_each msgs apply_message >> flush_wallets)
      (λ faults s. refl)
      (λ _.
        >>=-Keeps queues (for_each msgs apply_message) (λ _. flush_wallets)
          (for_each-Keeps queues msgs apply_message apply_message-Keeps)
          (λ _. framed-Keeps flush_wallets flush_wallets-Frames))

commit-Keeps :
    {A : Type 0} (s : Session) (faults : Faults) (p : Result Failure A × Session)
    → queues p.1 ≡ queues s
    → queues (commit s.db p faults).1 ≡ queues s
unfolding commit
commit-Keeps s faults (ok a, t) h = ground (arith, h)
commit-Keeps s faults (err e, t) h = ground (arith, h)

pub apply_batch-Keeps : (msgs : List Message) → Keeps queues (apply_batch msgs)
unfolding apply_batch transaction
apply_batch-Keeps msgs faults s =
    let body = empty_cache >> (for_each msgs apply_message >> flush_wallets) in
    ground
      (arith, commit-Keeps s faults (body faults (counted s)), body-Keeps msgs faults (counted s))

-- The marks after the batch are the ones before and the messages.
abbrev pub Marked : List Message → Database → Database → Type 0
Marked msgs db db' = (j : ℕ) → is_marked j db' ≡ (is_marked j db || names j msgs)

-- How processMessages ends: nothing is acknowledged, or exactly the messages, which are marked.
abbrev pub Acknowledges : List Message → Session → Result Failure ℕ × Session → Type 0
Acknowledges msgs s (ok n, t) =
    (n ≡ length msgs) × (t.acked ≡ s.acked ++ message_ids msgs) × Marked msgs s.db t.db
Acknowledges msgs s (err e, t) =
    ((t.acked ≡ s.acked) × ((t.db ≡ s.db) ⊎ Marked msgs s.db t.db))
    ⊎ ((t.acked ≡ s.acked ++ message_ids msgs) × Marked msgs s.db t.db)

ack-acked :
    (ids : List ℕ) (faults : Faults) (s : Session)
    → ((ack ids faults s).1.acked ≡ s.acked ++ ids) × ((ack ids faults s).1.db ≡ s.db)
unfolding ack remote
ack-acked ids faults s = ground arith

after_ack_lem :
    (msgs : List Message) (s : Session) (p : Result Failure (Unit {0}) × Session)
    → p.1.acked ≡ s.acked ++ message_ids msgs
    → Marked msgs s.db p.1.db
    → Acknowledges msgs s (elim p.0 as (λ _. Result Failure ℕ × Session) [
      | ok u ↦ (ok (length msgs), p.1)
      | err e ↦ (err e, p.1)
    ])
after_ack_lem msgs s (ok u, t) h k = (refl, h, k)
after_ack_lem msgs s (err e, t) h k = inr (h, k)

after_batch_lem :
    (msgs : List Message) (faults : Faults) (s : Session) (p : Result Failure (Unit {0}) × Session)
    → p.1.acked ≡ s.acked
    → Applies msgs s.db p
    → Acknowledges msgs s ((attempt (λ faults s. p) >>= after_batch msgs) faults s)
unfolding after_batch set_dirty
after_batch_lem msgs faults s (ok u, t) same applied =
    let sent = ack-acked (message_ids msgs) faults t in
    after_ack_lem msgs s (ack (message_ids msgs) faults t)
      (sent.0 ∙ ap (λ (ids : List ℕ). ids ++ message_ids msgs) same)
      (λ j. ap (is_marked j) sent.1 ∙ applied j)
after_batch_lem msgs faults s (err e, t) same applied =
    elim e
      as (λ k.
        Acknowledges msgs s ((attempt (λ faults s. (err k, t)) >>= after_batch msgs) faults s)) [
          | panicked ↦ inl (same, rolled)
          | no_fuel ↦ inl (same, rolled)
          | _ ↦ inl (same, rolled)
        ]
  where
    rolled : (t.db ≡ s.db) ⊎ Marked msgs s.db t.db
    rolled = elim applied [ inl kept ↦ inl kept | inr (_, marked) ↦ inr marked ]

-- Whatever calls of the services fail while a batch is processed: if processMessages succeeds, it
-- returns the number of messages, has acknowledged exactly them, in order, and they are the entries
-- newly marked in the committed tables. If it fails, either it acknowledged nothing, and the tables
-- are as before or have exactly the messages marked besides, or it asked to acknowledge exactly the
-- messages after all of them were marked.
pub process_messages-Acknowledges :
    (msgs : List Message) (faults : Faults) (s : Session)
    → Acknowledges msgs s (process_messages msgs faults s)
unfolding process_messages
process_messages-Acknowledges [] faults s =
    (refl, sym (append-nil s.acked), λ j. sym (or-false (is_marked j s.db)))
process_messages-Acknowledges (m ∷ ms) faults s =
    after_batch_lem (m ∷ ms) faults s (apply_batch (m ∷ ms) faults s)
      (ap (λ (q : Queues). q.acked) (apply_batch-Keeps (m ∷ ms) faults s))
      (apply_batch-Applies (m ∷ ms) faults s)
