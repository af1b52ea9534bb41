-- ===== src/Matcher/Running.antt =====
-- internal/application/matcherapp/consumer_loop.go: the acknowledgements and the marks of processed
-- entries, through Run and its recovery.
use order_book_vibranium.Base.{
  ℕ, ◌≡◌, refl, sym, ap, ◌∙◌, ◌⊎◌, inl, inr, Bool, true, ◌||◌, List, [], ◌∷◌, ◌++◌, ◌==◌, arith,
}
use order_book_vibranium.Base.Run.{Result, ok, err}
use order_book_vibranium.Store.{Database, OutboxEvent, Session, Faults, Failure}
use order_book_vibranium.Store.Repositories.{any}
use order_book_vibranium.Matcher.{Message}
use order_book_vibranium.Matcher.Batches.{names, is_marked}
use order_book_vibranium.Matcher.Acknowledging.{Acknowledges, Marked, process_messages-Acknowledges}
use order_book_vibranium.Matcher.Loop.{message_ids, process_messages, run}
use order_book_vibranium.Matcher.Safe.{IsDurable, Safe}
use order_book_vibranium.Matcher.Rounds.{run-Safe}

-- Every acknowledged entry is marked as processed in the tables.
abbrev pub Committed : Session → Type 0
Committed s = (j : ℕ) → any (λ i. i == j) s.acked ≡ true → is_marked j s.db ≡ true

pub Committed-IsDurable : IsDurable Committed
Committed-IsDurable s t e c j h =
    ap (λ (p : Database × List ℕ × List OutboxEvent). is_marked j p.0) e
    ∙ c j (sym (ap (λ (p : Database × List ℕ × List OutboxEvent). any (λ i. i == j) p.1) e) ∙ h)

any_append :
    (j : ℕ) (xs ys : List ℕ)
    → any (λ i. i == j) (xs ++ ys) ≡ (any (λ i. i == j) xs || any (λ i. i == j) ys)
unfolding any
any_append j [] ys = refl
any_append j (x ∷ xs) ys = ground (arith, any_append j xs ys)

any-message_ids :
    (j : ℕ) (msgs : List Message) → any (λ i. i == j) (message_ids msgs) ≡ names j msgs
unfolding any
any-message_ids j [] = refl
any-message_ids j (m ∷ ms) = ground (arith, any-message_ids j ms)

acknowledged_lem :
    (msgs : List Message) (s t : Session)
    → t.acked ≡ s.acked ++ message_ids msgs
    → Marked msgs s.db t.db
    → Committed s
    → Committed t
acknowledged_lem msgs s t e k c j h =
    let split = sym (ap (any (λ i. i == j)) e ∙ any_append j s.acked (message_ids msgs)) ∙ h in
    ground (arith, split, any-message_ids j msgs, k j, c j)

kept_lem :
    (msgs : List Message) (s t : Session)
    → t.acked ≡ s.acked
    → (t.db ≡ s.db) ⊎ Marked msgs s.db t.db
    → Committed s
    → Committed t
kept_lem msgs s t e (inl k) c j h = ap (is_marked j) k ∙ c j (sym (ap (any (λ i. i == j)) e) ∙ h)
kept_lem msgs s t e (inr k) c j h =
    let before = c j (sym (ap (any (λ i. i == j)) e) ∙ h) in ground (arith, before, k j)

outcome_lem :
    (msgs : List Message) (s : Session) (p : Result Failure ℕ × Session)
    → Acknowledges msgs s p
    → Committed s
    → Committed p.1
outcome_lem msgs s (ok n, t) (_, e, k) c = acknowledged_lem msgs s t e k c
outcome_lem msgs s (err f, t) (inl (e, k)) c = kept_lem msgs s t e k c
outcome_lem msgs s (err f, t) (inr (e, k)) c = acknowledged_lem msgs s t e k c

process_messages-Safe : (msgs : List Message) → Safe Committed (process_messages msgs)
process_messages-Safe msgs faults s =
    outcome_lem msgs s (process_messages msgs faults s)
      (process_messages-Acknowledges msgs faults s)

-- Whatever the stream delivers, whenever the context is cancelled, and whatever calls of Postgres
-- and Redis fail, after any number of rounds of Run, with all the recoveries of failed batches in
-- them: if every acknowledged entry was marked as processed in the tables at the start, it is so
-- at the end.
pub run-Commits :
    (replies : ℕ → List Message) (stops : ℕ → Bool) (k n : ℕ) (faults : Faults) (s : Session)
    → Committed s
    → Committed (run replies stops k n faults s).1
run-Commits replies stops k n =
    run-Safe replies stops Committed Committed-IsDurable process_messages-Safe k n
