-- ===== src/Matcher/Batches.antt =====
-- internal/application/matcherapp/consumer_loop.go: batches, redelivered and failed ones included.
use order_book_vibranium.Base.{
  ℕ, ◌≡◌, sym, ap, ◌∙◌, inl, inr, Bool, true, false, ◌||◌, List, [], ◌∷◌, ◌++◌, ◌==◌, arith,
  Bool-cases, ==_iff,
}
use order_book_vibranium.Base.Run.{Result}
use order_book_vibranium.Store.{
  Database, Session, Faults, Action, Failure, counted, when, for_each, ◌>>◌, exec_rows,
}
use order_book_vibranium.Store.Repositories.{any, try_mark}
use order_book_vibranium.Store.Transactions.{Succeeds, >>=-Succeeds, Atomic, transaction-Atomic}
use order_book_vibranium.Matcher.{
  Message, apply_message, apply_batch, apply_payload, empty_cache, flush_wallets,
}
use order_book_vibranium.Matcher.Frames.{Queues, marks, Frames, when-Frames}
use order_book_vibranium.Matcher.Entries.{apply_payload-Frames, flush_wallets-Frames}

-- The entry is marked as processed.
abbrev pub is_marked : ℕ → Database → Bool
is_marked id db = any (λ i. i == id) db.processed_stream_events

-- One of the messages has the id.
abbrev pub names : ℕ → List Message → Bool
names j [] = false
names j (m ∷ ms) = (m.id == j) || names j ms

any_append :
    (id j : ℕ) (ids : List ℕ)
    → any (λ i. i == j) (ids ++ id ∷ []) ≡ (any (λ i. i == j) ids || (id == j))
unfolding any
any_append id j [] = ground arith
any_append id j (i ∷ ids) = ground (arith, any_append id j ids)

marked_again :
    (id j : ℕ) (ids : List ℕ)
    → any (λ i. i == id) ids ≡ true
    → any (λ i. i == j) ids ≡ (any (λ i. i == j) ids || (id == j))
unfolding any
marked_again id j ids h = elim (Bool-cases (id == j)) [
  | inl e ↦ let same : id ≡ j = (==_iff id j).0 e in ground (arith, rw same at h)
  | inr e ↦ ground (arith, e)
]

-- TryMark marks the entry, and no other.
try_mark-Succeeds :
    (id : ℕ) (faults : Faults) (s : Session) {first : Bool} {t : Session}
    → Succeeds (try_mark id) faults s first t
    → (j : ℕ) → is_marked j t.db ≡ (is_marked j s.db || (id == j))
unfolding try_mark exec_rows
try_mark-Succeeds id faults s h j = ground (
  arith,
  any_append id j s.db.processed_stream_events,
  marked_again id j s.db.processed_stream_events,
)

framed :
    {A : Type 0} (m : Action A) (faults : Faults) (s : Session) {a : A} {t : Session}
    → Frames m
    → Succeeds m faults s a t
    → marks t ≡ marks s
framed {A = A} m faults s f h =
    ap (λ (p : Result Failure A × Session). marks p.1) (sym h) ∙ f faults s

-- A success marks the messages, and nothing else.
abbrev Marks : List Message → Session → Session → Type 0
Marks msgs s t = (j : ℕ) → is_marked j t.db ≡ (is_marked j s.db || names j msgs)

same_marks : (j : ℕ) (s t : Session) → marks t ≡ marks s → is_marked j t.db ≡ is_marked j s.db
same_marks j s t e = ap (λ (p : List ℕ × Queues). any (λ i. i == j) p.0) e

module _ (faults : Faults) where
  apply_message-Marks :
      (m : Message) (s : Session) {u : Unit {0}} {t : Session}
      → Succeeds (apply_message m) faults s u t
      → Marks (m ∷ []) s t
  unfolding apply_message
  apply_message-Marks m s {t} h =
      let (first, s', marking, rest) =
        >>=-Succeeds (try_mark m.id) (λ first. when first (apply_payload m.readings m.payload))
          faults s h in
      let same =
        framed (when first (apply_payload m.readings m.payload)) faults s'
          (when-Frames first (apply_payload m.readings m.payload)
            (apply_payload-Frames m.readings m.payload))
          rest in
      λ j. ground (arith, same_marks j s' t same, try_mark-Succeeds m.id faults s marking j)

  for_each-Marks :
      (msgs : List Message) (s : Session) {u : Unit {0}} {t : Session}
      → Succeeds (for_each msgs apply_message) faults s u t
      → Marks msgs s t
  unfolding for_each
  for_each-Marks [] s {u} {t} h j = let e : t ≡ s = ground arith in rw e (ground arith)
  for_each-Marks (m ∷ ms) s {u} {t} h j =
      let (v, s', one, rest) =
        >>=-Succeeds (apply_message m) (λ _. for_each ms apply_message) faults s h in
      ground (arith, apply_message-Marks m s one j, for_each-Marks ms s' rest j)

  apply_batch-Marks :
      (msgs : List Message) (s : Session) (u : Unit {0}) (t : Session)
      → Succeeds (empty_cache >> (for_each msgs apply_message >> flush_wallets)) faults s u t
      → Marks msgs s t
  unfolding empty_cache
  apply_batch-Marks msgs s u t h =
      let (v, s1, emptied, h1) =
        >>=-Succeeds empty_cache (λ _. for_each msgs apply_message >> flush_wallets) faults s h in
      let (w, s2, applied, h2) =
        >>=-Succeeds (for_each msgs apply_message) (λ _. flush_wallets) faults s1 h1 in
      let start : marks s1 ≡ marks s = ground arith in
      let end = framed flush_wallets faults s2 flush_wallets-Frames h2 in
      λ j.
        ground
          (arith, same_marks j s s1 start, for_each-Marks msgs s1 applied j, same_marks j s2 t end)

-- A batch that is applied has marked its messages, and nothing else.
abbrev pub Applies : List Message → Database → Result Failure (Unit {0}) × Session → Type 0
Applies msgs db = Atomic (λ u db'. (j : ℕ) → is_marked j db' ≡ (is_marked j db || names j msgs)) db

-- A batch, whatever calls of the database fail: if applyBatch succeeds, the marked entries are the
-- ones marked before and the messages of the batch; if it fails, the tables are as they were, or a
-- lost reply came after exactly that.
pub apply_batch-Applies :
    (msgs : List Message) (faults : Faults) (s : Session)
    → Applies msgs s.db (apply_batch msgs faults s)
unfolding apply_batch
apply_batch-Applies msgs faults s =
    transaction-Atomic (λ u db'. (j : ℕ) → is_marked j db' ≡ (is_marked j s.db || names j msgs))
      (empty_cache >> (for_each msgs apply_message >> flush_wallets)) faults s
      (λ u t h. apply_batch-Marks faults msgs (counted s) u t h)
