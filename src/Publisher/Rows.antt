-- ===== src/Publisher/Rows.antt =====
-- internal/application/outboxapp/publisher_loop.go: the rows of the outbox and what has been sent.
use order_book_vibranium.Base.{
  ℕ, ◌≡◌, refl, sym, ◌⊎◌, inl, inr, Bool, true, false, not, List, [], ◌∷◌, ◌++◌, ◌==◌, ==_iff,
  if◌then◌else◌, arith, All, All-map, Bool-cases,
}
use order_book_vibranium.Store.{OutboxEvent}
use order_book_vibranium.Store.Repositories.{filter, update_rows}

-- The row as it was inserted.
abbrev pub queued : OutboxEvent → OutboxEvent
queued e = record e { published = false }

abbrev pub Among : OutboxEvent → List OutboxEvent → Type 0
Among e [] = ⊥
Among e (x ∷ xs) = (x ≡ e) ⊎ Among e xs

-- Every row that is marked as published has been sent.
abbrev pub Delivered : List OutboxEvent → List OutboxEvent → Type 0
Delivered rows sent = All (λ (r : OutboxEvent). r.published ≡ true → Among (queued r) sent) rows

-- The row with the id of `e` is `e`, apart from its mark.
abbrev pub Names : List OutboxEvent → OutboxEvent → Type 0
Names rows e = All (λ (r : OutboxEvent). r.id ≡ e.id → queued r ≡ e) rows

-- No two rows have one id.
abbrev pub Unique : List OutboxEvent → Type 0
Unique [] = Unit {0}
Unique (e ∷ es) = All (λ (r : OutboxEvent). (r.id == e.id) ≡ false) es × Unique es

pub Among-append : (e : OutboxEvent) (xs ys : List OutboxEvent) → Among e xs → Among e (xs ++ ys)
Among-append e [] ys h = absurd h
Among-append e (x ∷ xs) ys (inl h) = inl h
Among-append e (x ∷ xs) ys (inr h) = inr (Among-append e xs ys h)

pub Among-last : (e : OutboxEvent) (xs : List OutboxEvent) → Among e (xs ++ e ∷ [])
Among-last e [] = inl refl
Among-last e (x ∷ xs) = inr (Among-last e xs)

abbrev pub marked : ℕ → List OutboxEvent → List OutboxEvent
marked id = update_rows (λ (e : OutboxEvent). e.id == id) (λ e. record e { published = true })

module _ (e : OutboxEvent) where
  pub send-Delivered :
      (rows sent : List OutboxEvent) → Delivered rows sent → Delivered rows (sent ++ e ∷ [])
  send-Delivered rows sent =
      All-map rows (λ r h published. Among-append (queued r) sent (e ∷ []) (h published))

  pub mark-Delivered :
      (rows sent : List OutboxEvent)
      → Names rows e
      → Delivered rows sent
      → Delivered (marked e.id rows) (sent ++ e ∷ [])
  unfolding update_rows
  mark-Delivered [] sent n d = tt
  mark-Delivered (r ∷ rows) sent n d = elim (Bool-cases (r.id == e.id)) [
    | inl same ↦
        let is_e = n.0 ((==_iff r.id e.id).0 same) in
        rw same ((λ published. rw is_e (Among-last e sent)), mark-Delivered rows sent n.1 d.1)
    | inr other ↦ rw other (
      (λ published. Among-append (queued r) sent (e ∷ []) (d.0 published)),
      mark-Delivered rows sent n.1 d.1,
    )
  ]

  pub mark-Names :
      (f : OutboxEvent) (rows : List OutboxEvent) → Names rows f → Names (marked e.id rows) f
  unfolding update_rows
  mark-Names f [] n = tt
  mark-Names f (r ∷ rows) n = elim (Bool-cases (r.id == e.id)) [
    | inl same ↦ rw same (n.0, mark-Names f rows n.1)
    | inr other ↦ rw other (n.0, mark-Names f rows n.1)
  ]

  pub mark-fresh :
      (id : ℕ) (rows : List OutboxEvent)
      → All (λ (r : OutboxEvent). (r.id == id) ≡ false) rows
      → All (λ (r : OutboxEvent). (r.id == id) ≡ false) (marked e.id rows)
  unfolding update_rows
  mark-fresh id [] h = tt
  mark-fresh id (r ∷ rows) h = elim (Bool-cases (r.id == e.id)) [
    | inl same ↦ rw same (h.0, mark-fresh id rows h.1)
    | inr other ↦ rw other (h.0, mark-fresh id rows h.1)
  ]

  pub mark-Unique : (rows : List OutboxEvent) → Unique rows → Unique (marked e.id rows)
  unfolding update_rows
  mark-Unique [] u = tt
  mark-Unique (r ∷ rows) u = elim (Bool-cases (r.id == e.id)) [
    | inl same ↦ rw same (mark-fresh r.id rows u.0, mark-Unique rows u.1)
    | inr other ↦ rw other (mark-fresh r.id rows u.0, mark-Unique rows u.1)
  ]

-- A row that is not published is known by its id.
pub Names-of_Unique :
    (rows : List OutboxEvent)
    → Unique rows
    → All (λ (e : OutboxEvent). e.published ≡ false → Names rows e) rows
Names-of_Unique [] u = tt
Names-of_Unique (r ∷ rows) u = (
  λ fresh. (
    λ same. ground (arith, fresh),
    All-map rows (λ x other same. absurd (distinct x r other same)) u.0,
  ),
  with_head rows u.0 (Names-of_Unique rows u.1),
)
  where
    distinct : (x y : OutboxEvent) → (x.id == y.id) ≡ false → x.id ≡ y.id → ⊥
    distinct x y other same = ground (arith, other, same)

    with_head :
        (es : List OutboxEvent)
        → All (λ (x : OutboxEvent). (x.id == r.id) ≡ false) es
        → All (λ (e : OutboxEvent). e.published ≡ false → Names rows e) es
        → All (λ (e : OutboxEvent). e.published ≡ false → Names (r ∷ rows) e) es
    with_head [] h k = tt
    with_head (e ∷ es) h k =
        (λ fresh. (λ same. absurd (distinct e r h.0 (sym same)), k.0 fresh), with_head es h.1 k.1)

pub All-if :
    (P : OutboxEvent → Type 0) (x : OutboxEvent) (b : Bool) (xs : List OutboxEvent)
    → (b ≡ true → P x)
    → All P xs
    → All P (if b then x ∷ xs else xs)
All-if P x true xs h k = (h refl, k)
All-if P x false xs h k = k

-- What is selected has what all rows have.
pub filter_lem :
    (P : OutboxEvent → Type 0) (rows : List OutboxEvent)
    → All (λ (e : OutboxEvent). e.published ≡ false → P e) rows
    → All P (filter (λ (e : OutboxEvent). not e.published) rows)
unfolding filter
filter_lem P [] h = tt
filter_lem P (r ∷ rows) h =
    All-if P r (not r.published) (filter (λ (e : OutboxEvent). not e.published) rows)
      (λ e. h.0 (ground (arith, e))) (filter_lem P rows h.1)
