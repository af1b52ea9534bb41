-- ===== src/Matcher/Safe.antt =====
-- internal/application/matcherapp/consumer_loop.go: properties of a session that an action keeps,
-- however it ends.
use order_book_vibranium.Base.{ℕ, ◌≡◌, List}
use order_book_vibranium.Base.Run.{Result, ok, err}
use order_book_vibranium.Store.{
  Database, OutboxEvent, Session, Faults, Action, Failure, panicked, no_fuel, attempt, ◌>>=◌,
}
use order_book_vibranium.Matcher.Frames.{Keeps}

-- The tables, and the calls of Redis: what outlives the process.
abbrev pub durable : Session → Database × List ℕ × List OutboxEvent
durable s = (s.db, s.acked, s.sent)

-- What holds of a session can be told from what outlives the process.
abbrev pub IsDurable : (Session → Type 0) → Type 0
IsDurable P = (s t : Session) → durable t ≡ durable s → P s → P t

abbrev pub Safe : {A : Type 0} → (Session → Type 0) → Action A → Type 0
Safe P m = (faults : Faults) (s : Session) → P s → P (m faults s).1

module _ (P : Session → Type 0) where
  bind_lem :
      {A B : Type 0} (f : A → Action B) (faults : Faults) (p : Result Failure A × Session)
      → ((a : A) → Safe P (f a))
      → P p.1
      → P
          (elim p.0 as (λ _. Result Failure B × Session) [
            | ok a ↦ f a faults p.1
            | err e ↦ (err e, p.1)
          ]).1
  bind_lem f faults (ok a, t) h c = h a faults t c
  bind_lem f faults (err e, t) h c = c

  pub >>=-Safe :
      {A B : Type 0} (m : Action A) (f : A → Action B)
      → Safe P m
      → ((a : A) → Safe P (f a))
      → Safe P (m >>= f)
  >>=-Safe m f hm hf faults s c = bind_lem f faults (m faults s) hf (hm faults s c)

  attempt_lem :
      {A : Type 0} (p : Result Failure A × Session) (faults : Faults) (s : Session)
      → P p.1
      → P (attempt (λ faults s. p) faults s).1
  attempt_lem (ok a, t) faults s c = c
  attempt_lem {A} (err e, t) faults s c =
      elim e as (λ k. P (attempt {A = A} (λ faults s. (err k, t)) faults s).1) [
        | panicked ↦ c
        | no_fuel ↦ c
        | _ ↦ c
      ]

  pub attempt-Safe : {A : Type 0} (m : Action A) → Safe P m → Safe P (attempt m)
  attempt-Safe m h faults s c = attempt_lem (m faults s) faults s (h faults s c)

  pub Keeps-Safe : {A : Type 0} (m : Action A) → IsDurable P → Keeps durable m → Safe P m
  Keeps-Safe m h keeps faults s = h s (m faults s).1 (keeps faults s)

-- An action leads from sessions of one kind to sessions of another, however it ends.
abbrev pub Leads : {A : Type 0} → (Session → Type 0) → (Session → Type 0) → Action A → Type 0
Leads P Q m = (faults : Faults) (s : Session) → P s → Q (m faults s).1

module _ {A B : Type 0} (Q R : Session → Type 0) where
  bind_leads :
      (f : A → Action B) (faults : Faults) (p : Result Failure A × Session)
      → ((a : A) → Leads Q R (f a))
      → ((s : Session) → Q s → R s)
      → Q p.1
      → R
          (elim p.0 as (λ _. Result Failure B × Session) [
            | ok a ↦ f a faults p.1
            | err e ↦ (err e, p.1)
          ]).1
  bind_leads f faults (ok a, t) h k c = h a faults t c
  bind_leads f faults (err e, t) h k c = k t c

  pub >>=-Leads :
      (P : Session → Type 0) (m : Action A) (f : A → Action B)
      → Leads P Q m
      → ((a : A) → Leads Q R (f a))
      → ((s : Session) → Q s → R s)
      → Leads P R (m >>= f)
  >>=-Leads P m f hm hf k faults s c = bind_leads f faults (m faults s) hf k (hm faults s c)
