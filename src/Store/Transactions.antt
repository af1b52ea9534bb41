-- ===== src/Store/Transactions.antt =====
-- internal/infra/postgres: what an action that succeeds has done, and that a transaction has all of
-- its effects or none.
use order_book_vibranium.Base.{◌≡◌, refl, ◌⊎◌, inl, inr, Option, none, some, arith}
use order_book_vibranium.Base.Run.{Result, ok, err}
use order_book_vibranium.Store.{
  Database, Session, Faults, Fault, fine, failed, lost, Failure, driver, Action, ◌>>=◌, query, exec,
  commit, transaction, counted, or_raise,
}

-- The action succeeds with the value `a` in the session `t`.
abbrev pub Succeeds : {A : Type 0} → Action A → Faults → Session → A → Session → Type 0
Succeeds m faults s a t = m faults s ≡ (ok a, t)

err-ne-ok :
    {A : Type 0} {e : Failure} {a : A} {s t : Session}
    → ◌≡◌ {A = Result Failure A × Session} (err e, s) (ok a, t)
    → ⊥
err-ne-ok h = ground arith

module _ {A B : Type 0} where
  bind_ok :
      (f : A → Action B) (faults : Faults) (r : Result Failure A × Session) {b : B} {u : Session}
      → (elim r.0 [ ok a ↦ f a faults r.1 | err e ↦ (err e, r.1) ]) ≡ (ok b, u)
      → (a : A) × (t : Session) × (r ≡ (ok a, t)) × (f a faults t ≡ (ok b, u))
  bind_ok f faults (ok a, t) h = (a, t, refl, h)
  bind_ok f faults (err e, t) h = absurd (err-ne-ok h)

  -- Both parts of a chain that succeeds succeed.
  pub >>=-Succeeds :
      (m : Action A) (f : A → Action B) (faults : Faults) (s : Session) {b : B} {u : Session}
      → Succeeds (m >>= f) faults s b u
      → (a : A) × (t : Session) × Succeeds m faults s a t × Succeeds (f a) faults t b u
  >>=-Succeeds m f faults s h = bind_ok f faults (m faults s) h

pub query-Succeeds :
    {A : Type 0} (f : Database → A) (faults : Faults) (s : Session) {a : A} {t : Session}
    → Succeeds (query f) faults s a t
    → (a ≡ f s.db) × (t ≡ counted s)
unfolding query
query-Succeeds f faults s h = ground arith

pub exec-Succeeds :
    (f : Database → Option Database) (faults : Faults) (s : Session) {a : Unit {0}} {t : Session}
    → Succeeds (exec f) faults s a t
    → (db : Database) × (f s.db ≡ some db) × (t ≡ record (counted s) { db = db })
unfolding exec
exec-Succeeds f faults s h = ground arith

pub or_raise-Succeeds :
    {A : Type 0} (o : Option A) (e : Failure) (faults : Faults) (s : Session) {a : A} {t : Session}
    → Succeeds (or_raise o e) faults s a t
    → (o ≡ some a) × (t ≡ s)
or_raise-Succeeds none e faults s h = absurd (err-ne-ok h)
or_raise-Succeeds (some a) e faults s h = ground arith

-- The tables after a transaction: what `Q` says of a success, or as they were before; an error
-- leaves either.
abbrev pub Atomic :
    {A : Type 0} → (A → Database → Type 0) → Database → Result Failure A × Session → Type 0
Atomic Q db (ok a, t) = Q a t.db
Atomic {A} Q db (err e, t) = (t.db ≡ db) ⊎ ((a : A) × Q a t.db)

committed :
    {A : Type 0} (Q : A → Database → Type 0) (db : Database) (faults : Faults)
    → (r : Result Failure A × Session) → ((a : A) (t : Session) → r ≡ (ok a, t) → Q a t.db)
    → Atomic Q db (commit db r faults)
unfolding commit
committed Q db faults (err e, t) h = inl refl
committed Q db faults (ok a, t) h = ended (faults t.calls)
  where
    ended :
        (x : Fault)
        → Atomic Q db (elim x [
          | fine ↦ (ok a, counted t)
          | failed ↦ (err driver, record (counted t) { db = db })
          | lost ↦ (err driver, counted t)
        ])
    ended fine = h a t refl
    ended failed = inl refl
    ended lost = inr (a, h a t refl)

pub transaction-Atomic :
    {A : Type 0} (Q : A → Database → Type 0) (m : Action A) (faults : Faults) (s : Session)
    → ((a : A) (t : Session) → Succeeds m faults (counted s) a t → Q a t.db)
    → Atomic Q s.db (transaction m faults s)
unfolding transaction
transaction-Atomic Q m faults s h = begun (faults s.calls)
  where
    begun :
        (x : Fault)
        → Atomic Q s.db (elim x [
          | fine ↦ commit s.db (m faults (counted s)) faults
          | _ ↦ (err driver, counted s)
        ])
    begun fine = committed Q s.db faults (m faults (counted s)) h
    begun failed = inl refl
    begun lost = inl refl
