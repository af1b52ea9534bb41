-- ===== src/Store.antt =====
-- internal/infra/postgres and migrations/000001_init_schema.up.sql: the tables, and actions on them.
--
-- A table is the list of its rows, oldest first. Every call of the database may fail: the parameter
-- `faults` says how the n-th call goes. A statement that fails has no effect; a COMMIT whose reply
-- is lost has taken place although the caller gets an error. A session also holds what the process
-- has in memory: the book, the wallets that a batch has loaded,
-- and whether the book may differ from the tables. Redis is outside the model: a session records
-- the events that an XADD of the program has put in their stream (`sent`), and the entries that the
-- program has asked an XACK for (`acked`), whether or not that call took effect.
pub mod Repositories
pub mod Transactions
pub mod Reading
use order_book_vibranium.Base.{
  ℕ, suc, Bool, true, false, Option, none, some, List, [], ◌∷◌, ◌++◌, if◌then◌else◌,
}
use order_book_vibranium.Base.Int64.{Int64}
use order_book_vibranium.Base.Run.{Result, ok, err}
use order_book_vibranium.Order.{Order, Side, OrderType, Uuid, Time}
use order_book_vibranium.Wallet.{Wallet, WalletError}
use order_book_vibranium.Trade
use order_book_vibranium.Book.{Book}

pub data EventType : Type 0 where
  new_order cancel_order other : EventType

-- StreamEvent, without the trace context, which nothing but tracing reads. A field that the JSON
-- text omits reads back as the zero value; the zero values of side and type are `other`.
pub record StreamEvent : Type 0 where
  pub event_type : EventType
  pub order_id : Uuid
  pub user_id : Uuid
  pub side : Side
  pub order_type : OrderType
  pub price_cents : Option Int64
  pub quantity : Int64
  pub requested_by : Option Uuid

-- A JSON payload: one that Unmarshal reads as an event, or one that it refuses.
pub data Payload : Type 0 where
  encoded : StreamEvent → Payload
  malformed : Payload

pub record User : Type 0 where
  pub id : Uuid
  pub username : List ℕ
  pub created_at : Time

-- A row of outbox_events.
pub record OutboxEvent : Type 0 where
  pub id : ℕ
  pub stream_name : List ℕ
  pub payload : Payload
  pub published : Bool

pub record Database : Type 0 where
  pub users : List User
  pub wallets : List Wallet
  pub orders : List Order
  pub trades : List Trade.Trade
  pub processed_stream_events : List ℕ
  pub outbox_events : List OutboxEvent
  pub next_outbox_id : ℕ

-- Why an action ends early. The last two are a run-time panic, and the model's fuel running out.
pub data Failure : Type 0 where
  driver constraint : Failure
  user_not_found wallet_not_found order_not_found : Failure
  insufficient_balance invalid_quantity invalid_order_request forbidden : Failure
  from_wallet : WalletError → Failure
  invalid_trade invalid_cursor : Failure
  context_done panicked no_fuel : Failure

-- How a call of a service goes: as it should, with an error and no effect, or with its effect and
-- an error because the reply is lost.
pub data Fault : Type 0 where
  fine failed lost : Fault

pub record Session : Type 0 where
  pub db : Database
  pub calls : ℕ
  pub book : Book
  pub cache : List (Uuid × Wallet)
  pub book_dirty : Bool
  pub sent : List OutboxEvent
  pub acked : List ℕ

abbrev pub Faults : Type 0
Faults = ℕ → Fault

abbrev pub Action : Type 0 → Type 0
Action A = Faults → Session → Result Failure A × Session

module _ {A : Type 0} where
  abbrev pub pure : A → Action A
  pure a faults s = (ok a, s)

  abbrev pub raise : Failure → Action A
  raise e faults s = (err e, s)

  abbrev pub or_raise : Option A → Failure → Action A
  or_raise none e = raise e
  or_raise (some a) e = pure a

  abbrev pub lift : {E : Type 0} → (E → Failure) → Result E A → Action A
  lift f (ok a) = pure a
  lift f (err e) = raise (f e)

infixl 5 ◌>>=◌ ◌>>◌
abbrev pub ◌>>=◌ : {A B : Type 0} → Action A → (A → Action B) → Action B
◌>>=◌ m f faults s =
    let (r, s') = m faults s in elim r [ ok a ↦ f a faults s' | err e ↦ (err e, s') ]

abbrev pub ◌>>◌ : {A : Type 0} → Action (Unit {0}) → Action A → Action A
m >> k = m >>= λ _. k

abbrev pub when : Bool → Action (Unit {0}) → Action (Unit {0})
when true m = m
when false m = pure tt

-- `for _, x := range xs`, which the first error leaves.
unfoldable pub for_each : {A : Type 0} → List A → (A → Action (Unit {0})) → Action (Unit {0})
for_each [] f = pure tt
for_each (x ∷ xs) f = f x >> for_each xs f

abbrev pub counted : Session → Session
counted s = record s { calls = suc s.calls }

-- The error of an action as a value, for code that goes on after it. A panic is no such error.
abbrev pub attempt : {A : Type 0} → Action A → Action (Result Failure A)
attempt m faults s =
    let (r, s') = m faults s in
    elim r [
      | ok a ↦ (ok (ok a), s')
      | err panicked ↦ (err panicked, s')
      | err no_fuel ↦ (err no_fuel, s')
      | err e ↦ (ok (err e), s')
    ]

-- One call of Redis, which is recorded whether or not it replies.
unfoldable pub remote : {A : Type 0} → A → (Session → Session) → Action A
remote a record_call faults s = elim (faults s.calls) [
  | fine ↦ (ok a, record_call (counted s))
  | _ ↦ (err driver, record_call (counted s))
]

-- One command of Redis that writes: one that fails has no effect, one whose reply is lost has it.
unfoldable pub command : (Session → Session) → Action (Unit {0})
command effect faults s = elim (faults s.calls) [
  | fine ↦ (ok tt, effect (counted s))
  | failed ↦ (err driver, counted s)
  | lost ↦ (err driver, effect (counted s))
]

-- One SELECT.
unfoldable pub query : {A : Type 0} → (Database → A) → Action A
query f faults s = elim (faults s.calls) [
  | fine ↦ (ok (f s.db), counted s)
  | _ ↦ (err driver, counted s)
]

-- One statement that writes; `none` is a violated constraint.
unfoldable pub exec : (Database → Option Database) → Action (Unit {0})
exec f faults s = elim (faults s.calls) [
  | fine ↦ elim (f s.db) [
    | none ↦ (err constraint, counted s)
    | some db ↦ (ok tt, record (counted s) { db = db })
  ]
  | _ ↦ (err driver, counted s)
]

-- One statement that writes and tells how it went.
unfoldable pub exec_rows : {A : Type 0} → (Database → A × Database) → Action A
exec_rows f faults s = elim (faults s.calls) [
  | fine ↦ (let (a, db) = f s.db in (ok a, record (counted s) { db = db }))
  | _ ↦ (err driver, counted s)
]

-- The end of a transaction that started on the tables `db`: COMMIT, or the deferred Rollback.
unfoldable pub commit :
    {A : Type 0} → Database → Result Failure A × Session → Faults → Result Failure A × Session
commit db (err e, s) faults = (err e, record s { db = db })
commit db (ok a, s) faults = elim (faults s.calls) [
  | fine ↦ (ok a, counted s)
  | failed ↦ (err driver, record (counted s) { db = db })
  | lost ↦ (err driver, counted s)
]

-- BeginTxx, the body, and Commit; an error of the body rolls back.
unfoldable pub transaction : {A : Type 0} → Action A → Action A
transaction m faults s = elim (faults s.calls) [
  | fine ↦ commit s.db (m faults (counted s)) faults
  | _ ↦ (err driver, counted s)
]

-- The end of a body that says whether it commits; if not, the deferred Rollback ends it.
unfoldable pub commit_if :
    {A : Type 0}
    → Database
    → Result Failure (Bool × A) × Session
    → Faults
    → Result Failure A × Session
unfolding commit
commit_if db (err e, s) faults = (err e, record s { db = db })
commit_if db (ok (true, a), s) faults = commit db (ok a, s) faults
commit_if db (ok (false, a), s) faults = (ok a, record s { db = db })

unfoldable pub transaction_if : {A : Type 0} → Action (Bool × A) → Action A
unfolding commit_if
transaction_if m faults s = elim (faults s.calls) [
  | fine ↦ commit_if s.db (m faults (counted s)) faults
  | _ ↦ (err driver, counted s)
]
