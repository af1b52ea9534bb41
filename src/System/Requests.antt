-- ===== src/System/Requests.antt =====
-- internal/application/orders: a request on the database that the three programs share.
use order_book_vibranium.Base.{
  ℕ, suc, ◌≡◌, refl, sym, ◌⊎◌, inl, inr, false, Option, some, none, List, [], ◌∷◌, ◌++◌, arith,
}
use mathlib.Core.Path.{subst}
use order_book_vibranium.Base.Int64
use order_book_vibranium.Base.Int64.{Int64, full_range}
use order_book_vibranium.Base.Run.{Result, ok, err}
use order_book_vibranium.Order.{Order, Side, OrderType, Uuid, Time}
use order_book_vibranium.Wallet.{Wallet}
use order_book_vibranium.Wallet.Supply.{
  Asset, Flows, reserve_brl-Flows, reserve_vibranium-Flows, supply-eq_of_total,
}
use order_book_vibranium.Store
use order_book_vibranium.Store.{
  Database, Payload, encoded, OutboxEvent, Session, Faults, Failure, Action, lift, raise, pure,
  transaction, transaction_if, commit_if, commit, counted, query, exec, ◌>>=◌, ◌>>◌,
}
use order_book_vibranium.Store.Repositories.{find, has_id}
use order_book_vibranium.Service.Place.{PlaceOrderInput, event_of, place}
use order_book_vibranium.Service.Place.Stored.{Reserves, with_order, Stores, Places, place-Places}
use order_book_vibranium.Service.Withdraw.{CancelResult, request_cancel, cancel_event}
use order_book_vibranium.Service.Withdraw.Queued.{with_event, Withdraws, request_cancel-Withdraws}
use order_book_vibranium.Matcher.Supply.{Distinct}
use order_book_vibranium.Matcher.Supply.Conserved.{SameSupply}
use order_book_vibranium.System.Fresh.{replaced_lem}
use order_book_vibranium.System.Calls.{o}

-- A reservation moves nothing into the wallet or out of it.
reserves_lem :
    (a : Asset) (s : Side) (t : OrderType) (p : Option Int64) (q : Int64) (w w' : Wallet)
    → Reserves s t p q w w'
    → Flows a 0 0 w (ok w')
reserves_lem a Side.buy OrderType.limit (some p) q w w' h =
    rw h at (reserve_brl-Flows (Int64.mul p q) w a)
reserves_lem a Side.buy OrderType.limit none q w w' h = absurd h
reserves_lem a Side.sell t p q w w' h = rw h at (reserve_vibranium-Flows q w a)
reserves_lem a _ _ p q w w' h = rw h (refl, refl)

-- What a request may do to the tables that the other programs use.
pub record Requests (db db' : Database) : Type 0 where
  pub processed : db'.processed_stream_events ≡ db.processed_stream_events
  pub wallets : Distinct db.wallets → (a : Asset) → SameSupply a db db'
  pub outbox :
      (db'.outbox_events ≡ db.outbox_events) × (db'.next_outbox_id ≡ db.next_outbox_id)
      ⊎ ((e : OutboxEvent) × (e.id ≡ db.next_outbox_id)
          × (e.published ≡ false)
          × (db'.outbox_events ≡ db.outbox_events ++ e ∷ [])
          × (db'.next_outbox_id ≡ suc db.next_outbox_id))

nothing-Requests : (db db' : Database) → db' ≡ db → Requests db db'
nothing-Requests db db' same =
    subst (Requests db) (sym same)
      (record { processed = refl; wallets = λ d a. (d, refl); outbox = inl (refl, refl) })

event-Requests :
    (stream_name : List ℕ) (p : Payload) (db db' : Database)
    → db' ≡ with_event stream_name p db
    → Requests db db'
event-Requests stream_name p db db' same = subst (Requests db) (sym same) (record {
  processed = refl;
  wallets = λ d a. (d, refl);
  outbox = inr (
    record { id = db.next_outbox_id; stream_name = stream_name; payload = p; published = false },
    refl,
    refl,
    refl,
    refl,
  );
})

Stores-Requests :
    (stream_name : List ℕ) (id : Uuid) (now : Time) (input : PlaceOrderInput) (db : Database)
    (placed : Order) (db' : Database)
    → Stores stream_name id now input db placed db'
    → Requests db db'
Stores-Requests stream_name id now input db placed db' stored =
    subst (Requests db) (sym stored.tables) (record {
      processed = refl;
      wallets = λ d a.
          (let (owner, same) =
              reserves_lem a input.side input.order_type input.price_cents input.quantity
                stored.before stored.after stored.reserved in
            let (distinct, total) =
              replaced_lem a stored.before stored.after db.wallets d input.user_id stored.read owner
                (omega (arith, same)) in
            (
              distinct,
              supply-eq_of_total a (with_order stream_name placed stored.after db).wallets
                  db.wallets total,
            ));
      outbox = inr (
        record {
          id = db.next_outbox_id;
          stream_name = stream_name;
          payload = encoded (event_of placed);
          published = false;
        },
        refl,
        refl,
        refl,
        refl,
      );
    })

pub place-Requests :
    (stream_name : List ℕ) (id : Uuid) (now : Time) (input : PlaceOrderInput) (faults : Faults)
    (s : Session)
    → Requests s.db (place stream_name id now input faults s).1.db
place-Requests stream_name id now input faults s =
    ended (place stream_name id now input faults s) (place-Places stream_name id now input faults s)
  where
    ended :
        (p : Result Failure Order × Session)
        → Places stream_name id now input s.db p
        → Requests s.db p.1.db
    ended (ok placed, t) (_, stored) =
        Stores-Requests stream_name id now input s.db placed t.db stored
    ended (err f, t) (inl same) = nothing-Requests s.db t.db same
    ended (err f, t) (inr (placed, (_, stored))) =
        Stores-Requests stream_name id now input s.db placed t.db stored

cancel_lem :
    (stream_name : List ℕ) (who : Uuid) (row : Option Order) (db : Database)
    (p : Result Failure CancelResult × Session)
    → Withdraws stream_name who row db p
    → Requests db p.1.db
cancel_lem stream_name who (some o) db (ok r, t) (_, (_, inl (_, _, _, same))) =
    nothing-Requests db t.db same
cancel_lem stream_name who (some o) db (ok r, t) (_, (_, inr (_, _, _, queued))) =
    event-Requests stream_name (encoded (cancel_event o who)) db t.db queued
cancel_lem stream_name who none db (ok r, t) h = absurd h
cancel_lem stream_name who none db (err Store.order_not_found, t) h = nothing-Requests db t.db h
cancel_lem stream_name who (some o) db (err Store.forbidden, t) h = nothing-Requests db t.db h.1
cancel_lem stream_name who (some o) db (err Store.driver, t) (inl same) =
    nothing-Requests db t.db same
cancel_lem stream_name who (some o) db (err Store.driver, t) (inr (_, _, queued)) =
    event-Requests stream_name (encoded (cancel_event o who)) db t.db queued
cancel_lem stream_name who none db (err Store.driver, t) h = nothing-Requests db t.db h
cancel_lem stream_name who _ db (err _, t) h = absurd h

pub request_cancel-Requests :
    (stream_name : List ℕ) (order_id who : Uuid) (faults : Faults) (s : Session)
    → Requests s.db (request_cancel stream_name order_id who faults s).1.db
request_cancel-Requests stream_name order_id who faults s =
    cancel_lem stream_name who (find (has_id order_id) s.db.orders) s.db
      (request_cancel stream_name order_id who faults s)
      (request_cancel-Withdraws stream_name order_id who faults s)
