-- ===== src/Service/Withdraw/Queued.antt =====
-- internal/application/orders/cancel_order_service.go: how a request to cancel ends.
use order_book_vibranium.Base.{
  ℕ, suc, ◌≡◌, ◌≢◌, ◌⊎◌, true, false, Option, none, some, List, [], ◌∷◌, ◌++◌, arith,
}
use order_book_vibranium.Base.Run.{Result, ok, err}
use order_book_vibranium.Order.{Order, Uuid, cancel_queued, is_done}
use order_book_vibranium.Store.{
  Database, Payload, encoded, Session, Faults, Failure, driver, order_not_found, forbidden,
  transaction_if, commit_if, commit, query, exec,
}
use order_book_vibranium.Store.Repositories.{find, has_id, get_order, insert_outbox}
use order_book_vibranium.Service.Withdraw.{CancelResult, cancel_event, decide, request_cancel}

-- The tables with one more event.
abbrev pub with_event : List ℕ → Payload → Database → Database
with_event stream_name p db = record db {
  outbox_events =
      db.outbox_events
      ++ record {
        id = db.next_outbox_id;
        stream_name = stream_name;
        payload = p;
        published = false;
      }
        ∷ [];
  next_outbox_id = suc db.next_outbox_id;
}

-- The request is answered for the order `o`: at once if it is done, else with an event.
abbrev pub Answers : List ℕ → Uuid → Order → Database → CancelResult → Database → Type 0
Answers stream_name who o db r db' =
    (r.order_id ≡ o.id)
    × ((is_done o ≡ true) × (r.already_terminal ≡ true) × (r.status ≡ o.status) × (db' ≡ db)
        ⊎ (is_done o ≡ false)
          × (r.already_terminal ≡ false)
          × (r.status ≡ cancel_queued)
          × (db' ≡ with_event stream_name (encoded (cancel_event o who)) db))

-- How the request ends, when GetTx finds `row`.
abbrev pub Withdraws :
    List ℕ → Uuid → Option Order → Database → Result Failure CancelResult × Session → Type 0
Withdraws stream_name who (some o) db (ok r, t) =
    (o.user_id ≡ who) × Answers stream_name who o db r t.db
Withdraws stream_name who none db (err order_not_found, t) = t.db ≡ db
Withdraws stream_name who (some o) db (err forbidden, t) = (o.user_id ≢ who) × (t.db ≡ db)
Withdraws stream_name who (some o) db (err driver, t) =
    (t.db ≡ db)
    ⊎ (o.user_id ≡ who)
      × (is_done o ≡ false)
      × (t.db ≡ with_event stream_name (encoded (cancel_event o who)) db)
Withdraws stream_name who none db (err driver, t) = t.db ≡ db
Withdraws stream_name who row db r = ⊥

-- Cancel, whatever calls of the database fail: an unknown order is not found, an order of another
-- user is forbidden, a done order is answered with its status, each with the tables as they were;
-- otherwise exactly one CANCEL_ORDER event is queued, and an error leaves the tables as they were,
-- or with that event if the reply to the COMMIT was lost.
pub request_cancel-Withdraws :
    (stream_name : List ℕ) (order_id who : Uuid) (faults : Faults) (s : Session)
    → Withdraws stream_name who
        (find (has_id order_id) s.db.orders)
        s.db
        (request_cancel stream_name order_id who faults s)
unfolding request_cancel decide transaction_if commit_if commit query exec get_order insert_outbox
request_cancel-Withdraws stream_name order_id who faults s = ground arith
