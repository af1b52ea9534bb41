-- ===== src/Service/Place/Stored.antt =====
-- internal/application/orders/place_order_service.go: what Place leaves in the tables.
use mathlib.Core.Path.{subst}
use order_book_vibranium.Base.{
  ℕ, suc, ◌≡◌, refl, inl, Bool, true, false, Option, none, some, List, [], ◌∷◌, ◌++◌, if◌then◌else◌,
  arith,
}
use order_book_vibranium.Base.Int64
use order_book_vibranium.Base.Int64.{Int64, pos}
use order_book_vibranium.Base.Run.{Result, ok, err}
use order_book_vibranium.Order.{Order, Side, OrderType, Uuid, Time}
use order_book_vibranium.Wallet.{Wallet, reserve_brl, reserve_vibranium}
use order_book_vibranium.Store.{
  Database, Session, Faults, Failure, user_not_found, Payload, query, exec, Action, encoded,
  transaction, pure, raise, lift, counted, ◌>>=◌, ◌>>◌,
}
use order_book_vibranium.Store.Reading.{get_wallet-Succeeds}
use order_book_vibranium.Store.Repositories.{
  find, update_rows, owns, get_wallet, update_wallet, insert_order, insert_outbox, user_exists,
}
use order_book_vibranium.Store.Transactions.{Succeeds, >>=-Succeeds, Atomic, transaction-Atomic}
use order_book_vibranium.Service.Place.{
  PlaceOrderInput, validate, order_of, reserve, event_of, place_in_transaction, place,
}

-- The reservation that belongs to an order, as the wallet makes it.
abbrev pub Reserves : Side → OrderType → Option Int64 → Int64 → Wallet → Wallet → Type 0
Reserves Side.buy OrderType.limit (some p) q w w' = reserve_brl (Int64.mul p q) w ≡ ok w'
Reserves Side.buy OrderType.limit none q w w' = ⊥
Reserves Side.sell t p q w w' = reserve_vibranium q w ≡ ok w'
Reserves _ _ p q w w' = w' ≡ w

-- The tables with the order, the wallet after its reservation, and the event.
abbrev pub with_order : List ℕ → Order → Wallet → Database → Database
with_order stream_name o w db = record db {
  orders = db.orders ++ o ∷ [];
  wallets = update_rows (owns w.user_id) (λ v. w) db.wallets;
  outbox_events =
      db.outbox_events
      ++ record {
        id = db.next_outbox_id;
        stream_name = stream_name;
        payload = encoded (event_of o);
        published = false;
      }
        ∷ [];
  next_outbox_id = suc db.next_outbox_id;
}

-- Place has stored the order.
pub record Stores (stream_name : List ℕ) (id : Uuid) (now : Time) (input : PlaceOrderInput)
    (db : Database) (o : Order) (db' : Database) : Type 0 where
  pub order : o ≡ order_of id now input
  pub before : Wallet
  pub after : Wallet
  pub read : find (owns input.user_id) db.wallets ≡ some before
  pub reserved : Reserves input.side input.order_type input.price_cents input.quantity before after
  pub tables : db' ≡ with_order stream_name o after db

module _ (faults : Faults) where
  reserve-Reserves :
      (s : Side) (t : OrderType) (p : Option Int64) (q : Int64) (w : Wallet) (u : Session)
      {w' : Wallet} {u' : Session}
      → Succeeds (reserve s t p q w) faults u w' u'
      → Reserves s t p q w w' × (u' ≡ u)
  unfolding reserve
  reserve-Reserves s t p q w u h = ground arith

  insert_order-Succeeds :
      (o : Order) (u : Session) {a : Unit {0}} {u' : Session}
      → Succeeds (insert_order o) faults u a u'
      → u'.db ≡ record u.db { orders = u.db.orders ++ o ∷ [] }
  unfolding insert_order exec
  insert_order-Succeeds o u h = ground arith

  update_wallet-Succeeds :
      (w : Wallet) (u : Session) {a : Unit {0}} {u' : Session}
      → Succeeds (update_wallet w) faults u a u'
      → u'.db ≡ record u.db { wallets = update_rows (owns w.user_id) (λ v. w) u.db.wallets }
  unfolding update_wallet exec
  update_wallet-Succeeds w u h = ground arith

  insert_outbox-Succeeds :
      (stream_name : List ℕ) (p : Payload) (u : Session) {a : Unit {0}} {u' : Session}
      → Succeeds (insert_outbox stream_name p) faults u a u'
      → u'.db ≡ record u.db {
        outbox_events =
            u.db.outbox_events
            ++ record {
              id = u.db.next_outbox_id;
              stream_name = stream_name;
              payload = p;
              published = false;
            }
              ∷ [];
        next_outbox_id = suc u.db.next_outbox_id;
      }
  unfolding insert_outbox exec
  insert_outbox-Succeeds stream_name p u h = ground arith

  module _ (stream_name : List ℕ) (id : Uuid) (now : Time) (input : PlaceOrderInput) where
    abbrev o : Order
    o = order_of id now input

    abbrev last : Action Order
    last = insert_outbox stream_name (encoded (event_of o)) >> pure o

    abbrev write : Wallet → Action Order
    write w' = insert_order o >> (update_wallet w' >> last)

    abbrev hold : Wallet → Action Wallet
    hold = reserve input.side input.order_type input.price_cents input.quantity

    placed :
        (u : Session) (a : Order) (t : Session)
        → Succeeds (place_in_transaction stream_name id now input) faults u a t
        → Stores stream_name id now input u.db a t.db
    unfolding place_in_transaction
    placed u a t h =
        let (w, u1, read, h1) =
          >>=-Succeeds (get_wallet input.user_id) (λ w. hold w >>= write) faults u h in
        let (w', u2, held, h2) = >>=-Succeeds (hold w) write faults u1 h1 in
        let (x, u3, inserted, h3) =
          >>=-Succeeds (insert_order o) (λ _. update_wallet w' >> last) faults u2 h2 in
        let (y, u4, updated, h4) = >>=-Succeeds (update_wallet w') (λ _. last) faults u3 h3 in
        let (z, u5, queued, h5) =
          >>=-Succeeds (insert_outbox stream_name (encoded (event_of o))) (λ _. pure o) faults u4
            h4 in
        let (found, same) = get_wallet-Succeeds faults input.user_id u read in
        let (reserved, same2) =
          reserve-Reserves input.side input.order_type input.price_cents input.quantity w u1 held in
        let a_is : a ≡ o = ground arith in
        let end : t ≡ u5 = ground arith in
        let d5 = insert_outbox-Succeeds stream_name (encoded (event_of o)) u4 queued in
        let d4 = update_wallet-Succeeds w' u3 updated in
        let d3 = insert_order-Succeeds o u2 inserted in
        record {
          order = a_is;
          before = w;
          after = w';
          read = found;
          reserved = reserved;
          tables = rw (end, d5, d4, d3, same2, same, a_is) refl;
        }

-- How Place ends: with the order stored, the wallet's reservation made and the event queued, all
-- three or none; an error leaves either, since the reply to a COMMIT may be lost.
abbrev pub Places :
    List ℕ → Uuid → Time → PlaceOrderInput → Database → Result Failure Order × Session → Type 0
Places stream_name id now input db =
    Atomic (λ o db'. (validate input ≡ ok tt) × Stores stream_name id now input db o db') db

-- The user is asked for, and then the transaction is run.
admitted :
    (stream_name : List ℕ) (id : Uuid) (now : Time) (input : PlaceOrderInput) (faults : Faults)
    (s : Session)
    → validate input ≡ ok tt
    → (exists : Bool)
    → Places stream_name id now input s.db (
        (if exists
            then transaction (place_in_transaction stream_name id now input)
            else raise user_not_found)
          faults s)
admitted stream_name id now input faults s valid true =
    transaction-Atomic
      (λ o db'. (validate input ≡ ok tt) × Stores stream_name id now input s.db o db')
      (place_in_transaction stream_name id now input) faults s
      (λ a t h. (valid, placed faults stream_name id now input (counted s) a t h))
admitted stream_name id now input faults s valid false = inl refl

module _ (stream_name : List ℕ) (id : Uuid) (now : Time) (input : PlaceOrderInput) (faults : Faults)
    (s : Session) where
  abbrev begin : Bool → Action Order
  begin exists =
      if exists
      then transaction (place_in_transaction stream_name id now input)
      else raise user_not_found

  asked :
      (p : Result Failure Bool × Session)
      → p.1.db ≡ s.db
      → validate input ≡ ok tt
      → Places stream_name id now input s.db
          (elim p.0 [ ok a ↦ begin a faults p.1 | err e ↦ (err e, p.1) ])
  asked (ok a, t) same valid =
      subst (λ db. Places stream_name id now input db (begin a faults t)) same
        (admitted stream_name id now input faults t valid a)
  asked (err e, t) same valid = inl same

  same_tables : (user_exists input.user_id faults s).1.db ≡ s.db
  unfolding user_exists query
  same_tables = ground arith

  checked :
      (r : Result Failure (Unit {0}))
      → validate input ≡ r
      → Places stream_name id now input s.db
          ((lift (λ e. e) r >> (user_exists input.user_id >>= begin)) faults s)
  checked (ok tt) valid = asked (user_exists input.user_id faults s) same_tables valid
  checked (err e) refused = inl refl

-- Place, whatever calls of the database fail: a success has a valid input and has stored the order,
-- the wallet with the reservation that belongs to it, and its event, and nothing else; an error has
-- changed nothing, or is a lost reply after exactly that.
pub place-Places :
    (stream_name : List ℕ) (id : Uuid) (now : Time) (input : PlaceOrderInput) (faults : Faults)
    (s : Session)
    → Places stream_name id now input s.db (place stream_name id now input faults s)
unfolding place
place-Places stream_name id now input faults s =
    checked stream_name id now input faults s (validate input) refl
