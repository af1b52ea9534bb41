-- ===== src/System/Calls.antt =====
-- internal/application/orders: a request makes no call of Redis.
use order_book_vibranium.Base.{ℕ, ◌≡◌, refl, Bool, true, false, Option, List, if◌then◌else◌, arith}
use order_book_vibranium.Base.Int64.{Int64}
use order_book_vibranium.Base.Run.{Result, ok, err}
use order_book_vibranium.Order.{Order, Side, OrderType, Uuid, Time}
use order_book_vibranium.Wallet.{Wallet}
use order_book_vibranium.Store
use order_book_vibranium.Store.{
  Database, Payload, encoded, OutboxEvent, Session, Faults, Failure, Action, lift, raise, pure,
  transaction, transaction_if, commit_if, commit, counted, query, exec, ◌>>=◌, ◌>>◌,
}
use order_book_vibranium.Store.Repositories.{
  user_exists, get_wallet, get_order, insert_order, update_wallet, insert_outbox,
}
use order_book_vibranium.Service.Place.{
  PlaceOrderInput, validate, order_of, reserve, event_of, place_in_transaction, place,
}
use order_book_vibranium.Service.Withdraw.{decide, request_cancel}
use order_book_vibranium.Matcher.Frames.{Keeps, >>=-Keeps}

-- The calls of Redis.
abbrev pub calls : Session → List OutboxEvent × List ℕ
calls s = (s.sent, s.acked)

pub lift-Keeps : {A E : Type 0} (f : E → Failure) (r : Result E A) → Keeps calls (lift f r)
lift-Keeps f (ok x) faults s = refl
lift-Keeps f (err e) faults s = refl

pub if-Keeps :
    {A : Type 0} (b : Bool) (m n : Action A)
    → Keeps calls m
    → Keeps calls n
    → Keeps calls (if b then m else n)
if-Keeps true m n h k = h
if-Keeps false m n h k = k

pub commit-Keeps :
    {A : Type 0} (s : Session) (faults : Faults) (p : Result Failure A × Session)
    → calls p.1 ≡ calls s
    → calls (commit s.db p faults).1 ≡ calls s
unfolding commit
commit-Keeps s faults (ok a, t) h = ground (arith, h)
commit-Keeps s faults (err e, t) h = ground (arith, h)

pub transaction-Keeps : {A : Type 0} (m : Action A) → Keeps calls m → Keeps calls (transaction m)
unfolding transaction
transaction-Keeps m h faults s =
    ground (arith, commit-Keeps s faults (m faults (counted s)), h faults (counted s))

pub get_wallet-Keeps : (id : Uuid) → Keeps calls (get_wallet id)
unfolding get_wallet query
get_wallet-Keeps id faults s = ground arith

pub insert_order-Keeps : (o : Order) → Keeps calls (insert_order o)
unfolding insert_order exec
insert_order-Keeps o faults s = ground arith

pub update_wallet-Keeps : (w : Wallet) → Keeps calls (update_wallet w)
unfolding update_wallet exec
update_wallet-Keeps w faults s = ground arith

pub insert_outbox-Keeps :
    (stream_name : List ℕ) (p : Payload) → Keeps calls (insert_outbox stream_name p)
unfolding insert_outbox exec
insert_outbox-Keeps stream_name p faults s = ground arith

pub user_exists-Keeps : (id : Uuid) → Keeps calls (user_exists id)
unfolding user_exists query
user_exists-Keeps id faults s = ground arith

pub reserve-Keeps :
    (s : Side) (t : OrderType) (p : Option Int64) (q : Int64) (w : Wallet)
    → Keeps calls (reserve s t p q w)
unfolding reserve
reserve-Keeps s t p q w faults u = ground arith

module _ (stream_name : List ℕ) (id : Uuid) (now : Time) (input : PlaceOrderInput) where
  abbrev pub o : Order
  o = order_of id now input

  pub place_in_transaction-Keeps : Keeps calls (place_in_transaction stream_name id now input)
  unfolding place_in_transaction
  place_in_transaction-Keeps =
      let last = insert_outbox stream_name (encoded (event_of o)) >> pure o in
      let write : Wallet → Action Order = λ w. insert_order o >> (update_wallet w >> last) in
      let hold = reserve input.side input.order_type input.price_cents input.quantity in
      >>=-Keeps calls (get_wallet input.user_id) (λ w. hold w >>= write)
        (get_wallet-Keeps input.user_id)
        (λ w.
          >>=-Keeps calls (hold w) write
            (reserve-Keeps input.side input.order_type input.price_cents input.quantity w)
            (λ w.
              >>=-Keeps calls (insert_order o) (λ _. update_wallet w >> last) (insert_order-Keeps o)
                (λ _.
                  >>=-Keeps calls (update_wallet w) (λ _. last) (update_wallet-Keeps w)
                    (λ _.
                      >>=-Keeps calls (insert_outbox stream_name (encoded (event_of o)))
                        (λ _. pure o) (insert_outbox-Keeps stream_name (encoded (event_of o)))
                        (λ _ faults s. refl)))))

  pub place-Keeps : Keeps calls (place stream_name id now input)
  unfolding place
  place-Keeps =
      let begin : Bool → Action Order = λ exists.
        if exists
        then transaction (place_in_transaction stream_name id now input)
        else raise Store.user_not_found in
      >>=-Keeps calls (lift (λ e. e) (validate input)) (λ _. user_exists input.user_id >>= begin)
        (lift-Keeps (λ e. e) (validate input))
        (λ _.
          >>=-Keeps calls (user_exists input.user_id) begin (user_exists-Keeps input.user_id)
            (λ exists.
              if-Keeps exists (transaction (place_in_transaction stream_name id now input))
                (raise Store.user_not_found)
                (transaction-Keeps (place_in_transaction stream_name id now input)
                  place_in_transaction-Keeps)
                (λ faults s. refl)))

pub request_cancel-Keeps :
    (stream_name : List ℕ) (order_id who : Uuid)
    → Keeps calls (request_cancel stream_name order_id who)
unfolding request_cancel decide transaction_if commit_if commit query exec get_order insert_outbox
request_cancel-Keeps stream_name order_id who faults s = ground arith
