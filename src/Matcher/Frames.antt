-- ===== src/Matcher/Frames.antt =====
-- internal/application/matcherapp/consumer_loop.go: no part of applying an entry touches the marks
-- of processed entries, except TryMark, the outbox, or the acknowledgements.
use order_book_vibranium.Base.{
  ℕ, suc, ◌≡◌, refl, ◌∙◌, inl, inr, Bool, true, false, ◌&&◌, Option, none, some, List, [], ◌∷◌,
  if◌then◌else◌, arith, Option-cases,
}
use order_book_vibranium.Base.Int64
use order_book_vibranium.Base.Int64.{Int64, pos}
use order_book_vibranium.Base.Run.{Result, ok, err}
use order_book_vibranium.Base.Assoc.{lookup}
use order_book_vibranium.Order.{Order, Uuid, Time, is_buy, is_limit}
use order_book_vibranium.Wallet
use order_book_vibranium.Wallet.{Wallet, WalletError}
use order_book_vibranium.Trade
use order_book_vibranium.Engine
use order_book_vibranium.Engine.{match}
use order_book_vibranium.Store
use order_book_vibranium.Store.{
  Database, OutboxEvent, EventType, new_order, cancel_order, StreamEvent, Payload, encoded,
  malformed, Session, Faults, Fault, fine, failed, lost, Action, Failure, pure, raise, lift,
  or_raise, when, for_each, ◌>>=◌, ◌>>◌, query, exec,
}
use order_book_vibranium.Store.Repositories.{
  get_wallet, update_wallet, update_order, insert_trade, find, owns,
}
use order_book_vibranium.Matcher.{
  Readings, keep_wallet, load_wallet, change_wallet, match_on_book, available_funds,
  release_improvement, settle_buyer, settle_trade, settle_trades, is_buy_market,
}

-- The outbox and the stream, as far as the matcher could change them.
pub record Queues : Type 0 where
  pub acked : List ℕ
  pub sent : List OutboxEvent
  pub outbox_events : List OutboxEvent
  pub next_outbox_id : ℕ

abbrev pub queues : Session → Queues
queues s = record {
  acked = s.acked;
  sent = s.sent;
  outbox_events = s.db.outbox_events;
  next_outbox_id = s.db.next_outbox_id;
}

-- The marks, and the queues.
abbrev pub marks : Session → List ℕ × Queues
marks s = (s.db.processed_stream_events, queues s)

-- The action leaves what `obs` sees as it is, however it ends.
abbrev pub Keeps : {X A : Type 0} → (Session → X) → Action A → Type 0
Keeps obs m = (faults : Faults) (s : Session) → obs (m faults s).1 ≡ obs s

module _ {X : Type 0} (obs : Session → X) where
  bind-Keeps :
      {A B : Type 0} (f : A → Action B) (faults : Faults) (p : Result Failure A × Session)
      → ((a : A) → Keeps obs (f a))
      → obs
          (elim p.0 as (λ _. Result Failure B × Session) [
            | ok a ↦ f a faults p.1
            | err e ↦ (err e, p.1)
          ]).1
        ≡ obs p.1
  bind-Keeps f faults (ok a, t) h = h a faults t
  bind-Keeps f faults (err e, t) h = refl

  pub >>=-Keeps :
      {A B : Type 0} (m : Action A) (f : A → Action B)
      → Keeps obs m
      → ((a : A) → Keeps obs (f a))
      → Keeps obs (m >>= f)
  >>=-Keeps m f hm hf faults s = bind-Keeps f faults (m faults s) hf ∙ hm faults s

  pub for_each-Keeps :
      {A : Type 0} (xs : List A) (f : A → Action (Unit {0}))
      → ((x : A) → Keeps obs (f x))
      → Keeps obs (for_each xs f)
  unfolding for_each
  for_each-Keeps [] f h faults s = refl
  for_each-Keeps (x ∷ xs) f h faults s =
      bind-Keeps (λ _. for_each xs f) faults (f x faults s) (λ _. for_each-Keeps xs f h)
      ∙ h x faults s

-- The action leaves the marks and the queues as they are, however it ends.
abbrev pub Frames : {A : Type 0} → Action A → Type 0
Frames m = Keeps marks m

module _ {A B : Type 0} where
  pub >>=-Frames :
      (m : Action A) (f : A → Action B) → Frames m → ((a : A) → Frames (f a)) → Frames (m >>= f)
  >>=-Frames m f hm hf = >>=-Keeps marks m f hm hf

pub when-Frames : (b : Bool) (m : Action (Unit {0})) → Frames m → Frames (when b m)
when-Frames true m h faults s = h faults s
when-Frames false m h faults s = refl

pub if-Frames :
    {A : Type 0} (b : Bool) (m n : Action A) → Frames m → Frames n → Frames (if b then m else n)
if-Frames true m n h k = h
if-Frames false m n h k = k

pub for_each-Frames :
    {A : Type 0} (xs : List A) (f : A → Action (Unit {0}))
    → ((x : A) → Frames (f x))
    → Frames (for_each xs f)
for_each-Frames xs f h = for_each-Keeps marks xs f h

pub lift-Frames : {A E : Type 0} (f : E → Failure) (r : Result E A) → Frames (lift f r)
lift-Frames f (ok a) faults s = refl
lift-Frames f (err e) faults s = refl

or_raise-Frames : {A : Type 0} (o : Option A) (e : Failure) → Frames (or_raise o e)
or_raise-Frames none e faults s = refl
or_raise-Frames (some a) e faults s = refl

query-Frames : {A : Type 0} (f : Database → A) → Frames (query f)
unfolding query
query-Frames f faults s = ground arith

get_wallet-Frames : (id : Uuid) → Frames (get_wallet id)
unfolding get_wallet
get_wallet-Frames id =
    >>=-Frames (query (λ db. find (owns id) db.wallets))
      (λ row. or_raise row Store.wallet_not_found) (query-Frames (λ db. find (owns id) db.wallets))
      (λ row. or_raise-Frames row Store.wallet_not_found)

pub update_wallet-Frames : (w : Wallet) → Frames (update_wallet w)
unfolding update_wallet exec
update_wallet-Frames w faults s = ground arith

pub update_order-Frames : (now : Time) (o : Order) → Frames (update_order now o)
unfolding update_order exec
update_order-Frames now o faults s = ground arith

insert_trade-Frames : (t : Trade.Trade) → Frames (insert_trade t)
unfolding insert_trade exec
insert_trade-Frames t faults s = ground arith

load_fresh : (id : Uuid) → Frames (get_wallet id >>= λ w. keep_wallet id w >> pure w)
unfolding keep_wallet
load_fresh id =
    >>=-Frames (get_wallet id) (λ w. keep_wallet id w >> pure w) (get_wallet-Frames id)
      (λ w faults s. refl)

pub load_wallet-Frames : (id : Uuid) → Frames (load_wallet id)
unfolding load_wallet
load_wallet-Frames id faults s = elim (Option-cases (lookup id s.cache)) [
  | inl e ↦ rw (e, load_wallet) (load_fresh id faults s)
  | inr (w, e) ↦ rw (e, load_wallet) refl
]

pub change_wallet-Frames :
    (id : Uuid) (method : Wallet → Result WalletError Wallet) → Frames (change_wallet id method)
unfolding change_wallet keep_wallet
change_wallet-Frames id method =
    >>=-Frames (load_wallet id) (λ w. lift Store.from_wallet (method w) >>= keep_wallet id)
      (load_wallet-Frames id)
      (λ w.
        >>=-Frames (lift Store.from_wallet (method w)) (keep_wallet id)
          (lift-Frames Store.from_wallet (method w)) (λ w' faults s. refl))

pub match_on_book-Frames :
    (clock : ℕ → Time) (o : Order) (funds : Option Int64) → Frames (match_on_book clock o funds)
unfolding match_on_book
match_on_book-Frames clock o funds faults s = ground arith

pub available_funds-Frames : (o : Order) → Frames (available_funds o)
unfolding available_funds
available_funds-Frames o =
    if-Frames (is_buy_market o)
      (load_wallet o.user_id >>= λ w. pure (some (Wallet.available_brl_cents w))) (pure none)
      (>>=-Frames (load_wallet o.user_id) (λ w. pure (some (Wallet.available_brl_cents w)))
        (load_wallet-Frames o.user_id) (λ w faults s. refl))
      (λ faults s. refl)

release_improvement-Frames :
    (p : Option Int64) (tr : Engine.Trade) → Frames (release_improvement p tr)
unfolding release_improvement
release_improvement-Frames none tr faults s = refl
release_improvement-Frames (some p) tr faults s =
    let improvement = Int64.mul (Int64.sub p tr.price_cents) tr.quantity in
    when-Frames (Int64.lt (pos 0) improvement)
      (change_wallet tr.buyer_user_id (Wallet.release_brl_reservation improvement))
      (change_wallet-Frames tr.buyer_user_id (Wallet.release_brl_reservation improvement)) faults s

settle_buyer-Frames : (o : Order) (tr : Engine.Trade) → Frames (settle_buyer o tr)
unfolding settle_buyer
settle_buyer-Frames o tr =
    let market = Wallet.settle_buy_market_fill tr.price_cents tr.quantity in
    let limit = Wallet.settle_buy_limit_fill tr.price_cents tr.quantity in
    let more =
      when (is_buy o.side && is_limit o.order_type) (release_improvement o.price_cents tr) in
    if-Frames (is_buy_market o) (change_wallet tr.buyer_user_id market)
      (change_wallet tr.buyer_user_id limit >> more) (change_wallet-Frames tr.buyer_user_id market)
      (>>=-Frames (change_wallet tr.buyer_user_id limit) (λ _. more)
        (change_wallet-Frames tr.buyer_user_id limit)
        (λ _.
          when-Frames (is_buy o.side && is_limit o.order_type)
            (release_improvement o.price_cents tr) (release_improvement-Frames o.price_cents tr)))

settle_trade-Frames :
    (now : Time) (id : Uuid) (o : Order) (tr : Engine.Trade) → Frames (settle_trade now id o tr)
unfolding settle_trade
settle_trade-Frames now id o tr =
    let row =
      Trade.new id tr.buy_order_id tr.sell_order_id tr.buyer_user_id tr.seller_user_id
        tr.price_cents tr.quantity now in
    let store = lift (λ e. Store.invalid_trade) row >>= insert_trade in
    let sell =
      change_wallet tr.seller_user_id (Wallet.settle_sell_fill tr.price_cents tr.quantity) in
    >>=-Frames (load_wallet tr.buyer_user_id)
      (λ _. load_wallet tr.seller_user_id >>= λ _. settle_buyer o tr >> (sell >> store))
      (load_wallet-Frames tr.buyer_user_id)
      (λ _.
        >>=-Frames (load_wallet tr.seller_user_id) (λ _. settle_buyer o tr >> (sell >> store))
          (load_wallet-Frames tr.seller_user_id)
          (λ _.
            >>=-Frames (settle_buyer o tr) (λ _. sell >> store) (settle_buyer-Frames o tr)
              (λ _.
                >>=-Frames sell (λ _. store)
                  (change_wallet-Frames tr.seller_user_id
                    (Wallet.settle_sell_fill tr.price_cents tr.quantity))
                  (λ _.
                    >>=-Frames (lift (λ e. Store.invalid_trade) row) insert_trade
                      (lift-Frames (λ e. Store.invalid_trade) row) insert_trade-Frames))))

pub settle_trades-Frames :
    (r : Readings) (k : ℕ) (o : Order) (trs : List Engine.Trade) → Frames (settle_trades r k o trs)
unfolding settle_trades
settle_trades-Frames r k o [] faults s = refl
settle_trades-Frames r k o (tr ∷ trs) faults s =
    >>=-Frames (settle_trade r.now (r.trade_id k) o tr) (λ _. settle_trades r (suc k) o trs)
      (settle_trade-Frames r.now (r.trade_id k) o tr) (λ _. settle_trades-Frames r (suc k) o trs)
      faults s
