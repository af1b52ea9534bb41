-- ===== src/Tests/Services.antt =====
-- internal/application: the services on a small database.
use order_book_vibranium.Base.{ℕ, zero, suc, List, ◌≡◌, refl, true, false, some, [], ◌∷◌, arith}
use order_book_vibranium.Base.Int64.{pos}
use order_book_vibranium.Base.Assoc.{lookup}
use order_book_vibranium.Base.Run.{ok}
use order_book_vibranium.Order.{Side, OrderType}
use order_book_vibranium.Book.{new_book}
use order_book_vibranium.Book.Start.{new_book-IsValid}
use order_book_vibranium.Store.{OutboxEvent, encoded, Session, Faults, fine}
use order_book_vibranium.Store.Repositories.{find, has_id, any}
use order_book_vibranium.Trade.{Trade}
use order_book_vibranium.Service.Place.{PlaceOrderInput, validate, place, order_of, event_of}
use order_book_vibranium.Service.Place.Accepted.{Validates, validate-Validates}
use order_book_vibranium.Service.Place.Stored.{Places, place-Places}
use order_book_vibranium.Service.Withdraw.{request_cancel}
use order_book_vibranium.Service.Withdraw.Queued.{Withdraws, request_cancel-Withdraws}
use order_book_vibranium.Matcher.{Message, apply_batch}
use order_book_vibranium.Matcher.Recovery.{rest_all}
use order_book_vibranium.Matcher.Rebuilt.{Rebuilds, rest_all-Rebuilds}
use order_book_vibranium.Matcher.Loop.{process_messages, run}
use order_book_vibranium.Matcher.Running.{Committed, run-Commits}
use order_book_vibranium.Matcher.Acknowledging.{Acknowledges, process_messages-Acknowledges}
use order_book_vibranium.Matcher.Batches.{Applies, apply_batch-Applies}
use order_book_vibranium.Matcher.Redelivery.{apply_batch_again}
use order_book_vibranium.Publisher.{publish_and_mark_one}
use order_book_vibranium.Publisher.Publishing.{Publishes, publish_and_mark_one-Publishes}
use order_book_vibranium.Listing.{page, clamp}
use order_book_vibranium.Listing.Pages.{IsPage, page-IsPage}
use order_book_vibranium.Http.{PlaceOrderRequest, write_error, internal_error, place_order}
use order_book_vibranium.Http.Answers.{market_price_refused}
use order_book_vibranium.Tests.Orders.{resting_ask, resting_ask-IsValid}
use order_book_vibranium.Tests.Wallets.{rich}
use order_book_vibranium.Tests.Books.{hundred-IsPrice}

abbrev no_faults : Faults
no_faults n = fine

abbrev pub buy_input : PlaceOrderInput
buy_input = record {
  user_id = 70;
  side = Side.buy;
  order_type = OrderType.limit;
  price_cents = some (pos 100);
  quantity = pos 5;
}

abbrev pub queued : OutboxEvent
queued = record {
  id = 0;
  stream_name = [];
  payload = encoded (event_of (order_of 7 1 buy_input));
  published = false;
}

abbrev pub small : Session
small = record {
  db = record {
    users = record { id = 70; username = []; created_at = 0 } ∷ [];
    wallets = rich ∷ [];
    orders = resting_ask ∷ [];
    trades = [];
    processed_stream_events = 12 ∷ [];
    outbox_events = queued ∷ [];
    next_outbox_id = 1;
  };
  calls = 0;
  book = new_book;
  cache = [];
  book_dirty = false;
  sent = [];
  acked = [];
}

abbrev pub message : Message
message = record {
  id = 12;
  payload = queued.payload;
  readings = record { now = 3; clock = λ n. n; trade_id = λ n. n };
}

validate-Validates_example : Validates 7 1 buy_input (validate buy_input)
validate-Validates_example = validate-Validates 7 1 buy_input (omega arith) (omega arith)

place-Places_example : Places [] 7 1 buy_input small.db (place [] 7 1 buy_input no_faults small)
place-Places_example = place-Places [] 7 1 buy_input no_faults small

request_cancel-Withdraws_example :
    Withdraws [] 30
      (find (has_id 3) small.db.orders)
      small.db
      (request_cancel [] 3 30 no_faults small)
request_cancel-Withdraws_example = request_cancel-Withdraws [] 3 30 no_faults small

rest_all-Rebuilds_example :
    Rebuilds new_book (resting_ask ∷ []) (rest_all (resting_ask ∷ []) new_book)
unfolding new_book lookup
rest_all-Rebuilds_example = rest_all-Rebuilds (resting_ask ∷ []) new_book new_book-IsValid (
  record { valid = resting_ask-IsValid; traded = tt; priced = hundred-IsPrice },
  omega arith,
  refl,
  refl,
  tt,
)

-- An entry that was not marked before.
abbrev pub new_message : Message
new_message = record message { id = 13 }

apply_batch-Applies_example :
    Applies (new_message ∷ []) small.db (apply_batch (new_message ∷ []) no_faults small)
apply_batch-Applies_example = apply_batch-Applies (new_message ∷ []) no_faults small

process_messages-Acknowledges_example :
    Acknowledges
      (new_message ∷ message ∷ [])
      small
      (process_messages (new_message ∷ message ∷ []) no_faults small)
process_messages-Acknowledges_example =
    process_messages-Acknowledges (new_message ∷ message ∷ []) no_faults small

-- The first call brings an entry that is new and one that is marked.
abbrev pub deliveries : ℕ → List Message
deliveries zero = new_message ∷ message ∷ []
deliveries (suc k) = []

-- Entry 12 is marked, and has been acknowledged.
abbrev acknowledged : Session
acknowledged = record small { acked = 12 ∷ [] }

run-Commits_example : Committed (run deliveries (λ k. false) 5 4 no_faults acknowledged).1
run-Commits_example = run-Commits deliveries (λ k. false) 5 4 no_faults acknowledged (λ j h. h)

apply_batch_again_example :
    ((apply_batch (message ∷ []) no_faults small).1.db ≡ small.db)
    × ((apply_batch (message ∷ []) no_faults small).1.book ≡ small.book)
unfolding any
apply_batch_again_example = apply_batch_again (message ∷ []) no_faults small (refl, tt)

publish_and_mark_one-Publishes_example :
    Publishes queued small (publish_and_mark_one queued no_faults small)
publish_and_mark_one-Publishes_example = publish_and_mark_one-Publishes queued no_faults small

abbrev trade_at : ℕ → Trade
trade_at n = record {
  id = n;
  buy_order_id = 7;
  sell_order_id = 8;
  buyer_user_id = 70;
  seller_user_id = 80;
  price_cents = pos 100;
  quantity = pos 1;
  executed_at = n;
}

page-IsPage_example :
    IsPage 2
      (trade_at 3 ∷ trade_at 2 ∷ trade_at 1 ∷ [])
      (page (clamp 2) (trade_at 3 ∷ trade_at 2 ∷ trade_at 1 ∷ []))
page-IsPage_example = page-IsPage 2 (trade_at 3 ∷ trade_at 2 ∷ trade_at 1 ∷ [])

abbrev market_request : PlaceOrderRequest
market_request = record {
  user_id = [];
  side = Side.buy;
  order_type = OrderType.market;
  price_cents = some (pos 100);
  quantity = pos 5;
}

market_price_refused_example :
    place_order (λ text. some 70) (λ r. true) [] 7 1 (some market_request) no_faults small
    ≡ (ok (write_error 500 internal_error), small)
market_price_refused_example =
    market_price_refused (λ text. some 70) (λ r. true) [] 7 1 market_request (pos 100) no_faults
      small refl refl (omega arith)
