-- ===== src/Tests/Programs.antt =====
-- cmd, internal/platform and internal/infra/httpapi: the programs and the middleware on small inputs.
use order_book_vibranium.Base.{
  ℕ, ◌≡◌, refl, Bool, true, false, ◌==◌, Option, none, [], ◌∷◌, arith, ltb, length,
}
use order_book_vibranium.Base.Bytes.{Bytes, bytes, parse_int}
use order_book_vibranium.Base.Int64.{pos}
use order_book_vibranium.Base.Run.{Result, ok, err}
use order_book_vibranium.Wallet.Supply.{Asset}
use order_book_vibranium.Store.{Session, Failure, panicked}
use order_book_vibranium.Store.Repositories.{any}
use order_book_vibranium.Config.{Environment, load, get_env_int64_default}
use order_book_vibranium.Config.Loading.{Loads, load-Loads}
use order_book_vibranium.Telemetry.{init_tracer_provider}
use order_book_vibranium.Telemetry.Endpoints.{Starts, init_tracer_provider-Starts}
use order_book_vibranium.Programs.{Stage, Exit, created, matcher_main, publisher_main}
use order_book_vibranium.Programs.Ending.{Begins, WorkerEnds, RecoveryEnds}
use order_book_vibranium.Matcher.Loop
use order_book_vibranium.Matcher.Recovery.{recover_book}
use order_book_vibranium.Publisher
use order_book_vibranium.Programs.Matching.{matcher_main-Keeps}
use order_book_vibranium.Programs.Polling.{publisher_main-Delivers, publisher_main_panics}
use order_book_vibranium.Matcher.Running.{Committed}
use order_book_vibranium.Matcher.Supply.Conserved.{SameSupply}
use order_book_vibranium.Publisher.Delivered.{IsDelivered}
use order_book_vibranium.Publisher.Progress.{no_faults}
use order_book_vibranium.Http.{Response, absent}
use order_book_vibranium.Http.Routing.{
  Request, get, post, to_list_users, to_place_order, Router, answer,
}
use order_book_vibranium.Listing.{first_page}
use order_book_vibranium.Tests.Services.{deliveries}
use order_book_vibranium.Tests.Systems.{exchange, half_sent, half_sent-IsDelivered}

-- Every variable is "0", and a ratio is a number of per cent that never parses.
abbrev zeros : Environment
zeros key = bytes "0"

abbrev no_float : Bytes → Option ℕ
no_float s = none

abbrev all_open : Stage → Bool
all_open st = true

zero_is_read : get_env_int64_default zeros (bytes "MATCHER_BATCH_SIZE") (pos 200) ≡ pos 0
unfolding get_env_int64_default parse_int
zero_is_read = refl

load-Loads_example : Loads zeros no_float 100 (load no_float 100 zeros)
load-Loads_example = load-Loads no_float 100 zeros

init_tracer_provider-Starts_example :
    Starts
      (λ n. n == 0)
      100
      true
      true
      (record { exporter_endpoint = bytes "https://collector:4318"; sample_ratio = 0 })
      (init_tracer_provider
        (λ n. n == 0)
        100
        true
        true
        (record { exporter_endpoint = bytes "https://collector:4318"; sample_ratio = 0 })
        (bytes "trade-market-api"))
init_tracer_provider-Starts_example =
    init_tracer_provider-Starts (λ n. n == 0) 100 true true
      (record { exporter_endpoint = bytes "https://collector:4318"; sample_ratio = 0 })
      (bytes "trade-market-api")

abbrev matched : Result Failure Exit × Session
matched =
    matcher_main all_open (λ k. false) created deliveries 5 4 no_float 100 zeros no_faults exchange

matcher_main-Keeps_example :
    Committed matched.1
    × SameSupply Asset.real exchange.db matched.1.db
    × Begins all_open
        (λ cfg.
          RecoveryEnds
            (λ k. false)
            created
            (Loop.run deliveries (λ k. false) 5 4 no_faults)
            (recover_book no_faults exchange))
        exchange
        (load no_float 100 zeros)
        matched
unfolding any
matcher_main-Keeps_example =
    matcher_main-Keeps Asset.real all_open (λ k. false) created deliveries 5 4 no_float 100 zeros
      no_faults exchange (λ j h. h) (refl, (refl, tt))

-- Every variable is "5".
abbrev fives : Environment
fives key = bytes "5"

abbrev published : Result Failure Exit × Session
published = publisher_main all_open (λ k. false) 3 no_float 100 fives no_faults half_sent

publisher_main-Delivers_example :
    IsDelivered published.1
    × Begins all_open
        (λ cfg.
          WorkerEnds
            (λ k. false)
            (Publisher.run
              (λ k. false)
              cfg.outbox_batch_size
              cfg.outbox_poll_interval
              3
              no_faults
              half_sent))
        half_sent
        (load no_float 100 fives)
        published
publisher_main-Delivers_example =
    publisher_main-Delivers all_open (λ k. false) 3 no_float 100 fives no_faults half_sent
      half_sent-IsDelivered

publisher_main_panics_example :
    publisher_main all_open (λ k. false) 3 no_float 100 zeros no_faults half_sent
    ≡ (err panicked, half_sent)
publisher_main_panics_example =
    publisher_main_panics all_open (λ k. false) 3 no_float 100 zeros no_faults half_sent 0
      (λ st. refl) (λ e. cc e) (λ e. cc e) (omega arith) refl

-- GET /users, with an id of the caller.
abbrev get_users : Request
get_users = record {
  method = get;
  path = bytes "users" ∷ [];
  x_request_id = bytes "abc";
  order = none;
  canceller = none;
  user_filter = absent;
  order_filter = absent;
  limit = absent;
  cursor = first_page;
}

abbrev shorter : Bytes → Bytes → Bool
shorter s t = ltb (length s) (length t)

-- A router that knows GET /users and POST /orders.
abbrev small_router : Router
small_router get path = ok to_list_users
small_router post path = ok to_place_order
small_router m path = err (answer 404)

abbrev recovered :
    Result Failure (Response × Option ℕ) × Session → Result Failure (Response × Option ℕ) × Session
recovered (ok v, t) = (ok v, t)
recovered (err f, t) = (ok (answer 500, none), t)
