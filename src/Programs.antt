-- ===== src/Programs.antt =====
-- cmd/matcher/main.go and cmd/outbox-publisher/main.go: the main programs of the two workers.
--
-- `opens` says which of the libraries' constructors succeed: the logger, the exporter of traces, and
-- the connections to Postgres and Redis. What main does with a signal is the context that `stops`
-- cancels. A run-time panic stays an error of the action; `exited st` is a program that ends with a
-- panic of its own or log.Fatal at the stage, and `stopped` one that ends by itself. The deferred
-- calls close connections.
pub mod Ending
pub mod Matching
pub mod Polling
use order_book_vibranium.Base.{
  ℕ, suc, Bool, true, false, Option, none, some, List, [], ◌∷◌, if◌then◌else◌,
}
use order_book_vibranium.Base.Int64.{Int64, pos_part}
use order_book_vibranium.Base.Bytes.{Bytes}
use order_book_vibranium.Base.Run.{Result, ok, err}
use order_book_vibranium.Book.{Book}
use order_book_vibranium.Store.{Action, Failure, driver, pure, raise, attempt, ◌>>=◌, ◌>>◌, counted}
use order_book_vibranium.Config.{Environment, Config, ConfigError, load}
use order_book_vibranium.Matcher.{Message}
use order_book_vibranium.Matcher.Recovery.{recover_book}
use order_book_vibranium.Matcher.Loop
use order_book_vibranium.Publisher

pub data Stage : Type 0 where
  configuration logger tracing postgres redis recovery consumer_group worker : Stage

pub data Exit : Type 0 where
  stopped : Exit
  exited : Stage → Exit

-- The first of the stages that fails.
unfoldable pub first_failing : (Stage → Bool) → List Stage → Option Stage
first_failing opens [] = none
first_failing opens (st ∷ sts) = if opens st then first_failing opens sts else some st

-- The stages before the worker is made.
unfoldable pub opening : List Stage
opening = logger ∷ tracing ∷ postgres ∷ redis ∷ []

-- The reply to XGROUP CREATE.
pub data GroupReply : Type 0 where
  created busy_group refused : GroupReply

-- NewConsumer: a group that is there already is no error.
unfoldable pub new_consumer : GroupReply → Action (Unit {0})
new_consumer refused faults s = (err driver, counted s)
new_consumer _ faults s = (ok tt, counted s)

-- NewLoop, which holds the recovered book.
unfoldable pub new_loop : Book → Action (Unit {0})
new_loop b faults s = (ok tt, record s { book = b; book_dirty = false })

-- What main makes of an error of the worker: none, if the context is cancelled.
unfoldable pub after_worker : (ℕ → Bool) → Result Failure (Unit {0}) → Action Exit
after_worker stops (ok u) faults s = (ok stopped, s)
after_worker stops (err e) faults s = (ok (if stops s.calls then stopped else exited worker), s)

module _ (opens : Stage → Bool) (stops : ℕ → Bool) where
  -- The worker, once the configuration is loaded and the connections are open.
  unfoldable pub started :
      {Float : Type 0}
      → (Config Float → Action Exit)
      → Result ConfigError (Config Float)
      → Action Exit
  unfolding first_failing opening
  started work (err e) = pure (exited configuration)
  started work (ok cfg) = elim (first_failing opens opening) [
    | some st ↦ pure (exited st)
    | none ↦ work cfg
  ]

  module _ (reply : GroupReply) (replies : ℕ → List Message) (pulls rounds : ℕ) where
    unfoldable pub after_group : Result Failure (Unit {0}) → Action Exit
    unfolding after_worker
    after_group (err e) = pure (exited consumer_group)
    after_group (ok u) = do r ← attempt (Loop.run replies stops pulls rounds); after_worker stops r

    unfoldable pub after_recovery : Result Failure Book → Action Exit
    unfolding new_consumer new_loop after_group
    after_recovery (err e) = pure (exited recovery)
    after_recovery (ok b) = do new_loop b; g ← attempt (new_consumer reply); after_group g

    unfoldable pub recover_and_run : Action Exit
    unfolding after_recovery
    recover_and_run = do r ← attempt recover_book; after_recovery r

    module _ {Float : Type 0} (parse_float : Bytes → Option Float) (one : Float) where
      -- main of cmd/matcher
      unfoldable pub matcher_main : Environment → Action Exit
      unfolding started recover_and_run
      matcher_main env = started (λ cfg. recover_and_run) (load parse_float one env)

  module _ (ticks : ℕ) where
    unfoldable pub publish_and_run : {Float : Type 0} → Config Float → Action Exit
    unfolding after_worker
    publish_and_run cfg = do
      r ← attempt (Publisher.run stops cfg.outbox_batch_size cfg.outbox_poll_interval ticks)
      after_worker stops r

    module _ {Float : Type 0} (parse_float : Bytes → Option Float) (one : Float) where
      -- main of cmd/outbox-publisher
      unfoldable pub publisher_main : Environment → Action Exit
      unfolding started publish_and_run
      publisher_main env = started publish_and_run (load parse_float one env)
