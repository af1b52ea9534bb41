-- ===== src/Programs/Polling.antt =====
-- cmd/outbox-publisher/main.go: what the publisher sends, and an interval that it cannot run with.
use order_book_vibranium.Base.{
  ℕ, zero, suc, ◌+◌, ◌*◌, ◌≤◌, ◌≡◌, ◌≢◌, refl, ap, ◌∙◌, Bool, true, false, Option, none, [], ◌∷◌,
  arith,
}
use order_book_vibranium.Base.Int64
use order_book_vibranium.Base.Int64.{Int64, pos, negsuc, pos_part, half_range, wrap_lem}
use order_book_vibranium.Base.Bytes.{Bytes, bytes, is_empty}
use order_book_vibranium.Base.Decimal.{show_int, IsInt64}
use order_book_vibranium.Base.Run.{Result, ok, err}
use order_book_vibranium.Store.{Session, Faults, Action, Failure, panicked, attempt, ◌>>=◌}
use order_book_vibranium.Config.{
  Environment, Config, load, check_urls, read_config, millisecond, get_env_duration_millis_default,
}
use order_book_vibranium.Config.Loading.{shown_value}
use order_book_vibranium.Matcher.Safe.{Safe, >>=-Safe, attempt-Safe}
use order_book_vibranium.Publisher
use order_book_vibranium.Publisher.{run}
use order_book_vibranium.Publisher.Delivered.{IsDelivered}
use order_book_vibranium.Publisher.Polling.{run-Delivers}
use order_book_vibranium.Programs
use order_book_vibranium.Programs.{
  Stage, Exit, first_failing, opening, started, after_worker, publish_and_run, publisher_main,
}
use order_book_vibranium.Programs.Ending.{
  Begins, WorkerEnds, started-Begins, publish_and_run-WorkerEnds,
}
use order_book_vibranium.Programs.Matching.{started-Safe, after_worker-Safe}

publish_and_run-Safe :
    (opens : Stage → Bool) (stops : ℕ → Bool) (ticks : ℕ) {Float : Type 0} (cfg : Config Float)
    → Safe IsDelivered (publish_and_run opens stops ticks cfg)
unfolding publish_and_run
publish_and_run-Safe opens stops ticks cfg =
    let work = Publisher.run stops cfg.outbox_batch_size cfg.outbox_poll_interval ticks in
    >>=-Safe IsDelivered (attempt work) (after_worker stops)
      (attempt-Safe IsDelivered work
        (run-Delivers stops cfg.outbox_batch_size cfg.outbox_poll_interval ticks))
      (after_worker-Safe IsDelivered stops)

-- main of cmd/outbox-publisher, for every environment, whichever connections open, whenever a signal
-- comes and whatever calls of Postgres and Redis fail, after any number of ticks: if the ids of the
-- outbox differed and every row marked as published was in its stream, this is so at the end. A
-- configuration that is refused or a connection that does not open ends it before anything is done;
-- otherwise Run runs with the batch size and the interval of the configuration, and its error is
-- fatal unless the context is cancelled.
pub publisher_main-Delivers :
    (opens : Stage → Bool) (stops : ℕ → Bool) (ticks : ℕ) {Float : Type 0}
    (parse_float : Bytes → Option Float) (one : Float) (env : Environment) (faults : Faults)
    (s : Session)
    → IsDelivered s
    → let p = publisher_main opens stops ticks parse_float one env faults s in
      IsDelivered p.1
      × Begins opens
          (λ cfg.
            WorkerEnds stops
              (Publisher.run stops cfg.outbox_batch_size cfg.outbox_poll_interval ticks faults s))
          s
          (load parse_float one env)
          p
unfolding publisher_main
publisher_main-Delivers opens stops ticks parse_float one env faults s d = (
  started-Safe IsDelivered opens stops (publish_and_run opens stops ticks)
      (load parse_float one env) (publish_and_run-Safe opens stops ticks) faults s d,
  started-Begins opens stops (publish_and_run opens stops ticks)
      (λ cfg.
        WorkerEnds stops
          (Publisher.run stops cfg.outbox_batch_size cfg.outbox_poll_interval ticks faults s))
      faults s (λ cfg. publish_and_run-WorkerEnds opens stops ticks cfg faults s)
      (load parse_float one env),
)

-- The int64 -n.
abbrev pub negated : ℕ → Int64
negated zero = pos 0
negated (suc n) = negsuc n

negated-IsInt64 : (n : ℕ) → n * 1000000 ≤ half_range → IsInt64 (negated n)
negated-IsInt64 zero h = omega arith
negated-IsInt64 (suc n) h = omega (arith, h)

negated_millis :
    (n : ℕ) → n * 1000000 ≤ half_range → Int64.le (Int64.mul (negated n) millisecond) (pos 0) ≡ true
unfolding Int64.mul
negated_millis zero h = refl
negated_millis (suc n) h =
    let e =
      wrap_lem (0 * 1000000 + suc n * 0) (0 * 0 + suc n * 1000000) (omega arith)
        (omega (arith, h)) in
    rw (e, Int64.mul) (ground (arith, h))

run_panics :
    (stops : ℕ → Bool) (batch_size : Int64) (interval : Int64) (ticks : ℕ) (faults : Faults)
    (s : Session)
    → Int64.le interval (pos 0) ≡ true
    → Publisher.run stops batch_size interval ticks faults s ≡ (err panicked, s)
unfolding run
run_panics stops n interval ticks faults s e = rw e refl

worker_panics :
    (opens : Stage → Bool) (stops : ℕ → Bool) (ticks : ℕ) {Float : Type 0} (cfg : Config Float)
    (faults : Faults) (s : Session)
    → Int64.le cfg.outbox_poll_interval (pos 0) ≡ true
    → publish_and_run opens stops ticks cfg faults s ≡ (err panicked, s)
unfolding publish_and_run
worker_panics opens stops ticks cfg faults s e =
    ap
      (λ (p : Result Failure (Unit {0}) × Session).
        (attempt (λ _ _. p) >>= after_worker stops) faults s)
      (run_panics stops cfg.outbox_batch_size cfg.outbox_poll_interval ticks faults s e)

all_open :
    (opens : Stage → Bool) → ((st : Stage) → opens st ≡ true) → first_failing opens opening ≡ none
unfolding first_failing opening
all_open opens all =
    rw (all Programs.logger, all Programs.tracing, all Programs.postgres, all Programs.redis) refl

started_all :
    (opens : Stage → Bool) (stops : ℕ → Bool) {Float : Type 0} (work : Config Float → Action Exit)
    (cfg : Config Float)
    → ((st : Stage) → opens st ≡ true)
    → started opens stops work (ok cfg) ≡ work cfg
unfolding started
started_all opens stops work cfg all = rw (all_open opens all, started) refl

not_empty : (s : Bytes) → s ≢ [] → is_empty s ≡ false
not_empty [] ne = absurd (ne refl)
not_empty (c ∷ s) ne = refl

check_urls_given :
    {Float : Type 0} (cfg : Config Float)
    → cfg.database_url ≢ []
    → cfg.redis_url ≢ []
    → check_urls cfg ≡ ok cfg
unfolding check_urls
check_urls_given cfg d r = rw (not_empty cfg.database_url d, not_empty cfg.redis_url r) refl

interval_shown :
    {Float : Type 0} (parse_float : Bytes → Option Float) (one : Float) (env : Environment)
    (n : Int64)
    → IsInt64 n
    → env (bytes "OUTBOX_POLL_INTERVAL_MS") ≡ show_int n
    → (read_config parse_float one env).outbox_poll_interval ≡ Int64.mul n millisecond
unfolding read_config get_env_duration_millis_default
interval_shown parse_float one env n r e =
    ap (λ m. Int64.mul m millisecond)
      (shown_value env (bytes "OUTBOX_POLL_INTERVAL_MS") (pos 100) n r e)

-- main of cmd/outbox-publisher where the URLs are given, the connections open and the variable
-- OUTBOX_POLL_INTERVAL_MS is a number that is zero or less, whose nanoseconds fit in an int64: the
-- program panics in NewTicker and has sent nothing, although Load accepts the setting.
pub publisher_main_panics :
    (opens : Stage → Bool) (stops : ℕ → Bool) (ticks : ℕ) {Float : Type 0}
    (parse_float : Bytes → Option Float) (one : Float) (env : Environment) (faults : Faults)
    (s : Session) (n : ℕ)
    → ((st : Stage) → opens st ≡ true)
    → env (bytes "DATABASE_URL") ≢ []
    → env (bytes "REDIS_URL") ≢ []
    → n * 1000000 ≤ half_range
    → env (bytes "OUTBOX_POLL_INTERVAL_MS") ≡ show_int (negated n)
    → publisher_main opens stops ticks parse_float one env faults s ≡ (err panicked, s)
unfolding publisher_main load read_config
publisher_main_panics opens stops ticks parse_float one env faults s n all db redis small e =
    let cfg = read_config parse_float one env in
    let low : Int64.le cfg.outbox_poll_interval (pos 0) ≡ true =
      rw (interval_shown parse_float one env (negated n) (negated-IsInt64 n small) e)
        (negated_millis n small) in
    ap (λ r. started opens stops (publish_and_run opens stops ticks) r faults s)
      (check_urls_given cfg db redis)
    ∙ ap (λ (m : Action Exit). m faults s)
        (started_all opens stops (publish_and_run opens stops ticks) cfg all)
    ∙ worker_panics opens stops ticks cfg faults s low
