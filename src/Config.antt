-- ===== src/Config.antt =====
-- internal/platform/config/config.go: the configuration that the environment gives.
--
-- The environment is the function `os.Getenv`, which gives the empty string for a variable that is
-- not set. A floating-point number is a value that the model does not look into: its type, ParseFloat
-- and the literal 1.0 are parameters.
pub mod Loading
use order_book_vibranium.Base.{Bool, true, false, Option, none, some, if◌then◌else◌}
use order_book_vibranium.Base.Int64
use order_book_vibranium.Base.Int64.{Int64, pos}
use order_book_vibranium.Base.Bytes.{Bytes, bytes, is_empty, parse_int}
use order_book_vibranium.Base.Run.{Result, ok, err}

-- os.Getenv
abbrev pub Environment : Type 0
Environment = Bytes → Bytes

pub record Config (Float : Type 0) : Type 0 where
  pub database_url : Bytes
  pub redis_url : Bytes
  pub app_port : Bytes
  pub log_level : Bytes
  pub orders_stream_name : Bytes
  pub trades_stream_name : Bytes
  pub consumer_group_name : Bytes
  pub matcher_batch_size : Int64
  pub matcher_batch_timeout : Int64
  pub outbox_batch_size : Int64
  pub outbox_poll_interval : Int64
  pub otel_exporter_endpoint : Bytes
  pub otel_traces_sample_ratio : Float

-- ErrMissingDatabaseURL and ErrMissingRedisURL
pub data ConfigError : Type 0 where
  missing_database_url missing_redis_url : ConfigError

-- getEnvDefault
unfoldable pub get_env_default : Environment → Bytes → Bytes → Bytes
get_env_default env key default = if is_empty (env key) then default else env key

-- getEnvInt64Default
unfoldable pub get_env_int64_default : Environment → Bytes → Int64 → Int64
get_env_int64_default env key default =
    if is_empty (env key)
    then default
    else elim (parse_int (env key)) [ none ↦ default | some n ↦ n ]

-- time.Millisecond, in nanoseconds
abbrev pub millisecond : Int64
millisecond = pos 1000000

-- getEnvDurationMillisDefault: a product of two int64.
unfoldable pub get_env_duration_millis_default : Environment → Bytes → Int64 → Int64
unfolding get_env_int64_default
get_env_duration_millis_default env key default_millis =
    Int64.mul (get_env_int64_default env key default_millis) millisecond

-- The checks of Load on `cfg`.
unfoldable pub check_urls : {Float : Type 0} → Config Float → Result ConfigError (Config Float)
check_urls cfg =
    if is_empty cfg.database_url
    then err missing_database_url
    else if is_empty cfg.redis_url
    then err missing_redis_url
    else ok cfg

module _ {Float : Type 0} (parse_float : Bytes → Option Float) (one : Float) where
  -- getEnvFloat64Default
  unfoldable pub get_env_float64_default : Environment → Bytes → Float → Float
  get_env_float64_default env key default =
      if is_empty (env key)
      then default
      else elim (parse_float (env key)) [ none ↦ default | some f ↦ f ]

  -- The value of `cfg` in Load, before it is checked.
  unfoldable pub read_config : Environment → Config Float
  unfolding get_env_default get_env_int64_default get_env_duration_millis_default
      get_env_float64_default
  read_config env = record {
    database_url = env (bytes "DATABASE_URL");
    redis_url = env (bytes "REDIS_URL");
    app_port = get_env_default env (bytes "APP_PORT") (bytes "8080");
    log_level = get_env_default env (bytes "LOG_LEVEL") (bytes "info");
    orders_stream_name = get_env_default env (bytes "ORDERS_STREAM_NAME") (bytes "orders:incoming");
    trades_stream_name = get_env_default env (bytes "TRADES_STREAM_NAME") (bytes "trades:executed");
    consumer_group_name = get_env_default env (bytes "CONSUMER_GROUP_NAME") (bytes "matcher-group");
    matcher_batch_size = get_env_int64_default env (bytes "MATCHER_BATCH_SIZE") (pos 200);
    matcher_batch_timeout =
        get_env_duration_millis_default env (bytes "MATCHER_BATCH_TIMEOUT_MS") (pos 50);
    outbox_batch_size = get_env_int64_default env (bytes "OUTBOX_BATCH_SIZE") (pos 200);
    outbox_poll_interval =
        get_env_duration_millis_default env (bytes "OUTBOX_POLL_INTERVAL_MS") (pos 100);
    otel_exporter_endpoint =
        get_env_default env (bytes "OTEL_EXPORTER_OTLP_ENDPOINT") (bytes "http://localhost:4318");
    otel_traces_sample_ratio = get_env_float64_default env (bytes "OTEL_TRACES_SAMPLER_ARG") one;
  }

  -- Load
  unfoldable pub load : Environment → Result ConfigError (Config Float)
  unfolding read_config check_urls
  load env = check_urls (read_config env)
