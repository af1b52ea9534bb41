-- ===== src/Config/Loading.antt =====
-- internal/platform/config/config.go: what Load makes of the environment.
use order_book_vibranium.Base.{
  ℕ, ◌*◌, ◌<◌, ◌≡◌, ◌≢◌, refl, sym, ◌∙◌, inl, inr, true, false, Option, none, some, [], ◌∷◌, arith,
  Bool-cases,
}
use order_book_vibranium.Base.Int64
use order_book_vibranium.Base.Int64.{Int64, pos, negsuc, half_range}
use order_book_vibranium.Base.Bytes.{Bytes, bytes, is_empty, parse_int}
use order_book_vibranium.Base.Decimal.{show_int, IsInt64, parse_int-show_int, show_int-filled}
use order_book_vibranium.Base.Run.{Result, ok, err}
use order_book_vibranium.Config.{
  Environment, Config, ConfigError, missing_database_url, missing_redis_url, millisecond,
  get_env_default, get_env_int64_default, get_env_duration_millis_default, get_env_float64_default,
  read_config, check_urls, load,
}

is_empty-nil : (s : Bytes) → is_empty s ≡ true → s ≡ []
is_empty-nil [] e = refl
is_empty-nil (c ∷ s) e = absurd (cc e)

module _ (env : Environment) where
  -- A text setting: what is set, or the default.
  pub record ReadsText (key default value : Bytes) : Type 0 where
    pub unset : env key ≡ [] → value ≡ default
    pub given : env key ≢ [] → value ≡ env key

  -- A number: the default where it is not set or is not read as an int64, and every int64 that is
  -- written in decimal.
  pub record ReadsInt (key : Bytes) (default value : Int64) : Type 0 where
    pub unset : env key ≡ [] → value ≡ default
    pub given : (n : Int64) → IsInt64 n → env key ≡ show_int n → value ≡ n
    pub refused : parse_int (env key) ≡ none → value ≡ default

  -- A duration in nanoseconds: the default where the milliseconds are not set or not read, and for
  -- every int64 that is written in decimal its product with a million, which wraps.
  pub record ReadsMillis (key : Bytes) (default : ℕ) (value : Int64) : Type 0 where
    pub unset : env key ≡ [] → value ≡ pos (default * 1000000)
    pub given :
        (n : ℕ) → n * 1000000 < half_range → env key ≡ show_int (pos n) → value ≡ pos (n * 1000000)
    pub wrapped : (n : Int64) → IsInt64 n → env key ≡ show_int n → value ≡ Int64.mul n (pos 1000000)
    pub refused : parse_int (env key) ≡ none → value ≡ pos (default * 1000000)

  get_env_default-ReadsText :
      (key default : Bytes) → ReadsText key default (get_env_default env key default)
  unfolding get_env_default
  get_env_default-ReadsText key default = record {
    unset = λ e. rw e refl;
    given = λ ne. elim (Bool-cases (is_empty (env key))) [
      | inl e ↦ absurd (ne (is_empty-nil (env key) e))
      | inr e ↦ rw e refl
    ];
  }

  pub shown_value :
      (key : Bytes) (default n : Int64)
      → IsInt64 n
      → env key ≡ show_int n
      → get_env_int64_default env key default ≡ n
  unfolding get_env_int64_default
  shown_value key default n r e = rw (e, show_int-filled n r, parse_int-show_int n r) refl

  unread_value :
      (key : Bytes) (default : Int64)
      → parse_int (env key) ≡ none
      → get_env_int64_default env key default ≡ default
  unfolding get_env_int64_default
  unread_value key default e = elim (Bool-cases (is_empty (env key))) [
    | inl k ↦ rw k refl
    | inr k ↦ rw (k, e) refl
  ]

  get_env_int64_default-ReadsInt :
      (key : Bytes) (default : Int64) → ReadsInt key default (get_env_int64_default env key default)
  unfolding get_env_int64_default
  get_env_int64_default-ReadsInt key default = record {
    unset = λ e. rw e refl;
    given = λ n r e. shown_value key default n r e;
    refused = λ e. unread_value key default e;
  }

  millis_value :
      (key : Bytes) (default : Int64) (n : ℕ)
      → n * 1000000 < half_range
      → get_env_int64_default env key default ≡ pos n
      → get_env_duration_millis_default env key default ≡ pos (n * 1000000)
  unfolding get_env_duration_millis_default
  millis_value key default n lt e = rw e (Int64.mul_nat (pos n) millisecond refl refl lt)

  get_env_duration-ReadsMillis :
      (key : Bytes) (default : ℕ)
      → default * 1000000 < half_range
      → ReadsMillis key default (get_env_duration_millis_default env key (pos default))
  unfolding get_env_duration_millis_default
  get_env_duration-ReadsMillis key default small = record {
    unset = λ e.
        millis_value key (pos default) default small
          ((get_env_int64_default-ReadsInt key (pos default)).unset e);
    given = λ n lt e.
        millis_value key (pos default) n lt
          ((get_env_int64_default-ReadsInt key (pos default)).given (pos n) (omega (arith, lt)) e);
    wrapped = λ n r e. rw (shown_value key (pos default) n r e) refl;
    refused = λ e. millis_value key (pos default) default small (unread_value key (pos default) e);
  }

  -- A floating-point number: the default where it is not set or ParseFloat refuses it.
  pub record ReadsFloat {Float : Type 0} (parse_float : Bytes → Option Float) (key : Bytes)
      (default value : Float) : Type 0 where
    pub unset : env key ≡ [] → value ≡ default
    pub given : (f : Float) → env key ≢ [] → parse_float (env key) ≡ some f → value ≡ f
    pub refused : parse_float (env key) ≡ none → value ≡ default

  get_env_float64_default-ReadsFloat :
      {Float : Type 0} (parse_float : Bytes → Option Float) (one : Float) (key : Bytes)
      (default : Float)
      → ReadsFloat parse_float key default (get_env_float64_default parse_float one env key default)
  unfolding get_env_float64_default
  get_env_float64_default-ReadsFloat parse_float one key default = record {
    unset = λ e. rw e refl;
    given = λ f ne e. elim (Bool-cases (is_empty (env key))) [
      | inl k ↦ absurd (ne (is_empty-nil (env key) k))
      | inr k ↦ rw (k, e) refl
    ];
    refused =
        λ e. elim (Bool-cases (is_empty (env key))) [ inl k ↦ rw k refl | inr k ↦ rw (k, e) refl ];
  }

  module _ {Float : Type 0} (parse_float : Bytes → Option Float) (one : Float) where
    -- The settings that Load reads.
    pub record Reads (cfg : Config Float) : Type 0 where
      pub database_url : cfg.database_url ≡ env (bytes "DATABASE_URL")
      pub redis_url : cfg.redis_url ≡ env (bytes "REDIS_URL")
      pub app_port : ReadsText (bytes "APP_PORT") (bytes "8080") cfg.app_port
      pub orders_stream_name :
          ReadsText (bytes "ORDERS_STREAM_NAME") (bytes "orders:incoming") cfg.orders_stream_name
      pub consumer_group_name :
          ReadsText (bytes "CONSUMER_GROUP_NAME") (bytes "matcher-group") cfg.consumer_group_name
      pub matcher_batch_size :
          ReadsInt (bytes "MATCHER_BATCH_SIZE") (pos 200) cfg.matcher_batch_size
      pub matcher_batch_timeout :
          ReadsMillis (bytes "MATCHER_BATCH_TIMEOUT_MS") 50 cfg.matcher_batch_timeout
      pub outbox_batch_size : ReadsInt (bytes "OUTBOX_BATCH_SIZE") (pos 200) cfg.outbox_batch_size
      pub outbox_poll_interval :
          ReadsMillis (bytes "OUTBOX_POLL_INTERVAL_MS") 100 cfg.outbox_poll_interval
      pub log_level : ReadsText (bytes "LOG_LEVEL") (bytes "info") cfg.log_level
      pub trades_stream_name :
          ReadsText (bytes "TRADES_STREAM_NAME") (bytes "trades:executed") cfg.trades_stream_name
      pub otel_exporter_endpoint :
          ReadsText
            (bytes "OTEL_EXPORTER_OTLP_ENDPOINT")
            (bytes "http://localhost:4318")
            cfg.otel_exporter_endpoint
      pub otel_traces_sample_ratio :
          ReadsFloat parse_float (bytes "OTEL_TRACES_SAMPLER_ARG") one cfg.otel_traces_sample_ratio

    -- How Load ends.
    abbrev pub Loads : Result ConfigError (Config Float) → Type 0
    Loads (err missing_database_url) = env (bytes "DATABASE_URL") ≡ []
    Loads (err missing_redis_url) =
        (env (bytes "DATABASE_URL") ≢ []) × (env (bytes "REDIS_URL") ≡ [])
    Loads (ok cfg) = (env (bytes "DATABASE_URL") ≢ []) × (env (bytes "REDIS_URL") ≢ []) × Reads cfg

filled : (s : Bytes) → is_empty s ≡ false → s ≢ []
filled s e z = absurd (let t : true ≡ false = rw z at e in cc t)

check_urls-Loads :
    (env : Environment) {Float : Type 0} (parse_float : Bytes → Option Float) (one : Float)
    (cfg : Config Float)
    → Reads env parse_float one cfg
    → Loads env parse_float one (check_urls cfg)
unfolding check_urls
check_urls-Loads env parse_float one cfg r = elim (Bool-cases (is_empty cfg.database_url)) [
  | inl e ↦ rw e (sym r.database_url ∙ is_empty-nil cfg.database_url e)
  | inr e ↦
      let given =
        λ (z : env (bytes "DATABASE_URL") ≡ []). filled cfg.database_url e (r.database_url ∙ z) in
      elim (Bool-cases (is_empty cfg.redis_url)) [
        | inl k ↦ rw (e, k) (given, sym r.redis_url ∙ is_empty-nil cfg.redis_url k)
        | inr k ↦ rw (e, k) (given, λ z. filled cfg.redis_url k (r.redis_url ∙ z), r)
      ]
]

module _ {Float : Type 0} (parse_float : Bytes → Option Float) (one : Float)
    (env : Environment) where
  read_config-Reads : Reads env parse_float one (read_config parse_float one env)
  unfolding read_config
  read_config-Reads = record {
    database_url = refl;
    redis_url = refl;
    app_port = get_env_default-ReadsText env (bytes "APP_PORT") (bytes "8080");
    orders_stream_name =
        get_env_default-ReadsText env (bytes "ORDERS_STREAM_NAME") (bytes "orders:incoming");
    consumer_group_name =
        get_env_default-ReadsText env (bytes "CONSUMER_GROUP_NAME") (bytes "matcher-group");
    matcher_batch_size = get_env_int64_default-ReadsInt env (bytes "MATCHER_BATCH_SIZE") (pos 200);
    matcher_batch_timeout =
        get_env_duration-ReadsMillis env (bytes "MATCHER_BATCH_TIMEOUT_MS") 50 (omega arith);
    outbox_batch_size = get_env_int64_default-ReadsInt env (bytes "OUTBOX_BATCH_SIZE") (pos 200);
    outbox_poll_interval =
        get_env_duration-ReadsMillis env (bytes "OUTBOX_POLL_INTERVAL_MS") 100 (omega arith);
    log_level = get_env_default-ReadsText env (bytes "LOG_LEVEL") (bytes "info");
    trades_stream_name =
        get_env_default-ReadsText env (bytes "TRADES_STREAM_NAME") (bytes "trades:executed");
    otel_exporter_endpoint =
        get_env_default-ReadsText env (bytes "OTEL_EXPORTER_OTLP_ENDPOINT")
          (bytes "http://localhost:4318");
    otel_traces_sample_ratio =
        get_env_float64_default-ReadsFloat env parse_float one (bytes "OTEL_TRACES_SAMPLER_ARG")
          one;
  }

  -- For every environment, Load is refused exactly without a DATABASE_URL, or with one and without a
  -- REDIS_URL; otherwise it succeeds, with the URLs and, for every other setting, its default where
  -- it is not set; a text that is set is taken as it is; an int64 that is written in decimal is
  -- taken, and multiplied by a million, which wraps, for milliseconds; a ratio is what ParseFloat
  -- reads; and a number that is not read gives the default.
  pub load-Loads : Loads env parse_float one (load parse_float one env)
  unfolding load
  load-Loads =
      check_urls-Loads env parse_float one (read_config parse_float one env) read_config-Reads
