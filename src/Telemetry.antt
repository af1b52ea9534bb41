-- ===== src/Telemetry.antt =====
-- internal/platform/telemetry/telemetry.go: where traces are exported to, and how a trace context
-- crosses the stream.
--
-- The exporter, the resource and the W3C propagator are third-party code: `exporter_opens` and
-- `resource_merges` say whether their constructors succeed, `propagate` is Extract of the global
-- propagator on the two fields of a carrier, and `current` what Inject writes of a context.
pub mod Endpoints
use order_book_vibranium.Base.{Bool, true, false, Option, none, some, if◌then◌else◌}
use order_book_vibranium.Base.Bytes.{Bytes, bytes, is_empty, cut_prefix}
use order_book_vibranium.Base.Run.{Result, ok, err}

pub record Config (Float : Type 0) : Type 0 where
  pub exporter_endpoint : Bytes
  pub sample_ratio : Float

-- splitEndpoint: the host, and whether the connection is unencrypted.
unfoldable pub split_endpoint : Bytes → Bytes × Bool
split_endpoint endpoint = elim (cut_prefix (bytes "https://") endpoint) [
  | some rest ↦ (rest, false)
  | none ↦ elim (cut_prefix (bytes "http://") endpoint) [
    | some rest ↦ (rest, true)
    | none ↦ (endpoint, true)
  ]
]

-- The options of the exporter and of the tracer provider.
pub record Provider (Float : Type 0) : Type 0 where
  pub host : Bytes
  pub insecure : Bool
  pub ratio : Float
  pub service_name : Bytes

pub data TelemetryError : Type 0 where
  build_exporter build_resource : TelemetryError

module _ {Float : Type 0} (at_most_zero : Float → Bool) (one : Float) where
  -- InitTracerProvider
  unfoldable pub init_tracer_provider :
      Bool → Bool → Config Float → Bytes → Result TelemetryError (Provider Float)
  unfolding split_endpoint
  init_tracer_provider exporter_opens resource_merges cfg service_name =
      let (endpoint, is_insecure) = split_endpoint cfg.exporter_endpoint in
      if exporter_opens
      then (if resource_merges
          then ok (record {
            host = endpoint;
            insecure = is_insecure;
            ratio = if at_most_zero cfg.sample_ratio then one else cfg.sample_ratio;
            service_name = service_name;
          })
          else err build_resource)
      else err build_exporter

module _ {Context : Type 0} (current : Context → Bytes × Bytes)
    (propagate : Bytes → Option Bytes → Context → Context) where
  -- Inject
  unfoldable pub inject : Context → Bytes × Bytes
  inject ctx = current ctx

  -- Extract
  unfoldable pub extract : Context → Bytes → Bytes → Context
  extract ctx traceparent tracestate =
      if is_empty traceparent
      then ctx
      else propagate traceparent (if is_empty tracestate then none else some tracestate) ctx
