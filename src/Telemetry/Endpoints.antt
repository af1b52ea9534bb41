-- ===== src/Telemetry/Endpoints.antt =====
-- internal/platform/telemetry/telemetry.go: the endpoint that the exporter is given.
use order_book_vibranium.Base.{
  ◌≡◌, ◌≢◌, refl, sym, ap, ◌∙◌, ◌⊎◌, inl, inr, Bool, true, false, none, some, [], ◌∷◌, ◌++◌, ◌==◌,
  Bool-cases, Option-cases, ==_iff,
}
use order_book_vibranium.Base.Bytes.{Bytes, bytes, cut_prefix}
use order_book_vibranium.Base.Run.{Result, ok, err}
use order_book_vibranium.Telemetry.{
  Config, Provider, TelemetryError, build_exporter, build_resource, split_endpoint,
  init_tracer_provider,
}

-- CutPrefix gives what follows the prefix, and none where the text does not start with it.
cut_prefix-append : (p s : Bytes) → cut_prefix p (p ++ s) ≡ some s
cut_prefix-append [] s = refl
cut_prefix-append (c ∷ p) s = rw ((==_iff c c).1 refl) (cut_prefix-append p s)

cut_prefix-some : (p s rest : Bytes) → cut_prefix p s ≡ some rest → s ≡ p ++ rest
cut_prefix-some [] s rest e = cc e
cut_prefix-some (c ∷ p) [] rest e = absurd (cc e)
cut_prefix-some (c ∷ p) (d ∷ s) rest e = elim (Bool-cases (c == d)) [
  | inl k ↦
      let same : c ≡ d = (==_iff c d).0 k in
      let more : s ≡ p ++ rest = cut_prefix-some p s rest (rw k at e) in cc (same, more)
  | inr k ↦ absurd (let z : none ≡ some rest = rw k at e in cc z)
]

-- The text does not start with the prefix.
abbrev pub Lacks : Bytes → Bytes → Type 0
Lacks p s = (rest : Bytes) → s ≢ p ++ rest

cut_prefix-Lacks : (p s : Bytes) → cut_prefix p s ≡ none → Lacks p s
cut_prefix-Lacks p s e rest same =
    let z : none ≡ some rest = sym e ∙ ap (cut_prefix p) same ∙ cut_prefix-append p rest in
    absurd (cc z)

-- The host and the encryption that an endpoint asks for.
abbrev pub Splits : Bytes → Bytes × Bool → Type 0
Splits endpoint (host, insecure) =
    (endpoint ≡ bytes "https://" ++ host) × (insecure ≡ false)
    ⊎ (endpoint ≡ bytes "http://" ++ host) × (insecure ≡ true)
    ⊎ Lacks (bytes "https://") endpoint
      × Lacks (bytes "http://") endpoint
      × (host ≡ endpoint)
      × (insecure ≡ true)

split_endpoint-Splits : (endpoint : Bytes) → Splits endpoint (split_endpoint endpoint)
unfolding split_endpoint
split_endpoint-Splits endpoint = elim (Option-cases (cut_prefix (bytes "https://") endpoint)) [
  | inr (rest, e) ↦
      rw (e, split_endpoint) (inl (cut_prefix-some (bytes "https://") endpoint rest e, refl))
  | inl e ↦ elim (Option-cases (cut_prefix (bytes "http://") endpoint)) [
    | inr (rest, k) ↦
        rw (e, k, split_endpoint)
          (inr (inl (cut_prefix-some (bytes "http://") endpoint rest k, refl)))
    | inl k ↦
        rw (e, k, split_endpoint)
          (inr (
            inr (
              cut_prefix-Lacks (bytes "https://") endpoint e,
              cut_prefix-Lacks (bytes "http://") endpoint k,
              refl,
              refl,
            )))
  ]
]

-- How InitTracerProvider ends.
abbrev pub Starts :
    {Float : Type 0}
    → (Float → Bool)
    → Float
    → Bool
    → Bool
    → Config Float
    → Result TelemetryError (Provider Float)
    → Type 0
Starts at_most_zero one opens merges cfg (err build_exporter) = opens ≡ false
Starts at_most_zero one opens merges cfg (err build_resource) = (opens ≡ true) × (merges ≡ false)
Starts at_most_zero one opens merges cfg (ok p) =
    (opens ≡ true)
    × (merges ≡ true)
    × Splits cfg.exporter_endpoint (p.host, p.insecure)
    × ((at_most_zero cfg.sample_ratio ≡ true) × (p.ratio ≡ one)
        ⊎ (at_most_zero cfg.sample_ratio ≡ false) × (p.ratio ≡ cfg.sample_ratio))

-- InitTracerProvider fails exactly where the exporter or the resource cannot be built; otherwise it
-- exports to the host after the scheme of the endpoint, encrypted exactly for "https://", and takes
-- the configured ratio of samples if that is not zero or less, and 1.0 otherwise.
pub init_tracer_provider-Starts :
    {Float : Type 0} (at_most_zero : Float → Bool) (one : Float) (opens merges : Bool)
    (cfg : Config Float) (service_name : Bytes)
    → Starts at_most_zero one opens merges cfg
        (init_tracer_provider at_most_zero one opens merges cfg service_name)
unfolding init_tracer_provider
init_tracer_provider-Starts at_most_zero one false merges cfg service_name = refl
init_tracer_provider-Starts at_most_zero one true false cfg service_name = (refl, refl)
init_tracer_provider-Starts at_most_zero one true true cfg service_name =
    let splits = split_endpoint-Splits cfg.exporter_endpoint in
    elim (Bool-cases (at_most_zero cfg.sample_ratio)) [
      | inl e ↦ (refl, refl, splits, inl (e, rw e refl))
      | inr e ↦ (refl, refl, splits, inr (e, rw e refl))
    ]
