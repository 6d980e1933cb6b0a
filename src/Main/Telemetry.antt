-- ===== src/Main/Telemetry.antt =====
-- What `validateTelemetryFlags` (cmd/main.go) guarantees for the filters, whose variables
-- `tracingEnvVars` (internal/controller/pipelineinstance_controller.go) sets.
use openfilter_pipelines_con.Base.{
  ◌≡◌, ◌≢◌, refl, ◌∙◌, ◌⊎◌, inl, inr, true, false, none, some, String, str_eq, eq_iff, arith,
}
use openfilter_pipelines_con.Go.{is_ok}
use openfilter_pipelines_con.Api.{PipelineInstance}
use openfilter_pipelines_con.Kube.{plain}
use openfilter_pipelines_con.Reconciler.{Reconciler}
use openfilter_pipelines_con.Build.Env.{tracing_env_vars, trace_vars, exporter_vars}
use openfilter_pipelines_con.Build.Env.Effective.{effective, effective-append}
use openfilter_pipelines_con.Main.{validate_telemetry_flags}

-- The two flags are set together or not at all.
abbrev pub AreTogether : String → String → Type 0
AreTogether type endpoint = ((type ≡ "") × (endpoint ≡ "")) ⊎ ((type ≢ "") × (endpoint ≢ ""))

-- None of the exporter's variables, or all three, with values that are not empty.
abbrev pub HasExporter : {W : Type 0} → Reconciler W → PipelineInstance → Type 0
HasExporter r pi =
    let seen = λ (name : String). effective name (tracing_env_vars r pi) in
    ((seen "TELEMETRY_EXPORTER_ENABLED" ≡ none)
      × (seen "TELEMETRY_EXPORTER_TYPE" ≡ none)
      × (seen "TELEMETRY_EXPORTER_OTLP_ENDPOINT" ≡ none))
    ⊎ ((seen "TELEMETRY_EXPORTER_ENABLED" ≡ some (plain "true"))
        × (seen "TELEMETRY_EXPORTER_TYPE" ≡ some (plain r.telemetry_exporter_type))
        × (seen "TELEMETRY_EXPORTER_OTLP_ENDPOINT"
            ≡ some (plain r.telemetry_exporter_otlp_endpoint))
        × (r.telemetry_exporter_type ≢ "")
        × (r.telemetry_exporter_otlp_endpoint ≢ ""))

validate-AreTogether :
    (quote : String → String) (type endpoint : String)
    → is_ok (validate_telemetry_flags quote type endpoint) ≡ true
    → AreTogether type endpoint
unfolding validate_telemetry_flags
validate-AreTogether quote type endpoint h = ground (arith, eq_iff type "", eq_iff endpoint "")

trace_vars-apart :
    {W : Type 0} (r : Reconciler W) (pi : PipelineInstance) (name : String)
    → str_eq "TRACEPARENT" name ≡ false
    → str_eq "TRACESTATE" name ≡ false
    → effective name (trace_vars r pi) ≡ none
unfolding trace_vars
trace_vars-apart r pi name a b = ground arith

effective-exporter_vars :
    {W : Type 0} (r : Reconciler W) (pi : PipelineInstance) (name : String)
    → str_eq "PIPELINE_INSTANCE_UID" name ≡ false
    → effective name (trace_vars r pi) ≡ none
    → effective name (tracing_env_vars r pi) ≡ effective name (exporter_vars r)
unfolding tracing_env_vars
effective-exporter_vars r pi name apart nothing =
    ground (arith, effective-append name (trace_vars r pi) (exporter_vars r))

-- When the two flags of the telemetry exporter are accepted, the controller gives a filter either none
-- of the three variables of the exporter, or all of them, with a type and an endpoint that are not
-- empty.
pub validate_telemetry_flags-exports :
    {W : Type 0} (r : Reconciler W) (pi : PipelineInstance)
    → is_ok (
        validate_telemetry_flags r.quote r.telemetry_exporter_type
          r.telemetry_exporter_otlp_endpoint)
      ≡ true
    → HasExporter r pi
unfolding exporter_vars
validate_telemetry_flags-exports r pi h =
    let at =
      λ (name : String) (u : str_eq "PIPELINE_INSTANCE_UID" name ≡ false)
          (a : str_eq "TRACEPARENT" name ≡ false) (b : str_eq "TRACESTATE" name ≡ false).
        effective-exporter_vars r pi name u (trace_vars-apart r pi name a b) in
    let enabled = at "TELEMETRY_EXPORTER_ENABLED" refl refl refl in
    let type = at "TELEMETRY_EXPORTER_TYPE" refl refl refl in
    let endpoint = at "TELEMETRY_EXPORTER_OTLP_ENDPOINT" refl refl refl in
    elim (validate-AreTogether r.quote r.telemetry_exporter_type r.telemetry_exporter_otlp_endpoint
      h) [
        | inl (t, e) ↦
            let off : str_eq r.telemetry_exporter_type "" ≡ true =
              (eq_iff r.telemetry_exporter_type "").1 t in
            inl (enabled ∙ rw (off) refl, type ∙ rw (off) refl, endpoint ∙ rw (off) refl)
        | inr (t, e) ↦
            let on : str_eq r.telemetry_exporter_type "" ≡ false =
              ground (arith, eq_iff r.telemetry_exporter_type "") in
            inr (enabled ∙ rw (on) refl, type ∙ rw (on) refl, endpoint ∙ rw (on) refl, t, e)
      ]
