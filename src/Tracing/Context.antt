-- ===== src/Tracing/Context.antt =====
-- The span of the controller and the filters of an instance continue the same trace
-- (`extractTraceContext` and `tracingEnvVars`, internal/controller/pipelineinstance_controller.go).
use openfilter_pipelines_con.Base.{
  ◌≡◌, refl, ◌∙◌, inl, inr, false, Option, none, some, List, [], ◌∷◌, String, str_eq, lookup,
  insert, lookup-insert, arith, Bool-cases, if◌then◌else◌, Dict,
}
use openfilter_pipelines_con.Api.{PipelineInstance}
use openfilter_pipelines_con.Kube.{EnvVar, EnvValue, plain}
use openfilter_pipelines_con.Reconciler.{Reconciler}
use openfilter_pipelines_con.Build.Env.{
  annotation, tracing_env_vars, trace_vars, exporter_vars, env, env_unless_empty,
}
use openfilter_pipelines_con.Build.Env.Effective.{effective, effective-append}
use openfilter_pipelines_con.Tracing.{set_unless_empty, trace_carrier}

-- A value of the carrier, as a variable has it.
abbrev pub as_value : Option String → Option EnvValue
as_value none = none
as_value (some s) = some (plain s)

lookup-set_unless_empty :
    (key value j : String) (carrier : Dict String)
    → str_eq key j ≡ false
    → lookup j (set_unless_empty key value carrier) ≡ lookup j carrier
lookup-set_unless_empty key value j carrier apart =
    ground (arith, lookup-insert key j value carrier)

exporter-apart :
    {W : Type 0} (r : Reconciler W) (name : String)
    → str_eq "TELEMETRY_EXPORTER_ENABLED" name ≡ false
    → str_eq "TELEMETRY_EXPORTER_TYPE" name ≡ false
    → str_eq "TELEMETRY_EXPORTER_OTLP_ENDPOINT" name ≡ false
    → effective name (exporter_vars r) ≡ none
unfolding exporter_vars
exporter-apart r name a b c = ground arith

-- The variables and the carrier, as functions of the three annotations.
vars : String → String → List EnvVar
vars parent state =
    if str_eq parent "" then [] else env "TRACEPARENT" parent ∷ env_unless_empty "TRACESTATE" state

carrier : String → String → String → Dict String
carrier parent state baggage = set_unless_empty "baggage" baggage (
    if str_eq parent ""
    then []
    else set_unless_empty "tracestate" state (insert "traceparent" parent []))

abbrev Agree : Option EnvValue → Option EnvValue → Dict String → Type 0
Agree parent state dict =
    (parent ≡ as_value (lookup "traceparent" dict))
    × (state ≡ as_value (lookup "tracestate" dict))
    × (lookup "traceparent" dict ≡ none → lookup "tracestate" dict ≡ none)

vars-Agree :
    (parent state baggage : String)
    → Agree
        (effective "TRACEPARENT" (vars parent state))
        (effective "TRACESTATE" (vars parent state))
        (carrier parent state baggage)
unfolding vars carrier lookup insert
vars-Agree parent state baggage = elim (Bool-cases (str_eq parent "")) [
  | inl p ↦ elim (Bool-cases (str_eq baggage "")) [
    | inl b ↦ rw (p, b) (refl, refl, λ h. refl)
    | inr b ↦ rw (p, b) (refl, refl, λ h. refl)
  ]
  | inr p ↦ elim (Bool-cases (str_eq state "")) [
    | inl s ↦ elim (Bool-cases (str_eq baggage "")) [
      | inl b ↦ rw (p, s, b) (refl, refl, λ h. refl)
      | inr b ↦ rw (p, s, b) (refl, refl, λ h. refl)
    ]
    | inr s ↦ elim (Bool-cases (str_eq baggage "")) [
      | inl b ↦ rw (p, s, b) (refl, refl, λ h. cc h)
      | inr b ↦ rw (p, s, b) (refl, refl, λ h. cc h)
    ]
  ]
]

effective-tracing_env_vars :
    {W : Type 0} (r : Reconciler W) (pi : PipelineInstance) (name : String)
    → str_eq "PIPELINE_INSTANCE_UID" name ≡ false
    → effective name (exporter_vars r) ≡ none
    → effective name (tracing_env_vars r pi)
      ≡ effective name (
          vars
            (annotation pi "traces.opentelemetry.io/traceparent")
            (annotation pi "traces.opentelemetry.io/tracestate"))
unfolding tracing_env_vars trace_vars vars
effective-tracing_env_vars r pi name apart nothing =
    ground (arith, effective-append name (trace_vars r pi) (exporter_vars r))

-- The filters get the parent span exactly if the controller's own span has it, with the same value, and
-- so with the vendor state, which is there only with a parent.
pub trace_carrier-tracing_env_vars :
    {W : Type 0} (r : Reconciler W) (pi : PipelineInstance)
    → let carried = λ (key : String). lookup key (trace_carrier pi) in
      let seen = λ (name : String). effective name (tracing_env_vars r pi) in
      (seen "TRACEPARENT" ≡ as_value (carried "traceparent"))
      × (seen "TRACESTATE" ≡ as_value (carried "tracestate"))
      × (carried "traceparent" ≡ none → carried "tracestate" ≡ none)
unfolding trace_carrier carrier
trace_carrier-tracing_env_vars r pi =
    let (parent, state, only) =
      vars-Agree (annotation pi "traces.opentelemetry.io/traceparent")
        (annotation pi "traces.opentelemetry.io/tracestate")
        (annotation pi "traces.opentelemetry.io/baggage") in
    (
      effective-tracing_env_vars r pi "TRACEPARENT" refl
            (exporter-apart r "TRACEPARENT" refl refl refl)
          ∙ parent,
      effective-tracing_env_vars r pi "TRACESTATE" refl
            (exporter-apart r "TRACESTATE" refl refl refl)
          ∙ state,
      only,
    )
