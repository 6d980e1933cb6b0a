-- ===== src/Tracing.antt =====
-- internal/tracing: the closed vocabularies and the attribute keys of the spans (attrs.go) and the
-- address of the exporter (tracing.go); and what the reconciler takes from an instance's annotations
-- (internal/controller/pipelineinstance_controller.go). The exporter itself is OpenTelemetry's.
pub mod Endpoint
pub mod Context
pub mod Baggage
use openfilter_pipelines_con.Base.{
  ℕ, ℤ, pos, ltb, Bool, true, false, ◌||◌, Option, none, some, List, [], ◌∷◌, String, str_eq, Dict,
  lookup, insert, or_else, if◌then◌else◌,
}
use openfilter_pipelines_con.Go.{Result, ok, err}
use openfilter_pipelines_con.Api.{PipelineInstance}
use openfilter_pipelines_con.Pipeline.{PipelineMode, batch, stream, unset}
use openfilter_pipelines_con.Reconciler.Outcome.{CtrlResult}
use openfilter_pipelines_con.Build.Env.{annotation}

pub data ReconcileOutcome : Type 0 where
  complete requeue error : ReconcileOutcome

pub data ApplyResult : Type 0 where
  created updated : ApplyResult

pub data Value : Type 0 where
  text : String → Value
  bool : Bool → Value
  int : ℤ → Value

-- `attribute.KeyValue`
abbrev pub KeyValue : Type 0
KeyValue = String × Value

unfoldable pub outcome_text : ReconcileOutcome → String
outcome_text complete = "complete"
outcome_text requeue = "requeue"
outcome_text error = "error"

unfoldable pub apply_text : ApplyResult → String
apply_text created = "created"
apply_text updated = "updated"

unfoldable pub mode_text : PipelineMode → String
mode_text batch = "batch"
mode_text stream = "stream"
mode_text unset = ""

unfoldable pub pipeline_instance_uid : PipelineInstance → KeyValue
pipeline_instance_uid pi = ("pipeline_instance.uid", text pi.uid)

unfoldable pub pipeline_instance_name : PipelineInstance → KeyValue
pipeline_instance_name pi = ("pipeline_instance.name", text pi.name)

unfoldable pub pipeline_instance_namespace : PipelineInstance → KeyValue
pipeline_instance_namespace pi = ("pipeline_instance.namespace", text pi.namespace)

unfoldable pub pipeline_mode : PipelineMode → KeyValue
pipeline_mode mode = ("pipeline.mode", text (mode_text mode))

unfoldable pub reconcile_outcome_attr : ReconcileOutcome → KeyValue
reconcile_outcome_attr outcome = ("reconcile.outcome", text (outcome_text outcome))

unfoldable pub claim_acquired : Bool → KeyValue
claim_acquired acquired = ("claim.acquired", bool acquired)

unfoldable pub build_container_count : ℤ → KeyValue
build_container_count n = ("build.container.count", int n)

unfoldable pub build_gpu : Bool → KeyValue
build_gpu gpu = ("build.gpu", bool gpu)

unfoldable pub build_replicas : ℤ → KeyValue
build_replicas n = ("build.replicas", int n)

unfoldable pub build_parallelism : ℤ → KeyValue
build_parallelism n = ("build.parallelism", int n)

unfoldable pub apply_result_attr : ApplyResult → KeyValue
apply_result_attr result = ("apply.result", text (apply_text result))

-- An error counts before a request to come back.
unfoldable pub reconcile_outcome : Result CtrlResult → ReconcileOutcome
reconcile_outcome (err e) = error
reconcile_outcome (ok result) =
    if result.requeue || ltb 0 result.requeue_after then requeue else complete

abbrev pub set_unless_empty : String → String → Dict String → Dict String
set_unless_empty key value carrier = if str_eq value "" then carrier else insert key value carrier

-- The carrier that `extractTraceContext` hands to the propagator, if it is not empty: no `tracestate`
-- without a `traceparent`, and `baggage` with or without them.
unfoldable pub trace_carrier : PipelineInstance → Dict String
trace_carrier pi =
    let parent = annotation pi "traces.opentelemetry.io/traceparent" in
    set_unless_empty "baggage" (annotation pi "traces.opentelemetry.io/baggage") (
      if str_eq parent ""
      then []
      else set_unless_empty "tracestate" (annotation pi "traces.opentelemetry.io/tracestate")
          (insert "traceparent" parent []))

-- `baggageSpanAllowlist`
abbrev pub baggage_span_allowlist : List String
baggage_span_allowlist = "organization.id" ∷ "project.id" ∷ "user.id" ∷ []

abbrev pub is_allowed : List String → String → Bool
is_allowed [] key = false
is_allowed (k ∷ keys) key = str_eq k key || is_allowed keys key

-- The attributes that `stampBaggageOnSpan` sets, from the members of the baggage.
unfoldable pub stamp_baggage : List (String × String) → List KeyValue
stamp_baggage [] = []
stamp_baggage ((key, value) ∷ members) =
    let rest = stamp_baggage members in
    if is_allowed baggage_span_allowlist key then (key, text value) ∷ rest else rest
