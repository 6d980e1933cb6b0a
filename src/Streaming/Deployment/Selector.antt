-- ===== src/Streaming/Deployment/Selector.antt =====
-- The pods of an instance in stream mode are found by its Deployment and by its Services
-- (internal/controller/pipelineinstance_controller_streaming.go).
use openfilter_pipelines_con.Base.{
  ℕ, ◌≡◌, refl, false, Option, some, String, str_eq, eq_iff, lookup, Bool-cases, inl, inr,
}
use openfilter_pipelines_con.Api.{PipelineInstance, PipelineSource}
use openfilter_pipelines_con.Pipeline.{Pipeline, ServicePort}
use openfilter_pipelines_con.Reconciler.{Reconciler}
use openfilter_pipelines_con.Build.Labels.{propagated_labels, merge_labels_from_cr}
use openfilter_pipelines_con.Build.Labels.Whitelist.{is_listed, lookup-merge_labels_from_cr}
use openfilter_pipelines_con.Streaming.Deployment.{
  stream_selector_labels, build_streaming_deployment,
}
use openfilter_pipelines_con.Streaming.Services.{desired_service}

selected-listed :
    (pi : PipelineInstance) (key value : String)
    → lookup key (stream_selector_labels pi) ≡ some value
    → is_listed key propagated_labels ≡ false
unfolding lookup
selected-listed pi key value h = elim (Bool-cases (str_eq "app" key)) [
  | inl app ↦ rw (← (eq_iff "app" key).0 app) refl
  | inr other ↦ elim (Bool-cases (str_eq "pipelineinstance" key)) [
    | inl inst ↦ rw (← (eq_iff "pipelineinstance" key).0 inst) refl
    | inr unknown ↦ let bad = rw (other, unknown) at h in cc bad
  ]
]

merged-selected :
    (pi : PipelineInstance) (key value : String)
    → lookup key (stream_selector_labels pi) ≡ some value
    → lookup key (merge_labels_from_cr (stream_selector_labels pi) pi) ≡ some value
merged-selected pi key value h =
    rw
      (
        lookup-merge_labels_from_cr (stream_selector_labels pi) pi key,
        selected-listed pi key value h,
      )
      h

-- Every label that the selector of the Deployment asks for, or that of a Service of the instance,
-- stands with the same value on the pods that the Deployment makes, whatever labels the instance has.
pub selectors-match :
    {W : Type 0} (r : Reconciler W) (pi : PipelineInstance) (p : Pipeline)
    (source : Option PipelineSource) (name filter : String) (index : ℕ) (port : ServicePort)
    (key value : String)
    → let spec = (build_streaming_deployment r pi p source name).spec in
      (lookup key spec.selector ≡ some value → lookup key spec.pod_labels ≡ some value)
      × (lookup key (desired_service pi filter index port).spec.selector ≡ some value
          → lookup key spec.pod_labels ≡ some value)
unfolding build_streaming_deployment desired_service
selectors-match r pi p source name filter index port key value =
    (merged-selected pi key value, merged-selected pi key value)
