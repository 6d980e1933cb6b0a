-- ===== src/Reconcile.antt =====
-- `Reconcile` (internal/controller/pipelineinstance_controller.go): the entry point for one instance,
-- which handles the finalizers, fetches what the instance refers to and branches by mode. `fuel`
-- bounds the loop of the batch mode's flush; none if it runs out. Spans and logs are left out.
pub mod Finalizers
use openfilter_pipelines_con.Base.{
  ℕ, ℤ, Option, none, some, String, Dict, or_else, is_some, if◌then◌else◌,
}
use openfilter_pipelines_con.Go.{Op, Result, ok, err, Error, error_text, is_not_found, wrapping}
use openfilter_pipelines_con.Api.{PipelineInstance, PipelineSource, ObjectReference, is_true}
use openfilter_pipelines_con.Pipeline.{Pipeline, PipelineMode, batch, stream, unset}
use openfilter_pipelines_con.Queue.{ValkeyClientInterface}
use openfilter_pipelines_con.Reconciler.{Reconciler, with_finalizers}
use openfilter_pipelines_con.Reconciler.Cleanup.{cleanup_namespace_valkey_credentials}
use openfilter_pipelines_con.Reconciler.Outcome.{
  CtrlResult, done, again, Outcome, set_condition_of, updated,
}
use openfilter_pipelines_con.Streaming.Services.{Groups}
use openfilter_pipelines_con.Streaming.Reconcile.{reconcile_streaming}
use openfilter_pipelines_con.Batch.Reconcile.{reconcile_batch}

abbrev pub credentials_finalizer : String
credentials_finalizer = "filter.plainsight.ai/valkey-credentials"

-- The answer and the world; the instance in memory is dropped.
abbrev pub Final : Type 0 → Type 0
Final W = Result CtrlResult × W

abbrev pub final : {W : Type 0} → Outcome W → Final W
final (answer, pi, w) = (answer, w)

abbrev pub option_final : {W : Type 0} → Option (Outcome W) → Option (Final W)
option_final none = none
option_final (some out) = some (final out)

-- A reference without a namespace is into the instance's own.
abbrev pub namespace_of : PipelineInstance → ObjectReference → String
namespace_of pi ref = or_else ref.namespace pi.namespace

module _ {W : Type 0} (r : Reconciler W) (q : ValkeyClientInterface W) (format : ℤ → String)
    (order : Groups → Groups) (fuel : ℕ) (counters : Dict ℤ → Dict ℤ) where
  unfoldable pub get_pipeline_source : PipelineInstance → Op W PipelineSource
  get_pipeline_source pi w =
      let ref = pi.spec.source_ref in
      wrapping "failed to get pipeline source"
        (r.kube.get_pipeline_source ref.name (namespace_of pi ref)) w

  unfoldable pub get_pipeline : PipelineInstance → Op W Pipeline
  get_pipeline pi w =
      let ref = pi.spec.pipeline_ref in
      wrapping "failed to get pipeline" (r.get_pipeline ref.name (namespace_of pi ref)) w

  unfoldable pub release : PipelineInstance → W → Final W
  release pi w =
      let cleaned = cleanup_namespace_valkey_credentials r q pi w in
      elim cleaned.0 [
        | err e ↦ (err e, cleaned.1)
        | ok _ ↦ final (
            updated r again
              (with_finalizers pi (r.remove_finalizer credentials_finalizer pi.finalizers))
              cleaned.1)
      ]

  -- The credentials of the namespace first, then what the mode has left.
  unfoldable pub delete_instance : PipelineInstance → W → Final W
  unfolding release
  delete_instance pi w =
      if r.contains_finalizer credentials_finalizer pi.finalizers
      then release pi w
      else final (reconcile_streaming r format order pi none none w)

  -- An error of the status update is only logged.
  unfoldable pub not_fetched : String → Error → PipelineInstance → W → Final W
  not_fetched reason e pi w =
      let (marked, w') = set_condition_of r "Degraded" is_true reason (error_text e) (pi, w) in
      (err e, (r.kube.update_status marked w').1)

  -- A pipeline without a mode is one in batch mode.
  unfoldable pub branch :
      PipelineMode → PipelineInstance → Pipeline → PipelineSource → W → Option (Final W)
  branch stream pi p source w =
      some (final (reconcile_streaming r format order pi (some p) (some source) w))
  branch batch pi p source w = option_final (reconcile_batch r q fuel counters pi p source w)
  branch unset pi p source w = option_final (reconcile_batch r q fuel counters pi p source w)

  unfoldable pub fetch : PipelineInstance → W → Option (Final W)
  unfolding get_pipeline get_pipeline_source not_fetched branch
  fetch pi w =
      let p = get_pipeline pi w in
      elim p.0 [
        | err e ↦ some (not_fetched "PipelineNotFound" e pi p.1)
        | ok pipeline ↦
            let source = get_pipeline_source pi p.1 in
            elim source.0 [
              | err e ↦ some (not_fetched "PipelineSourceNotFound" e pi source.1)
              | ok s ↦ branch pipeline.mode pi pipeline s source.1
            ]
      ]

  unfoldable pub keep_instance : PipelineInstance → W → Option (Final W)
  unfolding fetch
  keep_instance pi w =
      if r.contains_finalizer credentials_finalizer pi.finalizers
      then fetch pi w
      else some (
          final (
            updated r again
              (with_finalizers pi (r.add_finalizer credentials_finalizer pi.finalizers)) w))

  unfoldable pub handle : PipelineInstance → W → Option (Final W)
  unfolding delete_instance keep_instance
  handle pi w =
      if is_some pi.deletion_timestamp then some (delete_instance pi w) else keep_instance pi w

  -- An instance that is gone needs nothing.
  unfoldable pub reconcile : String → String → W → Option (Final W)
  unfolding handle
  reconcile name namespace w =
      let got = r.kube.get_instance name namespace w in
      elim got.0 [
        | ok pi ↦ handle pi got.1
        | err e ↦ some (if is_not_found e then (ok done, got.1) else (err e, got.1))
      ]
