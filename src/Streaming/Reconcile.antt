-- ===== src/Streaming/Reconcile.antt =====
-- `reconcileStreaming` (internal/controller/pipelineinstance_controller_streaming.go): one pass over
-- an instance in stream mode, or over one that is being deleted. `format` is the `%v` of a duration and
-- `order` the order of Go's iteration over a map. Spans and logs are left out.
pub mod Deletion
pub mod Released
pub mod Progress
pub mod Pass
pub mod Again
pub mod Started
use openfilter_pipelines_con.Base.{
  ℕ, ℤ, pos, ltb_ℤ, Bool, true, false, not, ◌||◌, ◌&&◌, Option, none, some, List, [], ◌∷◌, ◌++◌,
  String, str_eq, or_else, is_some, if◌then◌else◌,
}
use openfilter_pipelines_con.Go.{Op, Result, ok, err, Error, error_text, message}
use openfilter_pipelines_con.Api.{PipelineInstance, PipelineSource, is_true, is_false}
use openfilter_pipelines_con.Pipeline.{Pipeline}
use openfilter_pipelines_con.Reconciler.{Reconciler, with_status, with_finalizers}
use openfilter_pipelines_con.Reconciler.Outcome.{
  CtrlResult, done, poll, again, Outcome, set_condition_of, stored_pair, updated,
}
use openfilter_pipelines_con.Streaming.Idle.{
  idle_timeout_of, update_streaming_status, check_idle_timeout,
}
use openfilter_pipelines_con.Streaming.Deployment.{
  Answer, no_streaming, init_streaming, ensure_streaming_deployment, delete_streaming_deployment,
}
use openfilter_pipelines_con.Streaming.Services.{
  Groups, ensure_filter_services, delete_filter_services,
}

abbrev pub streaming_finalizer : String
streaming_finalizer = "filter.plainsight.ai/streaming-cleanup"

module _ {W : Type 0} (r : Reconciler W) (format : ℤ → String) (order : Groups → Groups) where
  -- The Deployment and the Services first, then the finalizer.
  pub clean_up : PipelineInstance → W → Outcome W
  clean_up pi w =
      let gone = delete_streaming_deployment r pi w in
      elim gone.0 [
        | err e ↦ (err e, pi, gone.1)
        | ok _ ↦
            let left = delete_filter_services r pi gone.1 in
            elim left.0 [
              | err e ↦ (err e, pi, left.1)
              | ok _ ↦
                  updated r done
                    (with_finalizers pi (r.remove_finalizer streaming_finalizer pi.finalizers))
                    left.1
            ]
      ]

  pub delete_instance : PipelineInstance → W → Outcome W
  unfolding clean_up
  delete_instance pi w =
      if r.contains_finalizer streaming_finalizer pi.finalizers
      then clean_up pi w
      else (ok done, pi, w)

  -- `CompletionTime` is written in each pass that ends so.
  pub complete_now : PipelineInstance × W → PipelineInstance × W
  complete_now (pi, w) =
      let time = r.kube.now w in
      let s = pi.status in (with_status pi (record s { completion_time = some time.0 }), time.1)

  -- The errors of the two deletions are only logged.
  pub tear_down : PipelineInstance × W → PipelineInstance × W
  tear_down (pi, w) = (pi, (delete_filter_services r pi (delete_streaming_deployment r pi w).1).1)

  pub finish_idle : String → PipelineInstance → W → Outcome W
  unfolding complete_now tear_down
  finish_idle reason pi w = stored_pair r done (
      tear_down (
        complete_now (
          set_condition_of r "Progressing" is_false "IdleTimeout" reason
            (set_condition_of r "Succeeded" is_true "IdleTimeout" reason (pi, w)))))

  pub mark_running : PipelineInstance → W → Outcome W
  mark_running pi w =
      if ltb_ℤ (pos 0) (or_else pi.status.streaming no_streaming).ready_replicas
      then stored_pair r poll
          (set_condition_of r "Progressing" is_true "Running" "Stream is processing" (pi, w))
      else stored_pair r poll (
          set_condition_of r "Progressing" is_true "Starting" "Waiting for stream to become ready"
            (pi, w))

  pub decide : PipelineInstance → (Bool × String) × W → Outcome W
  unfolding finish_idle mark_running
  decide pi ((true, reason), w) = finish_idle reason pi w
  decide pi ((false, reason), w) = mark_running pi w

  -- Steps 3 and 4.
  pub check_idle : Option PipelineSource → PipelineInstance → W → Outcome W
  unfolding decide
  check_idle source pi w =
      if is_some (idle_timeout_of source)
      then decide pi (check_idle_timeout r.kube format pi source w)
      else mark_running pi w

  -- Step 2, whose error is only logged.
  pub observe : Option PipelineSource → PipelineInstance → W → Outcome W
  unfolding check_idle
  observe source pi w =
      let (answer, seen, w') = update_streaming_status r.kube format pi w in
      check_idle source seen w'

  -- An error of the update is only logged here.
  pub degraded_by : String → Error → PipelineInstance → W → Outcome W
  degraded_by reason e pi w =
      let (marked, w') = set_condition_of r "Degraded" is_true reason (error_text e) (pi, w) in
      (err e, marked, (r.kube.update_status marked w').1)

  pub with_services : Pipeline → Option PipelineSource → PipelineInstance → W → Outcome W
  unfolding observe degraded_by
  with_services p source pi w =
      let ensured = ensure_filter_services r order pi p w in
      elim ensured.0 [
        | err e ↦ degraded_by "ServiceCreationFailed" e pi ensured.1
        | ok _ ↦ observe source pi ensured.1
      ]

  pub with_deployment : Pipeline → Option PipelineSource → Answer W → Outcome W
  unfolding with_services
  with_deployment p source (err e, pi, w) = degraded_by "DeploymentCreationFailed" e pi w
  with_deployment p source (ok _, pi, w) = with_services p source pi w

  pub go_on : Pipeline → Option PipelineSource → PipelineInstance → W → Outcome W
  unfolding with_deployment
  go_on p source pi w =
      if r.contains_finalizer streaming_finalizer pi.finalizers
      then with_deployment p source (ensure_streaming_deployment r pi p source w)
      else updated r again (with_finalizers pi (r.add_finalizer streaming_finalizer pi.finalizers))
          w

  -- `StartTime` is set once.
  pub start : Option ℕ → PipelineInstance → W → Answer W
  start (some time) pi w = (ok tt, pi, w)
  start none pi w =
      let time = r.kube.now w in
      let s = pi.status in
      let started = with_status pi (record s { start_time = some time.0 }) in
      let sent = r.kube.update_status started time.1 in (sent.0, started, sent.1)

  pub started : Pipeline → Option PipelineSource → Answer W → Outcome W
  unfolding go_on
  started p source (err e, pi, w) = (err e, pi, w)
  started p source (ok _, pi, w) = go_on p source pi w

  pub run : Option Pipeline → Option PipelineSource → PipelineInstance → W → Outcome W
  unfolding start started
  run none source pi w =
      (err (message "pipeline is required for non-deletion reconciliation"), pi, w)
  run (some p) source pi w = started p source (start pi.status.start_time (init_streaming pi) w)

  unfoldable pub reconcile_streaming :
      PipelineInstance → Option Pipeline → Option PipelineSource → W → Outcome W
  unfolding delete_instance run
  reconcile_streaming pi p source w =
      if is_some pi.deletion_timestamp then delete_instance pi w else run p source pi w
