-- ===== src/Batch/Reconcile.antt =====
-- `reconcileBatch` (internal/controller/pipelineinstance_controller_batch.go): one pass over an
-- instance in batch mode. The reads of the clock that the conditions make are part of it; spans and
-- logs are not.
pub mod Times
use openfilter_pipelines_con.Base.{
  ℕ, ℤ, pos, Bool, true, false, Option, none, some, List, [], ◌∷◌, String, str_eq, Dict,
  if◌then◌else◌,
}
use openfilter_pipelines_con.Go.{Result, ok, err, Error, error_text, concat}
use openfilter_pipelines_con.Api.{
  PipelineInstance, PipelineSource, ConditionStatus, FileCounts, is_true, is_false,
}
use openfilter_pipelines_con.Pipeline.{Pipeline}
use openfilter_pipelines_con.Kube.{JobCondition}
use openfilter_pipelines_con.Queue.{ValkeyClientInterface}
use openfilter_pipelines_con.Reconciler.{Reconciler, with_status, set_condition}
use openfilter_pipelines_con.Reconciler.Outcome.{done, poll, Outcome, set_condition_of, stored_pair}
use openfilter_pipelines_con.Batch.Init.{Step, initialize_pipeline_instance}
use openfilter_pipelines_con.Batch.Job.{Answer, ensure_job}
use openfilter_pipelines_con.Batch.Completed.{handle_completed_pods}
use openfilter_pipelines_con.Batch.Reclaim.{run_reclaimer}
use openfilter_pipelines_con.Batch.Status.{
  no_counts, update_status, check_failure, check_completion,
}
use openfilter_pipelines_con.Batch.Flush.{flush_outstanding_work}

abbrev pub counted_from : Option FileCounts → PipelineInstance → PipelineInstance
counted_from (some c) pi = pi
counted_from none pi = let s = pi.status in with_status pi (record s { counts = some no_counts })

-- The counters exist from the first pass on.
abbrev pub with_counts : PipelineInstance → PipelineInstance
with_counts pi = counted_from pi.status.counts pi

abbrev pub or_text : String → String → String
or_text text fallback = if str_eq text "" then fallback else text

abbrev pub failure_message : PipelineInstance → JobCondition → String
failure_message pi c =
    if str_eq c.message ""
    then concat ("Job " ∷ pi.status.job_name ∷ " failed" ∷ [])
    else concat ("Job " ∷ pi.status.job_name ∷ " failed: " ∷ c.message ∷ [])

module _ {W : Type 0} (r : Reconciler W) (q : ValkeyClientInterface W) where
  -- `CompletionTime` is set once.
  pub complete_at : Option ℕ → PipelineInstance × W → PipelineInstance × W
  complete_at (some time) (pi, w) = (pi, w)
  complete_at none (pi, w) =
      let time = r.kube.now w in
      let s = pi.status in (with_status pi (record s { completion_time = some time.0 }), time.1)

  -- The end of a run whose Job failed; none if the flush runs out of fuel.
  pub mark_failed : PipelineInstance → String → String → Option W → Option (Outcome W)
  unfolding complete_at
  mark_failed pi reason message none = none
  mark_failed pi reason message (some w) = some (
      stored_pair r done (
        complete_at pi.status.completion_time (
          set_condition_of r "Succeeded" is_false reason message (
            set_condition_of r "Progressing" is_false reason message
              (set_condition_of r "Degraded" is_true reason message (pi, w))))))

  pub finish_run : PipelineInstance → W → Outcome W
  unfolding complete_at
  finish_run pi w = stored_pair r done (
      complete_at pi.status.completion_time (
        set_condition_of r "Progressing" is_false "Completed" "Processing finished"
          (set_condition_of r "Succeeded" is_true "Completed" "All files processed" (pi, w))))

  pub go_on : PipelineInstance → W → Outcome W
  go_on pi w =
      stored_pair r poll (
        set_condition_of r "Progressing" is_true "Processing" "Pipeline is processing files"
          (pi, w))

  -- Step 5, where the Job has not failed; an error of the check is only logged.
  pub check_done : PipelineInstance → W → Outcome W
  unfolding finish_run go_on
  check_done pi w =
      let checked = check_completion r.kube pi w in
      elim checked.0 [
        | err e ↦ (ok poll, pi, checked.1)
        | ok true ↦ finish_run pi checked.1
        | ok false ↦ go_on pi checked.1
      ]

  -- The two checks of the Job; an error of the first is only logged.
  pub check_job : ℕ → (Dict ℤ → Dict ℤ) → PipelineInstance → W → Option (Outcome W)
  unfolding mark_failed check_done
  check_job fuel order pi w =
      let checked = check_failure r.kube pi w in
      elim checked.0 [
        | err e ↦ some (check_done pi checked.1)
        | ok none ↦ some (check_done pi checked.1)
        | ok (some c) ↦
            mark_failed pi (or_text c.reason "JobFailed") (failure_message pi c)
              (flush_outstanding_work q fuel order pi (failure_message pi c) checked.1)
      ]

  -- Steps 2 to 4: the errors of the first two are only logged.
  pub work : ℕ → (Dict ℤ → Dict ℤ) → PipelineInstance → W → Option (Outcome W)
  unfolding check_job
  work fuel order pi w =
      let handled = (handle_completed_pods q r.kube pi w).1 in
      let reclaimed = (run_reclaimer q r.kube pi handled).1 in
      let (counted, w') = update_status q r.kube pi reclaimed in check_job fuel order counted w'

  -- An error of the update is only logged here.
  pub job_failed : Error → PipelineInstance × W → Outcome W
  job_failed e (pi, w) = (err e, pi, (r.kube.update_status pi w).1)

  pub with_job : ℕ → (Dict ℤ → Dict ℤ) → Answer W → Option (Outcome W)
  unfolding work job_failed
  with_job fuel order (ok _, pi, w) = work fuel order pi w
  with_job fuel order (err e, pi, w) = some (
      job_failed e
        (set_condition_of r "Degraded" is_true "JobCreationFailed" (error_text e) (pi, w)))

  pub begun : ℕ → (Dict ℤ → Dict ℤ) → Pipeline → PipelineSource → Step W → Option (Outcome W)
  unfolding with_job
  begun fuel order p source (err e, pi, w) = some (err e, pi, w)
  begun fuel order p source (ok false, pi, w) = some (ok done, pi, w)
  begun fuel order p source (ok true, pi, w) = with_job fuel order (ensure_job r q pi p source w)

  unfoldable pub reconcile_batch :
      ℕ → (Dict ℤ → Dict ℤ) → PipelineInstance → Pipeline → PipelineSource → W → Option (Outcome W)
  unfolding begun
  reconcile_batch fuel order pi p source w =
      begun fuel order p source (initialize_pipeline_instance r (with_counts pi) source w)
