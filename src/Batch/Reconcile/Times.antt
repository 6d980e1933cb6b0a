-- ===== src/Batch/Reconcile/Times.antt =====
-- The start and completion times of an instance in batch mode
-- (internal/controller/pipelineinstance_controller_batch.go) are set once.
use openfilter_pipelines_con.Base.{
  ℕ, ℤ, Bool, true, false, ◌≡◌, inl, inr, Option, none, some, String, Dict, not,
}
use openfilter_pipelines_con.Go.{ok, err, Result-cases}
use openfilter_pipelines_con.Api.{PipelineInstance, PipelineSource, FileCounts, ConditionStatus}
use openfilter_pipelines_con.Pipeline.{Pipeline}
use openfilter_pipelines_con.Queue.{ValkeyClientInterface}
use openfilter_pipelines_con.Reconciler.{Reconciler, set_condition}
use openfilter_pipelines_con.Reconciler.Outcome.{
  Outcome, CtrlResult, stored, set_condition_of, stored_pair,
}
use openfilter_pipelines_con.Batch.Init.{has_no_files}
use openfilter_pipelines_con.Batch.Init.Started.{initialize-started}
use openfilter_pipelines_con.Batch.Job.{Answer, ensure_job}
use openfilter_pipelines_con.Batch.Job.Times.{IsTimed, ensure_job-IsTimed}
use openfilter_pipelines_con.Batch.Status.{update_status, check_failure, check_completion}
use openfilter_pipelines_con.Batch.Reconcile.{
  counted_from, with_counts, complete_at, mark_failed, finish_run, go_on, check_done, check_job,
  work, job_failed, with_job, begun, reconcile_batch,
}

-- So it is in the outcome, if there is one.
abbrev pub KeepsTimes : {W : Type 0} → ℕ → ℕ → Option (Outcome W) → Type 0
KeepsTimes s t none = Unit {0}
KeepsTimes s t (some out) = IsTimed s t out.1

module _ {W : Type 0} (r : Reconciler W) (q : ValkeyClientInterface W) (s t : ℕ) where
  set_condition_of-IsTimed :
      (type : String) (status : ConditionStatus) (reason message : String)
      (p : PipelineInstance × W)
      → IsTimed s t p.0
      → IsTimed s t (set_condition_of r type status reason message p).0
  unfolding set_condition_of set_condition
  set_condition_of-IsTimed type status reason message p h = record {
    started = h.started;
    completed = h.completed;
  }

  stored_pair-IsTimed :
      (result : CtrlResult) (p : PipelineInstance × W)
      → IsTimed s t p.0
      → IsTimed s t (stored_pair r result p).1
  unfolding stored_pair stored
  stored_pair-IsTimed result p h = elim (Result-cases (r.kube.update_status p.0 p.1).0) [
    | inl (u, e) ↦ rw (stored_pair, stored, e) h
    | inr (e, f) ↦ rw (stored_pair, stored, f) h
  ]

  complete_at-IsTimed :
      (c : Option ℕ) (p : PipelineInstance × W)
      → c ≡ some t
      → IsTimed s t p.0
      → IsTimed s t (complete_at r q c p).0
  unfolding complete_at
  complete_at-IsTimed c p e h = rw (e) h

  mark_failed-KeepsTimes :
      (pi : PipelineInstance) (reason message : String) (o : Option W)
      → IsTimed s t pi
      → KeepsTimes s t (mark_failed r q pi reason message o)
  unfolding mark_failed
  mark_failed-KeepsTimes pi reason message none h = tt
  mark_failed-KeepsTimes pi reason message (some w) h = stored_pair-IsTimed _ _ (
      complete_at-IsTimed pi.status.completion_time _ h.completed (
        set_condition_of-IsTimed _ _ _ _ _
          (set_condition_of-IsTimed _ _ _ _ _ (set_condition_of-IsTimed _ _ _ _ (pi, w) h))))

  check_done-IsTimed :
      (pi : PipelineInstance) (w : W) → IsTimed s t pi → IsTimed s t (check_done r q pi w).1
  unfolding check_done finish_run go_on
  check_done-IsTimed pi w h =
      let u = (check_completion r.kube pi w).1 in
      elim (Result-cases (check_completion r.kube pi w).0) [
        | inr (e, f) ↦ rw (check_done, f) h
        | inl (true, e) ↦
            rw (check_done, e)
              (stored_pair-IsTimed _ _ (
                complete_at-IsTimed pi.status.completion_time _ h.completed (
                  set_condition_of-IsTimed _ _ _ _ _ (set_condition_of-IsTimed _ _ _ _ (pi, u) h))))
        | inl (false, e) ↦
            rw (check_done, e)
              (stored_pair-IsTimed _ _ (set_condition_of-IsTimed _ _ _ _ (pi, u) h))
      ]

  check_job-KeepsTimes :
      (fuel : ℕ) (order : Dict ℤ → Dict ℤ) (pi : PipelineInstance) (w : W)
      → IsTimed s t pi
      → KeepsTimes s t (check_job r q fuel order pi w)
  unfolding check_job
  check_job-KeepsTimes fuel order pi w h =
      let u = (check_failure r.kube pi w).1 in
      elim (Result-cases (check_failure r.kube pi w).0) [
        | inr (e, f) ↦ rw (check_job, f) (check_done-IsTimed pi u h)
        | inl (none, e) ↦ rw (check_job, e) (check_done-IsTimed pi u h)
        | inl (some c, e) ↦ rw (check_job, e) (mark_failed-KeepsTimes pi _ _ _ h)
      ]

  with_job-KeepsTimes :
      (fuel : ℕ) (order : Dict ℤ → Dict ℤ) (a : Answer W)
      → IsTimed s t a.1
      → KeepsTimes s t (with_job r q fuel order a)
  unfolding with_job work job_failed update_status
  with_job-KeepsTimes fuel order (ok u, pi, w) h =
      check_job-KeepsTimes fuel order _ _ (record { started = h.started; completed = h.completed })
  with_job-KeepsTimes fuel order (err e, pi, w) h = set_condition_of-IsTimed _ _ _ _ (pi, w) h

  counted_from-IsTimed :
      (c : Option FileCounts) (pi : PipelineInstance)
      → IsTimed s t pi
      → IsTimed s t (counted_from c pi)
  counted_from-IsTimed (some c) pi h = h
  counted_from-IsTimed none pi h = record { started = h.started; completed = h.completed }

  begun-KeepsTimes :
      (fuel : ℕ) (order : Dict ℤ → Dict ℤ) (p : Pipeline) (source : PipelineSource) (b : Bool)
      (pi : PipelineInstance) (w : W)
      → IsTimed s t pi
      → KeepsTimes s t (begun r q fuel order p source (ok b, pi, w))
  unfolding begun
  begun-KeepsTimes fuel order p source true pi w h =
      with_job-KeepsTimes fuel order (ensure_job r q pi p source w)
        (ensure_job-IsTimed r q s t pi p source w h)
  begun-KeepsTimes fuel order p source false pi w h = h

  -- A pass over an instance that has started and is complete keeps both times, whatever the cluster
  -- and the queue answer.
  pub reconcile_batch-KeepsTimes :
      (fuel : ℕ) (order : Dict ℤ → Dict ℤ) (pi : PipelineInstance) (p : Pipeline)
      (source : PipelineSource) (w : W)
      → IsTimed s t pi
      → KeepsTimes s t (reconcile_batch r q fuel order pi p source w)
  unfolding reconcile_batch begun
  reconcile_batch-KeepsTimes fuel order pi p source w h =
      let counted = with_counts pi in
      let kept = counted_from-IsTimed pi.status.counts pi h in
      rw (reconcile_batch, initialize-started r counted source w s kept.started)
        (begun-KeepsTimes fuel order p source (not (has_no_files counted.status.counts)) counted w
          kept)
