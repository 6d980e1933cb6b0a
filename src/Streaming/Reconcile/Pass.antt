-- ===== src/Streaming/Reconcile/Pass.antt =====
-- What a pass of `reconcileStreaming`
-- (internal/controller/pipelineinstance_controller_streaming.go) over an instance that is not being
-- deleted does, whatever its completion time is.
use openfilter_pipelines_con.Base.{
  ℕ, ℤ, pos, ltb_ℤ, ◌≡◌, ◌∙◌, inl, inr, Bool, true, false, Option, some, String, or_else, is_some,
  if_cases,
}
use openfilter_pipelines_con.Go.{ok, err, Error, error_text, Result-cases}
use openfilter_pipelines_con.Api.{
  PipelineInstance, PipelineSource, ConditionStatus, is_true, is_false,
}
use openfilter_pipelines_con.Pipeline.{Pipeline}
use openfilter_pipelines_con.Reconciler.{Reconciler, set_condition}
use openfilter_pipelines_con.Reconciler.Outcome.{
  CtrlResult, done, poll, Outcome, stored, set_condition_of, stored_pair,
}
use openfilter_pipelines_con.Streaming.Idle.{idle_timeout_of, check_idle_timeout}
use openfilter_pipelines_con.Streaming.Idle.Kept.{
  IsReadKept, update_streaming_status-kept, check_idle_timeout-kept,
}
use openfilter_pipelines_con.Streaming.Deployment.{
  Answer, no_streaming, delete_streaming_deployment,
}
use openfilter_pipelines_con.Streaming.Services.{Groups, ensure_filter_services}
use openfilter_pipelines_con.Streaming.Services.Kept.{IsServiceKept, ensure_filter_services-kept}
use openfilter_pipelines_con.Streaming.Reconcile.{
  complete_now, tear_down, finish_idle, mark_running, decide, check_idle, observe, degraded_by,
  with_services, with_deployment,
}
use openfilter_pipelines_con.Streaming.Reconcile.Deletion.{status_name}
use openfilter_pipelines_con.Streaming.Reconcile.Released.{
  IsKept, delete_named-kept, delete_filter_services-kept,
}

-- The requests that follow those for the Deployment keep the property.
pub record IsPassKept {W : Type 0} (r : Reconciler W) (P : W → Type 0) : Type 0 where
  pub reads : IsReadKept r.kube P
  pub services : IsServiceKept r P
  pub deletions : IsKept r P
  pub by_status : (pi : PipelineInstance) (w : W) → P w → P (r.kube.update_status pi w).1

module _ {W : Type 0} (r : Reconciler W) (P : W → Type 0) (h : IsPassKept r P) (format : ℤ → String)
    (order : Groups → Groups) (s : ℕ) where
  -- The instance started at `s`, and the world has the property.
  abbrev pub Holds : PipelineInstance × W → Type 0
  Holds (pi, w) = (pi.status.start_time ≡ some s) × P w

  abbrev pub HoldsAfter : Outcome W → Type 0
  HoldsAfter out = Holds (out.1, out.2)

  set_condition_of-Holds :
      (type : String) (status : ConditionStatus) (reason text : String) (x : PipelineInstance × W)
      → Holds x
      → Holds (set_condition_of r type status reason text x)
  unfolding set_condition_of set_condition
  set_condition_of-Holds type status reason text (pi, w) (t, p) = (t, h.reads.by_now w p)

  stored_pair-Holds :
      (result : CtrlResult) (x : PipelineInstance × W)
      → Holds x
      → HoldsAfter (stored_pair r result x)
  unfolding stored_pair stored
  stored_pair-Holds result (pi, w) (t, p) = elim (Result-cases (r.kube.update_status pi w).0) [
    | inl (u, e) ↦ rw (stored, e) (t, h.by_status pi w p)
    | inr (e, f) ↦ rw (stored, f) (t, h.by_status pi w p)
  ]

  tear_down-Holds : (x : PipelineInstance × W) → Holds x → Holds (tear_down r format order x)
  unfolding tear_down delete_streaming_deployment
  tear_down-Holds (pi, w) (t, p) = (
    t,
    delete_filter_services-kept r P h.deletions pi _
        (delete_named-kept r P h.deletions (status_name pi) pi.namespace w p),
  )

  complete_now-Holds : (x : PipelineInstance × W) → Holds x → Holds (complete_now r format order x)
  unfolding complete_now
  complete_now-Holds (pi, w) (t, p) = (t, h.reads.by_now w p)

  mark_running-Holds :
      (pi : PipelineInstance) (w : W)
      → Holds (pi, w)
      → HoldsAfter (mark_running r format order pi w)
  unfolding mark_running
  mark_running-Holds pi w x =
      if_cases HoldsAfter (ltb_ℤ (pos 0) (or_else pi.status.streaming no_streaming).ready_replicas)
        (stored_pair-Holds poll _ (set_condition_of-Holds _ _ _ _ (pi, w) x))
        (stored_pair-Holds poll _ (set_condition_of-Holds _ _ _ _ (pi, w) x))

  decide-Holds :
      (pi : PipelineInstance) (c : (Bool × String) × W)
      → Holds (pi, c.1)
      → HoldsAfter (decide r format order pi c)
  unfolding decide finish_idle
  decide-Holds pi ((false, reason), w) x = mark_running-Holds pi w x
  decide-Holds pi ((true, reason), w) x =
      let succeeded = set_condition_of r "Succeeded" is_true "IdleTimeout" reason (pi, w) in
      let marked = set_condition_of r "Progressing" is_false "IdleTimeout" reason succeeded in
      let completed = complete_now r format order marked in
      stored_pair-Holds done (tear_down r format order completed) (
        tear_down-Holds completed (
          complete_now-Holds marked (
            set_condition_of-Holds "Progressing" is_false "IdleTimeout" reason succeeded
              (set_condition_of-Holds "Succeeded" is_true "IdleTimeout" reason (pi, w) x))))

  check_idle-Holds :
      (source : Option PipelineSource) (pi : PipelineInstance) (w : W)
      → Holds (pi, w)
      → HoldsAfter (check_idle r format order source pi w)
  unfolding check_idle
  check_idle-Holds source pi w x =
      if_cases HoldsAfter (is_some (idle_timeout_of source))
        (decide-Holds pi (check_idle_timeout r.kube format pi source w)
          (x.0, check_idle_timeout-kept r.kube format P h.reads pi source w x.1))
        (mark_running-Holds pi w x)

  degraded_by-Holds :
      (reason : String) (e : Error) (pi : PipelineInstance) (w : W)
      → Holds (pi, w)
      → HoldsAfter (degraded_by r format order reason e pi w)
  unfolding degraded_by
  degraded_by-Holds reason e pi w x =
      let (t, p) = set_condition_of-Holds "Degraded" is_true reason (error_text e) (pi, w) x in
      (t, h.by_status _ _ p)

  with_services-Holds :
      (p : Pipeline) (source : Option PipelineSource) (pi : PipelineInstance) (w : W)
      → Holds (pi, w)
      → HoldsAfter (with_services r format order p source pi w)
  unfolding with_services observe
  with_services-Holds p source pi w (t, holds) =
      let ensured = ensure_filter_services r order pi p w in
      let q = ensure_filter_services-kept r P h.services order pi p w holds in
      let (same, q') = update_streaming_status-kept r.kube format P h.reads pi ensured.1 q in
      elim (Result-cases ensured.0) [
        | inr (e, f) ↦
            rw (with_services, f) (degraded_by-Holds "ServiceCreationFailed" e pi ensured.1 (t, q))
        | inl (u, e) ↦ rw (with_services, e) (check_idle-Holds source _ _ (same ∙ t, q'))
      ]

  pub with_deployment-Holds :
      (p : Pipeline) (source : Option PipelineSource) (a : Answer W)
      → Holds (a.1, a.2)
      → HoldsAfter (with_deployment r format order p source a)
  unfolding with_deployment
  with_deployment-Holds p source (ok u, pi, w) x = with_services-Holds p source pi w x
  with_deployment-Holds p source (err e, pi, w) x =
      degraded_by-Holds "DeploymentCreationFailed" e pi w x
