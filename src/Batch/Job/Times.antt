-- ===== src/Batch/Job/Times.antt =====
-- `ensureJob` (internal/controller/pipelineinstance_controller_batch.go) leaves the times of the
-- instance alone.
use openfilter_pipelines_con.Base.{ℕ, ◌≡◌, inl, inr, some, str_eq, if_cases}
use openfilter_pipelines_con.Go.{Result, ok, err, Result-cases, is_not_found, wrapping}
use openfilter_pipelines_con.Api.{PipelineInstance, PipelineSource}
use openfilter_pipelines_con.Pipeline.{Pipeline}
use openfilter_pipelines_con.Kube.{Job}
use openfilter_pipelines_con.Queue.{ValkeyClientInterface}
use openfilter_pipelines_con.Reconciler.{Reconciler}
use openfilter_pipelines_con.Reconciler.Credentials.{ensure_namespace_valkey_credentials}
use openfilter_pipelines_con.Batch.Job.{Answer, create_job, make_job, ensure_job}

-- The instance started at `s` and was complete at `t`.
pub record IsTimed (s t : ℕ) (pi : PipelineInstance) : Type 0 where
  pub started : pi.status.start_time ≡ some s
  pub completed : pi.status.completion_time ≡ some t

module _ {W : Type 0} (r : Reconciler W) (q : ValkeyClientInterface W) (s t : ℕ) where
  create_job-IsTimed :
      (pi : PipelineInstance) (job : Result Job) (w : W)
      → IsTimed s t pi
      → IsTimed s t (create_job r q pi job w).1
  unfolding create_job
  create_job-IsTimed pi (err e) w h = h
  create_job-IsTimed pi (ok job) w h = elim (Result-cases (r.kube.create_job job w).0) [
    | inl (u, e) ↦ rw (create_job, e) record { started = h.started; completed = h.completed }
    | inr (e, f) ↦ rw (create_job, f) h
  ]

  make_job-IsTimed :
      (pi : PipelineInstance) (p : Pipeline) (source : PipelineSource) (w : W)
      → IsTimed s t pi
      → IsTimed s t (make_job r q pi p source w).1
  unfolding make_job
  make_job-IsTimed pi p source w h =
      let granted =
        wrapping "failed to ensure namespace Valkey credentials"
          (ensure_namespace_valkey_credentials r q pi.namespace) w in
      elim (Result-cases granted.0) [
        | inl (u, e) ↦ rw (make_job, e) (create_job-IsTimed pi _ _ h)
        | inr (e, f) ↦ rw (make_job, f) h
      ]

  pub ensure_job-IsTimed :
      (pi : PipelineInstance) (p : Pipeline) (source : PipelineSource) (w : W)
      → IsTimed s t pi
      → IsTimed s t (ensure_job r q pi p source w).1
  unfolding ensure_job
  ensure_job-IsTimed pi p source w h =
      let found = r.kube.get_job pi.status.job_name pi.namespace w in
      if_cases (λ (a : Answer W). IsTimed s t a.1) (str_eq pi.status.job_name "")
        (make_job-IsTimed pi p source w h)
        (elim (Result-cases found.0) [
          | inl (job, e) ↦ rw (e) h
          | inr (e, f) ↦ rw (f) (
              if_cases (λ (a : Answer W). IsTimed s t a.1) (is_not_found e)
                (make_job-IsTimed pi p source found.1 h) h)
        ])
