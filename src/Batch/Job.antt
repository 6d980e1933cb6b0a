-- ===== src/Batch/Job.antt =====
-- `ensureJob` (internal/controller/pipelineinstance_controller_batch.go): the Job of an instance is
-- made once. The instance in memory is returned beside the answer.
pub mod Times
use openfilter_pipelines_con.Base.{List, [], ◌∷◌, String, str_eq, if◌then◌else◌}
use openfilter_pipelines_con.Go.{Result, ok, err, Error, wrapped, concat, is_not_found, wrapping}
use openfilter_pipelines_con.Api.{PipelineInstance, PipelineSource}
use openfilter_pipelines_con.Pipeline.{Pipeline}
use openfilter_pipelines_con.Kube.{Job}
use openfilter_pipelines_con.Queue.{ValkeyClientInterface}
use openfilter_pipelines_con.Reconciler.{Reconciler, with_status}
use openfilter_pipelines_con.Reconciler.Credentials.{ensure_namespace_valkey_credentials}
use openfilter_pipelines_con.Build.Job.{build_job}

abbrev pub job_name_of : PipelineInstance → String
job_name_of pi = concat (pi.name ∷ "-job" ∷ [])

abbrev pub with_job_name : PipelineInstance → String → PipelineInstance
with_job_name pi name = let s = pi.status in with_status pi (record s { job_name = name })

abbrev pub Answer : Type 0 → Type 0
Answer W = Result (Unit {0}) × PipelineInstance × W

module _ {W : Type 0} (r : Reconciler W) (q : ValkeyClientInterface W) where
  pub create_job : PipelineInstance → Result Job → W → Answer W
  create_job pi (err e) w = (err (wrapped "failed to set owner reference" e), pi, w)
  create_job pi (ok job) w =
      let made = r.kube.create_job job w in
      elim made.0 [
        | err e ↦ (err (wrapped "failed to create job" e), pi, made.1)
        | ok _ ↦ (ok tt, with_job_name pi (job_name_of pi), made.1)
      ]

  pub make_job : PipelineInstance → Pipeline → PipelineSource → W → Answer W
  unfolding create_job
  make_job pi p source w =
      let granted =
        wrapping "failed to ensure namespace Valkey credentials"
          (ensure_namespace_valkey_credentials r q pi.namespace) w in
      elim granted.0 [
        | err e ↦ (err e, pi, granted.1)
        | ok _ ↦
            create_job pi (r.set_controller_reference pi (build_job r pi p source (job_name_of pi)))
              granted.1
      ]

  -- A Job that was deleted is made again.
  unfoldable pub ensure_job : PipelineInstance → Pipeline → PipelineSource → W → Answer W
  unfolding make_job
  ensure_job pi p source w =
      if str_eq pi.status.job_name ""
      then make_job pi p source w
      else let found = r.kube.get_job pi.status.job_name pi.namespace w in
        elim found.0 [
          | ok _ ↦ (ok tt, pi, found.1)
          | err e ↦
              if is_not_found e
              then make_job pi p source found.1
              else (err (wrapped "failed to get job" e), pi, found.1)
        ]
