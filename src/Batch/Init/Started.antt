-- ===== src/Batch/Init/Started.antt =====
-- `initializePipelineInstance` (internal/controller/pipelineinstance_controller_batch.go) does nothing
-- for an instance that has started.
use openfilter_pipelines_con.Base.{ℕ, ◌≡◌, refl, Option, some, not}
use openfilter_pipelines_con.Go.{ok}
use openfilter_pipelines_con.Api.{PipelineInstance, PipelineSource}
use openfilter_pipelines_con.Reconciler.{Reconciler}
use openfilter_pipelines_con.Batch.Init.{
  initialize_pipeline_instance, initialize_from, has_no_files,
}

module _ {W : Type 0} (r : Reconciler W) (pi : PipelineInstance) (source : PipelineSource)
    (w : W) where
  initialize_from-some :
      (start : Option ℕ) (time : ℕ)
      → start ≡ some time
      → initialize_from r start pi source w ≡ (ok (not (has_no_files pi.status.counts)), pi, w)
  unfolding initialize_from
  initialize_from-some start time e = rw (e) refl

  pub initialize-started :
      (time : ℕ)
      → pi.status.start_time ≡ some time
      → initialize_pipeline_instance r pi source w
        ≡ (ok (not (has_no_files pi.status.counts)), pi, w)
  unfolding initialize_pipeline_instance
  initialize-started time e = initialize_from-some pi.status.start_time time e
