-- ===== src/Streaming/Deployment/Env.antt =====
-- The environment of a filter in stream mode beside that in batch mode
-- (internal/controller/pipelineinstance_controller_streaming.go and
-- internal/controller/pipelineinstance_controller_batch.go).
use openfilter_pipelines_con.Base.{◌≡◌, Option, ◌++◌, String, arith, map}
use openfilter_pipelines_con.Api.{PipelineInstance, PipelineSource}
use openfilter_pipelines_con.Pipeline.{Filter}
use openfilter_pipelines_con.Reconciler.{Reconciler}
use openfilter_pipelines_con.Build.Env.{config_var, gpu_vars, tracing_env_vars, filter_env}
use openfilter_pipelines_con.Build.Env.Effective.{or, effective, effective-append}
use openfilter_pipelines_con.Streaming.Deployment.{rtsp_of, rtsp_vars, stream_env}

-- A variable has in stream mode the value that the same filter has for it in batch mode, if there is
-- one, and else that of the stream's own variables; so the pipeline can set even `RTSP_URL`.
pub effective-stream_env :
    {W : Type 0} (r : Reconciler W) (pi : PipelineInstance) (source : Option PipelineSource)
    (f : Filter) (name : String)
    → effective name (stream_env r pi source f)
      ≡ or (effective name (filter_env r pi f)) (effective name (rtsp_vars (rtsp_of source)))
unfolding stream_env filter_env
effective-stream_env r pi source f name =
    let rtsp = rtsp_vars (rtsp_of source) in
    let middle = map (config_var r) f.config ++ (gpu_vars r f.resources ++ tracing_env_vars r pi) in
    ground (
      arith,
      effective-append name (rtsp ++ middle) f.env,
      effective-append name rtsp middle,
      effective-append name middle f.env,
    )
