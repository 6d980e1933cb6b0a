-- ===== src/Streaming/Deployment.antt =====
-- `buildStreamingDeployment`, `ensureStreamingDeployment` and `deleteStreamingDeployment`
-- (internal/controller/pipelineinstance_controller_streaming.go): the Deployment that runs the filters
-- of an instance. The instance in memory is returned beside the answer.
pub mod Selector
pub mod Env
use openfilter_pipelines_con.Base.{
  ℤ, pos, Option, none, some, List, [], ◌∷◌, ◌++◌, String, str_eq, Dict, or_else, map,
  if◌then◌else◌,
}
use openfilter_pipelines_con.Go.{Op, Result, ok, err, wrapped, concat, is_not_found}
use openfilter_pipelines_con.Api.{
  PipelineInstance, PipelineSource, RtspSource, SecretReference, StreamingStatus,
}
use openfilter_pipelines_con.Pipeline.{Filter, Pipeline}
use openfilter_pipelines_con.Kube.{EnvVar, secret_key_ref, Container, Deployment}
use openfilter_pipelines_con.Reconciler.{Reconciler}
use openfilter_pipelines_con.Build.Labels.{merge_labels_from_cr}
use openfilter_pipelines_con.Build.Gpu.{node_selector}
use openfilter_pipelines_con.Build.Env.{env, config_var, gpu_vars, tracing_env_vars}
use openfilter_pipelines_con.Build.Job.{from_secret, no_resources}
use openfilter_pipelines_con.Streaming.Url.{build_rtsp_url, build_rtsp_url_with_credentials}
use openfilter_pipelines_con.Streaming.Idle.{with_streaming}

abbrev pub rtsp_of : Option PipelineSource → Option RtspSource
rtsp_of none = none
rtsp_of (some source) = source.rtsp

pub url_vars : RtspSource → Option SecretReference → List EnvVar
url_vars rtsp (some secret) =
    from_secret "_RTSP_USERNAME" secret.name "username"
    ∷ from_secret "_RTSP_PASSWORD" secret.name "password"
    ∷ env "RTSP_URL" (build_rtsp_url_with_credentials rtsp)
    ∷ []
url_vars rtsp none = env "RTSP_URL" (build_rtsp_url rtsp) ∷ []

-- The stream's address, and where its password is; nothing for a source of another kind.
pub rtsp_vars : Option RtspSource → List EnvVar
unfolding url_vars
rtsp_vars none = []
rtsp_vars (some rtsp) = url_vars rtsp rtsp.credentials_secret

-- The labels by which the Deployment finds its pods.
abbrev pub stream_selector_labels : PipelineInstance → Dict String
stream_selector_labels pi = ("app", "pipeline-stream") ∷ ("pipelineinstance", pi.name) ∷ []

abbrev pub no_streaming : StreamingStatus
no_streaming = record {
  ready_replicas = pos 0;
  updated_replicas = pos 0;
  available_replicas = pos 0;
  container_restarts = pos 0;
  last_ready_time = none;
  deployment_name = "";
}

abbrev pub streaming_from : Option StreamingStatus → PipelineInstance → PipelineInstance
streaming_from (some st) pi = pi
streaming_from none pi = with_streaming pi no_streaming

-- `if pipelineInstance.Status.Streaming == nil { … = &StreamingStatus{} }`
abbrev pub init_streaming : PipelineInstance → PipelineInstance
init_streaming pi = streaming_from pi.status.streaming pi

abbrev pub deployment_name_of : PipelineInstance → String
deployment_name_of pi = concat (pi.name ∷ "-deploy" ∷ [])

abbrev pub with_deployment_name : PipelineInstance → String → PipelineInstance
with_deployment_name pi name =
    let st = or_else pi.status.streaming no_streaming in
    with_streaming pi (record st { deployment_name = name })

abbrev pub Answer : Type 0 → Type 0
Answer W = Result (Unit {0}) × PipelineInstance × W

module _ {W : Type 0} (r : Reconciler W) where
  -- The stream first, so that the configuration can refer to it; what the user sets last.
  unfoldable pub stream_env : PipelineInstance → Option PipelineSource → Filter → List EnvVar
  unfolding rtsp_vars gpu_vars
  stream_env pi source f =
      (rtsp_vars (rtsp_of source)
        ++ (map (config_var r) f.config ++ (gpu_vars r f.resources ++ tracing_env_vars r pi)))
      ++ f.env

  pub stream_container : PipelineInstance → Option PipelineSource → Filter → Container
  stream_container pi source f = record {
    name = f.name;
    image = f.image;
    command = f.command;
    args = f.args;
    env = stream_env pi source f;
    image_pull_policy = f.image_pull_policy;
    resources = or_else f.resources no_resources;
    mounts = [];
  }

  unfoldable pub build_streaming_deployment :
      PipelineInstance → Pipeline → Option PipelineSource → String → Deployment
  unfolding stream_container
  build_streaming_deployment pi p source name =
      let containers = map (stream_container pi source) p.filters in
      record {
        name = name;
        namespace = pi.namespace;
        labels = merge_labels_from_cr (stream_selector_labels pi) pi;
        spec = record {
          replicas = pos 1;
          strategy = "RollingUpdate";
          max_unavailable = pos 0;
          max_surge = pos 1;
          selector = stream_selector_labels pi;
          pod_labels = merge_labels_from_cr (stream_selector_labels pi) pi;
          pod_spec = record {
            restart_policy = "Always";
            node_selector = node_selector r containers;
            image_pull_secrets = p.image_pull_secrets;
            volumes = [];
            init_containers = [];
            containers = containers;
          };
        };
        ready_replicas = pos 0;
        updated_replicas = pos 0;
        available_replicas = pos 0;
      }

  unfoldable pub create_deployment : PipelineInstance → Result Deployment → W → Answer W
  create_deployment pi (err e) w = (err (wrapped "failed to set controller reference" e), pi, w)
  create_deployment pi (ok d) w =
      let made = r.kube.create_deployment d w in
      elim made.0 [
        | err e ↦ (err (wrapped "failed to create deployment" e), pi, made.1)
        | ok _ ↦ (ok tt, with_deployment_name pi (deployment_name_of pi), made.1)
      ]

  -- The labels and the specification converge; the status is the Deployment controller's.
  unfoldable pub patch_deployment : PipelineInstance → Deployment → Deployment → W → Answer W
  patch_deployment pi found desired w =
      let patched =
        r.kube.patch_deployment found
          (record found { labels = desired.labels; spec = desired.spec }) w in
      elim patched.0 [
        | err e ↦ (err (wrapped "failed to update deployment" e), pi, patched.1)
        | ok _ ↦ (ok tt, with_deployment_name pi (deployment_name_of pi), patched.1)
      ]

  unfoldable pub ensure_deployment :
      PipelineInstance → Pipeline → Option PipelineSource → W → Answer W
  unfolding create_deployment patch_deployment
  ensure_deployment pi p source w =
      let got = r.kube.get_deployment (deployment_name_of pi) pi.namespace w in
      let desired = build_streaming_deployment pi p source (deployment_name_of pi) in
      elim got.0 [
        | ok found ↦ patch_deployment pi found desired got.1
        | err e ↦
            if is_not_found e
            then create_deployment pi (r.set_deployment_reference pi desired) got.1
            else (err (wrapped "failed to get deployment" e), pi, got.1)
      ]

  unfoldable pub ensure_streaming_deployment :
      PipelineInstance → Pipeline → Option PipelineSource → W → Answer W
  unfolding ensure_deployment
  ensure_streaming_deployment pi p source w = ensure_deployment (init_streaming pi) p source w

  unfoldable pub delete_named : String → String → Op W (Unit {0})
  delete_named name namespace w =
      if str_eq name ""
      then (ok tt, w)
      else let gone = r.kube.delete_deployment name namespace w in
        elim gone.0 [
          | ok _ ↦ (ok tt, gone.1)
          | err e ↦
              if is_not_found e
              then (ok tt, gone.1)
              else (err (wrapped "failed to delete deployment" e), gone.1)
        ]

  -- The Deployment that the status names, if it names one.
  unfoldable pub delete_streaming_deployment : PipelineInstance → Op W (Unit {0})
  unfolding delete_named
  delete_streaming_deployment pi w =
      delete_named (or_else pi.status.streaming no_streaming).deployment_name pi.namespace w
