-- ===== src/Build/Job.antt =====
-- `buildJob` (internal/controller/pipelineinstance_controller_batch.go): the Job of an instance,
-- with the claimer as its init container and a container for each filter.
pub mod Claimer
pub mod Agreement
use openfilter_pipelines_con.Base.{
  ℤ, pos, int32, Bool, true, false, Option, none, some, List, [], ◌∷◌, ◌++◌, String, str_eq,
  or_else, map, if◌then◌else◌,
}
use openfilter_pipelines_con.Api.{
  PipelineInstance, ExecutionConfig, PipelineSource, FileCounts, BucketSource, SecretReference,
  get_queue_stream, get_queue_group, get_instance_id,
}
use openfilter_pipelines_con.Kube.{
  EnvVar, field_ref, secret_key_ref, ResourceRequirements, Container, PodSpec, Job,
}
use openfilter_pipelines_con.Pipeline.{Filter, Pipeline}
use openfilter_pipelines_con.Reconciler.{Reconciler}
use openfilter_pipelines_con.Build.Labels.{build_pod_labels}
use openfilter_pipelines_con.Build.Gpu.{node_selector}
use openfilter_pipelines_con.Build.Env.{env, filter_env}

abbrev pub or_default : String → String → String
or_default s d = if str_eq s "" then d else s

abbrev from_field : String → String → EnvVar
from_field name path = record { name = name; value = field_ref path }

abbrev pub from_secret : String → String → String → EnvVar
from_secret name secret key = record { name = name; value = secret_key_ref secret key }

abbrev pub format_bool : Bool → String
format_bool true = "true"
format_bool false = "false"

bucket_vars : Option BucketSource → List EnvVar
bucket_vars none = []
bucket_vars (some b) =
    env "S3_BUCKET" b.name
    ∷ env "S3_ENDPOINT" b.endpoint
    ∷ env "S3_REGION" b.region
    ∷ env "S3_USE_PATH_STYLE" (format_bool b.use_path_style)
    ∷ env "S3_INSECURE_SKIP_TLS_VERIFY" (format_bool b.insecure_skip_tls_verify)
    ∷ []

abbrev pub ref_name : Option SecretReference → String
ref_name none = ""
ref_name (some ref) = ref.name

-- The name of the bucket's secret, empty if there is none.
abbrev s3_secret_name : Option BucketSource → String
s3_secret_name none = ""
s3_secret_name (some b) = ref_name b.credentials_secret

secret_vars : String → List EnvVar
secret_vars name =
    if str_eq name ""
    then []
    else from_secret "S3_ACCESS_KEY_ID" name "accessKeyId"
      ∷ from_secret "S3_SECRET_ACCESS_KEY" name "secretAccessKey"
      ∷ []

abbrev parallelism_of : Option ExecutionConfig → ℤ
parallelism_of none = pos 1
parallelism_of (some e) = or_else e.parallelism (pos 1)

abbrev total_of : Option FileCounts → ℤ
total_of none = pos 0
total_of (some c) = c.total_files

abbrev pub no_resources : ResourceRequirements
no_resources = record { limits = []; requests = [] }

module _ {W : Type 0} (r : Reconciler W) where
  -- The claimer's settings: which message to claim, under which name, and where the file lies.
  unfoldable pub claimer_env : PipelineInstance → Pipeline → PipelineSource → List EnvVar
  unfolding bucket_vars secret_vars
  claimer_env pi p source =
      let ns_secret = or_default r.valkey_ns_secret_name "valkey-ns-credentials" in
      env "STREAM" (get_queue_stream pi)
      ∷ env "GROUP" (get_queue_group pi)
      ∷ env "VALKEY_URL" r.valkey_addr
      ∷ from_field "CONSUMER_NAME" "metadata.name"
      ∷ from_field "POD_NAME" "metadata.name"
      ∷ from_field "POD_NAMESPACE" "metadata.namespace"
      ∷ (bucket_vars source.bucket
          ++ (secret_vars (s3_secret_name source.bucket)
              ++ (from_secret "VALKEY_USERNAME" ns_secret "valkey-username"
                  ∷ from_secret "VALKEY_PASSWORD" ns_secret "valkey-password"
                  ∷ env "VIDEO_INPUT_PATH" (or_default p.video_input_path "/ws/input.mp4")
                  ∷ [])))

  filter_container : PipelineInstance → Filter → Container
  filter_container pi f = record {
    name = f.name;
    image = f.image;
    command = f.command;
    args = f.args;
    env = filter_env r pi f;
    image_pull_policy = f.image_pull_policy;
    resources = or_else f.resources no_resources;
    mounts = ("workspace", "/ws") ∷ [];
  }

  claimer_container : PipelineInstance → Pipeline → PipelineSource → Container
  claimer_container pi p source = record {
    name = "claimer";
    image = r.claimer_image;
    command = [];
    args = [];
    env = claimer_env pi p source;
    image_pull_policy = "";
    resources = no_resources;
    mounts = ("workspace", "/ws") ∷ [];
  }

  -- One completion for each file, with 32 bits for their number.
  unfoldable pub build_job : PipelineInstance → Pipeline → PipelineSource → String → Job
  unfolding filter_container claimer_container
  build_job pi p source job_name =
      let containers = map (filter_container pi) p.filters in
      record {
        name = job_name;
        namespace = pi.namespace;
        labels = build_pod_labels (get_instance_id pi) pi;
        completion_mode = "NonIndexed";
        completions = int32 (total_of pi.status.counts);
        parallelism = some (parallelism_of pi.spec.execution);
        backoff_limit = pos 2;
        ttl_seconds_after_finished = pos 86400;
        pod_labels = build_pod_labels (get_instance_id pi) pi;
        pod_spec = record {
          restart_policy = "Never";
          node_selector = node_selector r containers;
          image_pull_secrets = p.image_pull_secrets;
          volumes = "workspace" ∷ [];
          init_containers = claimer_container pi p source ∷ [];
          containers = containers;
        };
        conditions = [];
      }
