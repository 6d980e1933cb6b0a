-- ===== src/Tests/Samples.antt =====
-- An instance, its source and pipeline, and clients that answer every request with nothing.
use openfilter_pipelines_con.Base.{
  pos, Bool, true, false, ◌||◌, none, some, List, [], ◌∷◌, ◌++◌, String, str_eq, if◌then◌else◌,
}
use openfilter_pipelines_con.Go.{ok, err, api, not_found}
use openfilter_pipelines_con.Api.{
  PipelineInstance, PipelineSource, PipelineInstanceStatus, ObjectReference,
}
use openfilter_pipelines_con.Kube.{Cluster, Pod, PodPhase, pod_succeeded, pod_failed, pod_running}
use openfilter_pipelines_con.Pipeline.{Pipeline, Filter, batch}
use openfilter_pipelines_con.Queue.{ValkeyClientInterface}
use openfilter_pipelines_con.Reconciler.{Reconciler}

abbrev reference : ObjectReference
reference = record { name = "cars"; namespace = none }

abbrev fresh_status : PipelineInstanceStatus
fresh_status = record {
  counts = none;
  job_name = "";
  streaming = none;
  start_time = none;
  completion_time = none;
  conditions = [];
}

abbrev pub instance_a : PipelineInstance
instance_a = record {
  name = "cars";
  namespace = "team-a";
  uid = "0a1b";
  generation = pos 1;
  labels = ("plainsight.ai/project-id", "p7") ∷ ("app", "cars") ∷ [];
  annotations = [];
  finalizers = [];
  deletion_timestamp = none;
  spec = record {
    pipeline_ref = reference;
    source_ref = reference;
    execution = some (record {
      parallelism = some (pos 2);
      max_attempts = some (pos 2);
      pending_timeout = none;
    });
  };
  status = fresh_status;
}

abbrev pub instance_b : PipelineInstance
instance_b = record instance_a { uid = "0c2d"; namespace = "team-b" }

abbrev finished_status : PipelineInstanceStatus
finished_status = record fresh_status { start_time = some 5; completion_time = some 9 }

abbrev pub finished_instance : PipelineInstance
finished_instance = record instance_a { status = finished_status }

abbrev pub source : PipelineSource
source = record {
  bucket = some (record {
    name = "videos";
    prefix = "";
    endpoint = "http://minio:9000";
    region = "";
    credentials_secret = none;
    insecure_skip_tls_verify = false;
    use_path_style = true;
  });
  rtsp = none;
}

abbrev pub filter_one : Filter
filter_one = record {
  name = "detector";
  image = "detector:1";
  config = record { name = "threshold"; value = "5" } ∷ [];
  env = [];
  args = [];
  command = [];
  resources = none;
  image_pull_policy = "";
}

abbrev pub pipeline : Pipeline
pipeline = record {
  mode = batch;
  filters = filter_one ∷ [];
  services = [];
  video_input_path = "";
  image_pull_secrets = [];
}

abbrev pub pod : String → PodPhase → Pod
pod name phase = record {
  name = name;
  phase = phase;
  container_statuses = [];
  init_container_statuses = [];
}

abbrev pub pods : List Pod
pods = pod "pod-1" pod_succeeded ∷ pod "pod-2" pod_failed ∷ pod "pod-3" pod_running ∷ []

-- The pods above, no Job and no secret; writes succeed.
abbrev pub quiet_cluster : (W : Type 0) → Cluster W
quiet_cluster W = record {
  now = λ w. (7, w);
  list_pods = λ ns key value w. (ok pods, w);
  delete_pod = λ p w. (ok tt, w);
  get_job = λ name ns w. (err (api not_found "no job"), w);
  create_job = λ job w. (ok tt, w);
  get_deployment = λ name ns w. (err (api not_found "no deployment"), w);
  create_deployment = λ d w. (ok tt, w);
  patch_deployment = λ base d w. (ok tt, w);
  delete_deployment = λ name ns w. (ok tt, w);
  get_service = λ name ns w. (err (api not_found "no service"), w);
  list_services = λ ns key value w. (ok [], w);
  create_service = λ s w. (ok tt, w);
  patch_service = λ base s w. (ok tt, w);
  delete_service = λ s w. (ok tt, w);
  get_secret = λ name ns w. (err (api not_found "no secret"), w);
  create_secret = λ s w. (ok tt, w);
  delete_secret = λ s w. (ok tt, w);
  get_instance = λ name ns w. (ok instance_a, w);
  get_pipeline_source = λ name ns w. (ok source, w);
  list_instances = λ ns w. (ok (instance_a ∷ record instance_b { namespace = "team-a" } ∷ []), w);
  update_status = λ pi w. (ok tt, w);
  update = λ pi w. (ok tt, w);
}

abbrev pub quiet_queue : (W : Type 0) → ValkeyClientInterface W
quiet_queue W = record {
  create_stream_and_group = λ s g w. (ok tt, w);
  get_stream_length = λ s w. (ok (pos 0), w);
  get_consumer_group_lag = λ s g w. (ok (pos 0), w);
  get_pending_count = λ s g w. (ok (pos 0), w);
  get_pending_for_consumer = λ s g c n w. (ok [], w);
  get_pending_entry_details = λ s g idle n w. (ok [], w);
  ack_message = λ s g id w. (ok tt, w);
  enqueue_file_with_attempts = λ s run file n w. (ok "1-0", w);
  add_to_dlq = λ d run file n reason w. (ok tt, w);
  auto_claim = λ s g c idle n w. (ok [], w);
  claim_messages = λ s g c idle ids w. (ok [], w);
  read_range = λ s from to n w. (ok [], w);
  delete_messages = λ s ids w. (ok tt, w);
  ensure_acl_user = λ u p ns w. (ok tt, w);
  delete_acl_user = λ u w. (ok tt, w);
}

abbrev pub contains_text : String → List String → Bool
contains_text f [] = false
contains_text f (g ∷ gs) = str_eq g f || contains_text f gs

abbrev pub remove_text : String → List String → List String
remove_text f [] = []
remove_text f (g ∷ gs) = let rest = remove_text f gs in if str_eq g f then rest else g ∷ rest

abbrev pub quiet_reconciler : (W : Type 0) → Reconciler W
quiet_reconciler W = record {
  kube = quiet_cluster W;
  valkey = some (quiet_queue W);
  minio_list = λ request w. (ok (ok "a.mp4" ∷ []), w);
  set_status_condition = λ conditions condition. condition ∷ conditions;
  set_controller_reference = λ pi job. ok job;
  set_deployment_reference = λ pi d. ok d;
  set_service_reference = λ pi s. ok s;
  get_pipeline = λ name ns w. (ok pipeline, w);
  contains_finalizer = contains_text;
  add_finalizer = λ f fs. if contains_text f fs then fs else fs ++ (f ∷ []);
  remove_finalizer = remove_text;
  to_upper = λ s. s;
  random_text = λ w. (ok "secret", w);
  quote = λ s. s;
  valkey_addr = "valkey:6379";
  valkey_ns_secret_name = "";
  claimer_image = "claimer:1";
  gpu_node_selector_labels = [];
  gpu_library_path = "";
  gpu_bin_path = "";
  telemetry_exporter_type = "";
  telemetry_exporter_otlp_endpoint = "";
}
