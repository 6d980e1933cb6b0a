-- ===== src/Reconciler.antt =====
-- `PipelineInstanceReconciler` (internal/controller/pipelineinstance_controller.go): its settings,
-- and as parameters the libraries through which it acts: the queue client, the Kubernetes client,
-- `meta.SetStatusCondition`, `strings.ToUpper` with its Unicode tables, `controllerutil.SetControllerReference` and the MinIO client.
pub mod Storage
pub mod Credentials
pub mod Cleanup
pub mod Outcome
use openfilter_pipelines_con.Base.{ℕ, ℤ, Bool, Option, List, String, Dict}
use openfilter_pipelines_con.Go.{Op, Result}
use openfilter_pipelines_con.Api.{
  PipelineInstance, PipelineInstanceStatus, Condition, ConditionStatus,
}
use openfilter_pipelines_con.Kube.{Job, Deployment, Service, Cluster}
use openfilter_pipelines_con.Pipeline.{Pipeline}
use openfilter_pipelines_con.Queue.{ValkeyClientInterface}

-- What `minio.New` and `ListObjects` are given.
pub record ListRequest : Type 0 where
  pub endpoint : String
  pub secure : Bool
  pub access_key : String
  pub secret_key : String
  pub region : String
  pub insecure_skip_tls_verify : Bool
  pub bucket : String
  pub prefix : String

-- `minio_list` fails if the client cannot be made; else it gives the objects that the channel
-- delivers, each a key or an error. `get_pipeline` is the request of the client for a Pipeline, and the
-- three references are `controllerutil.SetControllerReference` at three types. The three on finalizers are
-- those of `controllerutil`, on the list that the object carries. `random_text` is 32 random bytes in the unpadded URL form of base64,
-- and `quote` is `strconv.Quote`.
pub record Reconciler (W : Type 0) : Type 0 where
  pub kube : Cluster W
  pub valkey : Option (ValkeyClientInterface W)
  pub minio_list : ListRequest → Op W (List (Result String))
  pub set_status_condition : List Condition → Condition → List Condition
  pub set_controller_reference : PipelineInstance → Job → Result Job
  pub set_deployment_reference : PipelineInstance → Deployment → Result Deployment
  pub set_service_reference : PipelineInstance → Service → Result Service
  pub get_pipeline : String → String → Op W Pipeline
  pub contains_finalizer : String → List String → Bool
  pub add_finalizer : String → List String → List String
  pub remove_finalizer : String → List String → List String
  pub to_upper : String → String
  pub random_text : Op W String
  pub quote : String → String
  pub valkey_addr : String
  pub valkey_ns_secret_name : String
  pub claimer_image : String
  pub gpu_node_selector_labels : Dict String
  pub gpu_library_path : String
  pub gpu_bin_path : String
  pub telemetry_exporter_type : String
  pub telemetry_exporter_otlp_endpoint : String

abbrev pub with_finalizers : PipelineInstance → List String → PipelineInstance
with_finalizers pi fs = record pi { finalizers = fs }

abbrev pub with_status : PipelineInstance → PipelineInstanceStatus → PipelineInstance
with_status pi s = record pi { status = s }

module _ {W : Type 0} (r : Reconciler W) where
  -- `setCondition`, with `metav1.Now()` read off the world.
  unfoldable pub set_condition :
      PipelineInstance → String → ConditionStatus → String → String → W → PipelineInstance × W
  set_condition pi type status reason message w =
      let time = r.kube.now w in
      let condition : Condition = record {
        type = type;
        status = status;
        observed_generation = pi.generation;
        last_transition_time = time.0;
        reason = reason;
        message = message;
      } in
      let s = pi.status in
      (
        with_status pi (record s { conditions = r.set_status_condition s.conditions condition }),
        time.1,
      )
