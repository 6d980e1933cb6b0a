-- ===== src/Kube.antt =====
-- The Kubernetes objects that the controller reads and writes, cut down to the fields that it
-- uses, and the client through which it does so (controller-runtime, a parameter of the model).
use openfilter_pipelines_con.Base.{ℕ, ℤ, Option, List, String, Dict}
use openfilter_pipelines_con.Go.{Op}
use openfilter_pipelines_con.Api.{PipelineInstance, PipelineSource, ConditionStatus}

pub data PodPhase : Type 0 where
  pod_pending pod_running pod_succeeded pod_failed pod_unknown : PodPhase

pub record Waiting : Type 0 where
  pub reason : String
  pub message : String

pub record Terminated : Type 0 where
  pub exit_code : ℤ
  pub reason : String

pub record ContainerStatus : Type 0 where
  pub name : String
  pub waiting : Option Waiting
  pub terminated : Option Terminated
  pub last_terminated : Option Terminated
  pub restart_count : ℤ

pub record Pod : Type 0 where
  pub name : String
  pub phase : PodPhase
  pub container_statuses : List ContainerStatus
  pub init_container_statuses : List ContainerStatus

pub data EnvValue : Type 0 where
  plain : String → EnvValue
  field_ref : String → EnvValue
  secret_key_ref : String → String → EnvValue

pub record EnvVar : Type 0 where
  pub name : String
  pub value : EnvValue

-- A quantity is the integer that it stands for.
pub record ResourceRequirements : Type 0 where
  pub limits : Dict ℤ
  pub requests : Dict ℤ

pub record Container : Type 0 where
  pub name : String
  pub image : String
  pub command : List String
  pub args : List String
  pub env : List EnvVar
  pub image_pull_policy : String
  pub resources : ResourceRequirements
  pub mounts : Dict String

pub record PodSpec : Type 0 where
  pub restart_policy : String
  pub node_selector : Dict String
  pub image_pull_secrets : List String
  pub volumes : List String
  pub init_containers : List Container
  pub containers : List Container

pub record JobCondition : Type 0 where
  pub type : String
  pub status : ConditionStatus
  pub reason : String
  pub message : String

pub record Job : Type 0 where
  pub name : String
  pub namespace : String
  pub labels : Dict String
  pub completion_mode : String
  pub completions : ℤ
  pub parallelism : Option ℤ
  pub backoff_limit : ℤ
  pub ttl_seconds_after_finished : ℤ
  pub pod_labels : Dict String
  pub pod_spec : PodSpec
  pub conditions : List JobCondition

pub record DeploymentSpec : Type 0 where
  pub replicas : ℤ
  pub strategy : String
  pub max_unavailable : ℤ
  pub max_surge : ℤ
  pub selector : Dict String
  pub pod_labels : Dict String
  pub pod_spec : PodSpec

-- The last three are the counts of its status.
pub record Deployment : Type 0 where
  pub name : String
  pub namespace : String
  pub labels : Dict String
  pub spec : DeploymentSpec
  pub ready_replicas : ℤ
  pub updated_replicas : ℤ
  pub available_replicas : ℤ

pub record Port : Type 0 where
  pub name : String
  pub port : ℤ
  pub target_port : ℤ
  pub protocol : String

pub record ServiceSpec : Type 0 where
  pub selector : Dict String
  pub ports : List Port
  pub type : String

pub record Service : Type 0 where
  pub name : String
  pub namespace : String
  pub labels : Dict String
  pub spec : ServiceSpec

pub record Secret : Type 0 where
  pub name : String
  pub namespace : String
  pub labels : Dict String
  pub values : Option (Dict String)

-- `client.Client` and the clock. Each operation is a request to the API server. A lookup has the name
-- first and the namespace second; a patch has the object as it was read, and as it is to be.
pub record Cluster (W : Type 0) : Type 0 where
  pub now : W → ℕ × W
  pub list_pods : String → String → String → Op W (List Pod)
  pub delete_pod : Pod → Op W (Unit {0})
  pub get_job : String → String → Op W Job
  pub create_job : Job → Op W (Unit {0})
  pub get_deployment : String → String → Op W Deployment
  pub create_deployment : Deployment → Op W (Unit {0})
  pub patch_deployment : Deployment → Deployment → Op W (Unit {0})
  pub delete_deployment : String → String → Op W (Unit {0})
  pub get_service : String → String → Op W Service
  pub list_services : String → String → String → Op W (List Service)
  pub create_service : Service → Op W (Unit {0})
  pub patch_service : Service → Service → Op W (Unit {0})
  pub delete_service : Service → Op W (Unit {0})
  pub get_secret : String → String → Op W Secret
  pub create_secret : Secret → Op W (Unit {0})
  pub delete_secret : Secret → Op W (Unit {0})
  pub get_instance : String → String → Op W PipelineInstance
  pub get_pipeline_source : String → String → Op W PipelineSource
  pub list_instances : String → Op W (List PipelineInstance)
  pub update_status : PipelineInstance → Op W (Unit {0})
  pub update : PipelineInstance → Op W (Unit {0})
