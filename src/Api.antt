-- ===== src/Api.antt =====
-- api/v1alpha1: the custom resources, and the names of the Valkey keys that an instance owns.
-- A pointer field is an option; a time is a number of nanoseconds and a duration a signed one.
pub mod Keys
use openfilter_pipelines_con.Base.{ℕ, ℤ, Bool, Option, List, String, Dict, [], ◌∷◌}
use openfilter_pipelines_con.Go.{concat}

pub record ExecutionConfig : Type 0 where
  pub parallelism : Option ℤ
  pub max_attempts : Option ℤ
  pub pending_timeout : Option ℤ

pub record ObjectReference : Type 0 where
  pub name : String
  pub namespace : Option String

pub record PipelineInstanceSpec : Type 0 where
  pub pipeline_ref : ObjectReference
  pub source_ref : ObjectReference
  pub execution : Option ExecutionConfig

pub record FileCounts : Type 0 where
  pub total_files : ℤ
  pub queued : ℤ
  pub running : ℤ
  pub succeeded : ℤ
  pub failed : ℤ

pub record StreamingStatus : Type 0 where
  pub ready_replicas : ℤ
  pub updated_replicas : ℤ
  pub available_replicas : ℤ
  pub container_restarts : ℤ
  pub last_ready_time : Option ℕ
  pub deployment_name : String

pub data ConditionStatus : Type 0 where
  is_true is_false is_unknown : ConditionStatus

pub record Condition : Type 0 where
  pub type : String
  pub status : ConditionStatus
  pub observed_generation : ℤ
  pub last_transition_time : ℕ
  pub reason : String
  pub message : String

pub record PipelineInstanceStatus : Type 0 where
  pub counts : Option FileCounts
  pub job_name : String
  pub streaming : Option StreamingStatus
  pub start_time : Option ℕ
  pub completion_time : Option ℕ
  pub conditions : List Condition

pub record PipelineInstance : Type 0 where
  pub name : String
  pub namespace : String
  pub uid : String
  pub generation : ℤ
  pub labels : Dict String
  pub annotations : Dict String
  pub finalizers : List String
  pub deletion_timestamp : Option ℕ
  pub spec : PipelineInstanceSpec
  pub status : PipelineInstanceStatus

pub record SecretReference : Type 0 where
  pub name : String
  pub namespace : String

pub record BucketSource : Type 0 where
  pub name : String
  pub prefix : String
  pub endpoint : String
  pub region : String
  pub credentials_secret : Option SecretReference
  pub insecure_skip_tls_verify : Bool
  pub use_path_style : Bool

pub record RtspSource : Type 0 where
  pub host : String
  pub port : ℤ
  pub path : String
  pub credentials_secret : Option SecretReference
  pub idle_timeout : Option ℤ

pub record PipelineSource : Type 0 where
  pub bucket : Option BucketSource
  pub rtsp : Option RtspSource

-- `ns:<namespace>:pi:<uid>:work`
unfoldable pub get_queue_stream : PipelineInstance → String
get_queue_stream pi = concat ("ns:" ∷ pi.namespace ∷ ":pi:" ∷ pi.uid ∷ ":work" ∷ [])

-- `ns:<namespace>:pi:<uid>:dlq`
unfoldable pub get_queue_dlq : PipelineInstance → String
get_queue_dlq pi = concat ("ns:" ∷ pi.namespace ∷ ":pi:" ∷ pi.uid ∷ ":dlq" ∷ [])

-- `cg:<uid>`
unfoldable pub get_queue_group : PipelineInstance → String
get_queue_group pi = concat ("cg:" ∷ pi.uid ∷ [])

unfoldable pub get_instance_id : PipelineInstance → String
get_instance_id pi = pi.uid
