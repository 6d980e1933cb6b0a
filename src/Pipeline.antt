-- ===== src/Pipeline.antt =====
-- The `Pipeline` resource (api/v1alpha1/pipeline_types.go): the filters that run as containers.
use openfilter_pipelines_con.Base.{ℤ, Option, List, String}
use openfilter_pipelines_con.Kube.{EnvVar, ResourceRequirements}

pub data PipelineMode : Type 0 where
  batch stream unset : PipelineMode

pub record ConfigVar : Type 0 where
  pub name : String
  pub value : String

pub record Filter : Type 0 where
  pub name : String
  pub image : String
  pub config : List ConfigVar
  pub env : List EnvVar
  pub args : List String
  pub command : List String
  pub resources : Option ResourceRequirements
  pub image_pull_policy : String

pub record ServicePort : Type 0 where
  pub name : String
  pub port : ℤ
  pub target_port : Option ℤ
  pub protocol : String

pub record Pipeline : Type 0 where
  pub mode : PipelineMode
  pub filters : List Filter
  pub services : List ServicePort
  pub video_input_path : String
  pub image_pull_secrets : List String
