-- ===== src/Build/Env.antt =====
-- The environment of a filter container, and `tracingEnvVars`
-- (internal/controller/pipelineinstance_controller.go).
pub mod Effective
use openfilter_pipelines_con.Base.{
  Bool, false, Option, none, some, List, [], ◌∷◌, ◌++◌, String, str_eq, Dict, lookup, or_else, map,
  if◌then◌else◌, ◌&&◌,
}
use openfilter_pipelines_con.Go.{concat}
use openfilter_pipelines_con.Api.{PipelineInstance}
use openfilter_pipelines_con.Kube.{EnvVar, EnvValue, plain, ResourceRequirements}
use openfilter_pipelines_con.Pipeline.{Filter, ConfigVar}
use openfilter_pipelines_con.Reconciler.{Reconciler}
use openfilter_pipelines_con.Build.Gpu.{container_resources_require_gpu}

abbrev pub env : String → String → EnvVar
env name value = record { name = name; value = plain value }

-- An annotation that is there and not empty.
abbrev pub annotation : PipelineInstance → String → String
annotation pi key = or_else (lookup key pi.annotations) ""

abbrev pub env_unless_empty : String → String → List EnvVar
env_unless_empty name value = if str_eq value "" then [] else env name value ∷ []

module _ {W : Type 0} (r : Reconciler W) where
  unfoldable pub trace_vars : PipelineInstance → List EnvVar
  trace_vars pi =
      let parent = annotation pi "traces.opentelemetry.io/traceparent" in
      if str_eq parent ""
      then []
      else env "TRACEPARENT" parent
        ∷ env_unless_empty "TRACESTATE" (annotation pi "traces.opentelemetry.io/tracestate")

  unfoldable pub exporter_vars : List EnvVar
  exporter_vars =
      if str_eq r.telemetry_exporter_type ""
      then []
      else env "TELEMETRY_EXPORTER_ENABLED" "true"
        ∷ env "TELEMETRY_EXPORTER_TYPE" r.telemetry_exporter_type
        ∷ env "TELEMETRY_EXPORTER_OTLP_ENDPOINT" r.telemetry_exporter_otlp_endpoint
        ∷ []

  unfoldable pub tracing_env_vars : PipelineInstance → List EnvVar
  unfolding trace_vars exporter_vars
  tracing_env_vars pi = env "PIPELINE_INSTANCE_UID" pi.uid ∷ (trace_vars pi ++ exporter_vars)

  abbrev needs_gpu : Option ResourceRequirements → Bool
  needs_gpu none = false
  needs_gpu (some resources) = container_resources_require_gpu resources

  -- The paths of the NVIDIA libraries, where they are configured.
  unfoldable pub gpu_vars : Option ResourceRequirements → List EnvVar
  gpu_vars resources =
      if needs_gpu resources
      then env_unless_empty "LD_LIBRARY_PATH" r.gpu_library_path
        ++ env_unless_empty "OPENFILTER_APPEND_PATH" r.gpu_bin_path
      else []

  abbrev pub config_var : ConfigVar → EnvVar
  config_var c = env (concat ("FILTER_" ∷ r.to_upper c.name ∷ [])) c.value

  -- Configuration, GPU paths and tracing first, what the user sets last.
  unfoldable pub filter_env : PipelineInstance → Filter → List EnvVar
  unfolding gpu_vars
  filter_env pi f =
      (map config_var f.config ++ (gpu_vars f.resources ++ tracing_env_vars pi)) ++ f.env
