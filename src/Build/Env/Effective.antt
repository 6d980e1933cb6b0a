-- ===== src/Build/Env/Effective.antt =====
-- Which of several entries of one name a container sees: the last one.
use openfilter_pipelines_con.Base.{
  ◌≡◌, Option, none, some, List, [], ◌∷◌, ◌++◌, String, str_eq, arith, if◌then◌else◌, map,
}
use openfilter_pipelines_con.Api.{PipelineInstance}
use openfilter_pipelines_con.Kube.{EnvVar, EnvValue}
use openfilter_pipelines_con.Pipeline.{Filter}
use openfilter_pipelines_con.Reconciler.{Reconciler}
use openfilter_pipelines_con.Build.Env.{config_var, gpu_vars, tracing_env_vars, filter_env}

-- The first of the two that is there.
abbrev pub or : Option EnvValue → Option EnvValue → Option EnvValue
or (some v) o = some v
or none o = o

-- The value of the last entry of the name, as the kubelet resolves it.
abbrev pub effective : String → List EnvVar → Option EnvValue
effective name [] = none
effective name (e ∷ es) = or (effective name es) (if str_eq e.name name then some e.value else none)

pub effective-append :
    (name : String) (xs ys : List EnvVar)
    → effective name (xs ++ ys) ≡ or (effective name ys) (effective name xs)
effective-append name [] ys = ground arith
effective-append name (x ∷ xs) ys = ground (arith, effective-append name xs ys)

-- A variable that the user sets for a filter has the user's value in the container; any other one has
-- the value of the trace and exporter settings, then of the GPU paths, then of the configuration.
pub effective-filter_env :
    {W : Type 0} (r : Reconciler W) (pi : PipelineInstance) (f : Filter) (name : String)
    → effective name (filter_env r pi f)
      ≡ or (effective name f.env) (
          or (effective name (tracing_env_vars r pi)) (
            or
              (effective name (gpu_vars r f.resources))
              (effective name (map (config_var r) f.config))))
unfolding filter_env
effective-filter_env r pi f name = ground (
  arith,
  effective-append name
      (map (config_var r) f.config ++ (gpu_vars r f.resources ++ tracing_env_vars r pi)) f.env,
  effective-append name (map (config_var r) f.config)
      (gpu_vars r f.resources ++ tracing_env_vars r pi),
  effective-append name (gpu_vars r f.resources) (tracing_env_vars r pi),
)
