-- ===== src/Tests/Builds.antt =====
-- What is built for an instance, and the credentials of its namespace.
use openfilter_pipelines_con.Base.{
  ◌≡◌, ◌∙◌, refl, ap, arith, List, Option, ◌++◌, or_else, none, false, Dict, str_eq, true, ◌&&◌,
  inl, inr, map, some, [], ◌∷◌, String, lookup, is_some, if◌then◌else◌,
}
use openfilter_pipelines_con.Go.{ok, is_ok}
use openfilter_pipelines_con.Api.{BucketSource, PipelineSource}
use openfilter_pipelines_con.Kube.{EnvVar, EnvValue, plain, field_ref, secret_key_ref}
use openfilter_pipelines_con.Build.Env.{filter_env, tracing_env_vars, gpu_vars, config_var}
use openfilter_pipelines_con.Build.Env.Effective.{effective, or, effective-filter_env}
use openfilter_pipelines_con.Build.Job.{claimer_env}
use openfilter_pipelines_con.Build.Job.Agreement.{
  IsEnvironment, claimer_config, load_config-claimer_env,
}
use openfilter_pipelines_con.Claimer.Config.{getenv, load_config}
use openfilter_pipelines_con.Build.Labels.{merge_labels_from_cr, propagated_labels}
use openfilter_pipelines_con.Build.Labels.Whitelist.{is_listed, lookup-merge_labels_from_cr}
use openfilter_pipelines_con.Reconciler.Credentials.{
  secret_name, ensure_namespace_valkey_credentials,
}
use openfilter_pipelines_con.Reconciler.Credentials.Grant.{IsGranted, ensure-IsGranted}
use openfilter_pipelines_con.Reconciler.Cleanup.{cleanup_namespace_valkey_credentials}
use openfilter_pipelines_con.Reconciler.Cleanup.Ownership.{cleanup-keeps}
use openfilter_pipelines_con.Tests.Samples.{
  instance_a, instance_b, pipeline, filter_one, quiet_queue, quiet_reconciler,
}
use openfilter_pipelines_con.Tests.Vault.{
  Vault, vault_queue, vault_reconciler, vault_view, vault-IsFaithful,
}

-- The kubelet, for a pod of team-a.
abbrev kubelet : EnvValue → String
kubelet (plain t) = t
kubelet (field_ref path) = if str_eq path "metadata.name" then "pod-0" else "team-a"
kubelet (secret_key_ref name key) = "secret"

abbrev bucket_a : BucketSource
bucket_a = record {
  name = "videos";
  prefix = "";
  endpoint = "http://minio:9000";
  region = "";
  credentials_secret = none;
  insecure_skip_tls_verify = false;
  use_path_style = true;
}

abbrev from_bucket : PipelineSource
from_bucket = record { bucket = some bucket_a; rtsp = none }

abbrev told : List EnvVar
told = claimer_env (quiet_reconciler (Unit {0})) instance_a pipeline from_bucket

-- The last entry of a name comes first.
abbrev process_env : List EnvVar → Dict String
process_env [] = []
process_env (v ∷ vs) = process_env vs ++ ((v.name, kubelet v.value) ∷ [])

lookup-last :
    (name : String) (d : Dict String) (v : EnvVar) (rest : String)
    → or_else (lookup name (d ++ ((v.name, kubelet v.value) ∷ []))) rest
      ≡ or_else (lookup name d) (if str_eq v.name name then kubelet v.value else rest)
unfolding lookup
lookup-last name [] v rest = ground arith
lookup-last name ((key, t) ∷ d) v rest = ground (arith, lookup-last name d v rest)

abbrev read : Option EnvValue → String → String
read none rest = rest
read (some v) rest = kubelet v

lookup-process_env :
    (name : String) (vs : List EnvVar) (rest : String)
    → or_else (lookup name (process_env vs)) rest ≡ read (effective name vs) rest
unfolding lookup
lookup-process_env name [] rest = refl
lookup-process_env name (v ∷ vs) rest =
    lookup-last name (process_env vs) v rest
    ∙ lookup-process_env name vs (if str_eq v.name name then kubelet v.value else rest)
    ∙ ground arith

process_env-IsEnvironment : (vs : List EnvVar) → IsEnvironment kubelet vs (process_env vs)
unfolding getenv
process_env-IsEnvironment vs name = lookup-process_env name vs "" ∙ ground arith

load_config-claimer_env_example :
    load_config (process_env told)
    ≡ ok (claimer_config kubelet (quiet_reconciler (Unit {0})) instance_a pipeline bucket_a)
load_config-claimer_env_example =
    load_config-claimer_env kubelet (quiet_reconciler (Unit {0})) instance_a pipeline bucket_a none
      (process_env told) (λ name t h. refl) (process_env-IsEnvironment told) (λ e. cc e)

effective-filter_env_example :
    let r = quiet_reconciler (Unit {0}) in
    effective "FILTER_THRESHOLD" (filter_env r instance_a filter_one)
    ≡ or (effective "FILTER_THRESHOLD" filter_one.env) (
        or (effective "FILTER_THRESHOLD" (tracing_env_vars r instance_a)) (
          or
            (effective "FILTER_THRESHOLD" (gpu_vars r filter_one.resources))
            (effective "FILTER_THRESHOLD" (map (config_var r) filter_one.config))))
effective-filter_env_example =
    effective-filter_env (quiet_reconciler (Unit {0})) instance_a filter_one "FILTER_THRESHOLD"

lookup-merge_labels_from_cr_example :
    lookup "app" (merge_labels_from_cr (("app", "filter") ∷ []) instance_a) ≡ (
      if is_listed "app" propagated_labels && is_some (lookup "app" instance_a.labels)
      then lookup "app" instance_a.labels
      else lookup "app" (("app", "filter") ∷ []))
lookup-merge_labels_from_cr_example =
    lookup-merge_labels_from_cr (("app", "filter") ∷ []) instance_a "app"

abbrev empty_vault : Vault
empty_vault = record { secrets = []; users = [] }

ensured :
    is_ok (ensure_namespace_valkey_credentials vault_reconciler vault_queue "team-a" empty_vault).0
    ≡ true
unfolding ensure_namespace_valkey_credentials lookup
ensured = refl

ensure-IsGranted_example :
    IsGranted vault_view
      (secret_name vault_reconciler vault_queue)
      "team-a"
      (ensure_namespace_valkey_credentials vault_reconciler vault_queue "team-a" empty_vault).1
ensure-IsGranted_example =
    ensure-IsGranted vault_reconciler vault_queue vault_view vault-IsFaithful "team-a" empty_vault
      ensured

cleanup-keeps_example :
    let out =
      cleanup_namespace_valkey_credentials
        (quiet_reconciler String)
        (quiet_queue String)
        instance_a
        "untouched" in
    (out.0 ≡ ok tt) × (out.1 ≡ "untouched")
cleanup-keeps_example =
    cleanup-keeps (quiet_reconciler String) (quiet_queue String) (λ w. w ≡ "untouched") instance_a
      "untouched" (instance_a ∷ record instance_b { namespace = "team-a" } ∷ []) (λ u p. p) refl
      (inr (inl (λ e. cc (ap (λ s. str_eq s "0a1b") e), refl))) refl
