-- ===== src/Main/Settings.antt =====
-- What the manager's `main` (cmd/main.go) makes of its flags for the reconciler of instances:
-- `getEnvOrDefault`, the flags with their defaults, the checks, and the fields of the reconciler. `given`
-- holds the flags of the command line, as the package `flag` parses them. The servers, the tracer and
-- the clients are of libraries and stand in `base`.
pub mod Exports
use openfilter_pipelines_con.Base.{
  Option, none, some, List, [], ◌∷◌, String, str_eq, Dict, lookup, or_else, if◌then◌else◌,
}
use openfilter_pipelines_con.Go.{Result, ok, err, message, concat}
use openfilter_pipelines_con.Reconciler.{Reconciler}
use openfilter_pipelines_con.Main.{validate_telemetry_flags, parse_node_selector_labels}

pub record Flags : Type 0 where
  pub valkey_addr : String
  pub valkey_ns_secret_name : String
  pub claimer_image : String
  pub gpu_node_selector : String
  pub gpu_library_path : String
  pub gpu_bin_path : String
  pub telemetry_exporter_type : String
  pub telemetry_exporter_otlp_endpoint : String

unfoldable pub env_or_default : Dict String → String → String → String
env_or_default env key fallback =
    let value = or_else (lookup key env) "" in if str_eq value "" then fallback else value

-- A flag that the command line does not set has its default.
abbrev pub flag_value : Dict String → String → String → String
flag_value given name default = or_else (lookup name given) default

unfoldable pub parse_flags : Dict String → Dict String → Flags
unfolding env_or_default
parse_flags env given = record {
  valkey_addr = flag_value given "valkey-addr" (or_else (lookup "VALKEY_ADDR" env) "");
  valkey_ns_secret_name =
      flag_value given "valkey-ns-secret-name"
        (env_or_default env "VALKEY_NS_SECRET_NAME" "valkey-ns-credentials");
  claimer_image =
      flag_value given "claimer-image"
        (env_or_default env "CLAIMER_IMAGE" "plainsightai/openfilter-pipelines-claimer:latest");
  gpu_node_selector =
      flag_value given "gpu-node-selector" (env_or_default env "GPU_NODE_SELECTOR" "");
  gpu_library_path = flag_value given "gpu-library-path" (env_or_default env "GPU_LIBRARY_PATH" "");
  gpu_bin_path = flag_value given "gpu-bin-path" (env_or_default env "GPU_BIN_PATH" "");
  telemetry_exporter_type =
      flag_value given "telemetry-exporter-type" (env_or_default env "TELEMETRY_EXPORTER_TYPE" "");
  telemetry_exporter_otlp_endpoint =
      flag_value given "telemetry-exporter-otlp-endpoint"
        (env_or_default env "TELEMETRY_EXPORTER_OTLP_ENDPOINT" "");
}

module _ {W : Type 0} where
  unfoldable pub instance_reconciler : Reconciler W → Flags → Reconciler W
  instance_reconciler base f = record base {
    valkey_addr = f.valkey_addr;
    valkey_ns_secret_name = f.valkey_ns_secret_name;
    claimer_image = f.claimer_image;
    gpu_node_selector_labels = parse_node_selector_labels f.gpu_node_selector;
    gpu_library_path = f.gpu_library_path;
    gpu_bin_path = f.gpu_bin_path;
    telemetry_exporter_type = f.telemetry_exporter_type;
    telemetry_exporter_otlp_endpoint = f.telemetry_exporter_otlp_endpoint;
  }

  -- The manager exits where this is an error.
  unfoldable pub with_address : Reconciler W → Flags → Result (Reconciler W)
  unfolding instance_reconciler
  with_address base f =
      if str_eq f.valkey_addr ""
      then err (
          message (
            concat (
              "Valkey address is required. Set via --valkey-addr flag or "
              ∷ "VALKEY_ADDR environment variable" ∷ [])))
      else ok (instance_reconciler base f)

  unfoldable pub checked_reconciler : Reconciler W → Flags → Result (Reconciler W)
  unfolding with_address
  checked_reconciler base f =
      elim (validate_telemetry_flags base.quote f.telemetry_exporter_type
        f.telemetry_exporter_otlp_endpoint) [ err e ↦ err e | ok _ ↦ with_address base f ]

  unfoldable pub configure : Dict String → Dict String → Reconciler W → Result (Reconciler W)
  unfolding parse_flags checked_reconciler
  configure env given base = checked_reconciler base (parse_flags env given)
