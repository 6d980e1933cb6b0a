-- ===== src/Tests/Flags.antt =====
-- What the manager reads from its flags and from annotations.
use openfilter_pipelines_con.Base.{Dict, ◌≡◌, ◌≢◌, refl, none, [], ◌∷◌, String, lookup}
use openfilter_pipelines_con.Api.{PipelineInstance}
use openfilter_pipelines_con.Reconciler.{Reconciler}
use openfilter_pipelines_con.Build.Env.{tracing_env_vars}
use openfilter_pipelines_con.Build.Env.Effective.{effective}
use openfilter_pipelines_con.Main.{
  parse_node_selector_labels, validate_telemetry_flags, trim_space, trim_left, trim_right,
}
use openfilter_pipelines_con.Main.Labels.{
  IsClean, print_labels, insert_all, parse_node_selector_labels-print,
}
use openfilter_pipelines_con.Main.Telemetry.{HasExporter}
use openfilter_pipelines_con.Main.Settings.{
  parse_flags, instance_reconciler, configure, env_or_default,
}
use openfilter_pipelines_con.Main.Settings.Exports.{configure-HasExporter}
use openfilter_pipelines_con.Tracing.{trace_carrier}
use openfilter_pipelines_con.Tracing.Context.{as_value, trace_carrier-tracing_env_vars}
use openfilter_pipelines_con.Tests.Samples.{instance_a, quiet_reconciler}

gpu_IsClean : IsClean ("gpu", "yes")
unfolding trim_space trim_left trim_right
gpu_IsClean = record {
  has_key = λ e. cc e;
  no_equals = ((λ e. cc e), ((λ e. cc e), ((λ e. cc e), tt)));
  no_comma = (
    (λ e. cc e),
    ((λ e. cc e), ((λ e. cc e), ((λ e. cc e), ((λ e. cc e), ((λ e. cc e), ((λ e. cc e), tt)))))),
  );
  no_space = refl;
}

parse_node_selector_labels-print_example :
    parse_node_selector_labels (print_labels (("gpu", "yes") ∷ []))
    ≡ insert_all (("gpu", "yes") ∷ []) []
parse_node_selector_labels-print_example =
    parse_node_selector_labels-print (("gpu", "yes") ∷ []) (gpu_IsClean, tt)

abbrev traced_instance : PipelineInstance
traced_instance = record instance_a {
  annotations =
      ("traces.opentelemetry.io/traceparent", "00-1-2-01")
      ∷ ("traces.opentelemetry.io/baggage", "user.id=3")
      ∷ [];
}

trace_carrier-tracing_env_vars_example :
    let r = quiet_reconciler (Unit {0}) in
    let carried = λ (key : String). lookup key (trace_carrier traced_instance) in
    let seen = λ (name : String). effective name (tracing_env_vars r traced_instance) in
    (seen "TRACEPARENT" ≡ as_value (carried "traceparent"))
    × (seen "TRACESTATE" ≡ as_value (carried "tracestate"))
    × (carried "traceparent" ≡ none → carried "tracestate" ≡ none)
trace_carrier-tracing_env_vars_example =
    trace_carrier-tracing_env_vars (quiet_reconciler (Unit {0})) traced_instance

abbrev flags : Dict String
flags =
    ("valkey-addr", "valkey:6379")
    ∷ ("telemetry-exporter-type", "otlp_grpc")
    ∷ ("telemetry-exporter-otlp-endpoint", "collector:4317")
    ∷ []

abbrev configured : Reconciler (Unit {0})
configured = instance_reconciler (quiet_reconciler (Unit {0})) (parse_flags [] flags)

configure-HasExporter_example : (configured.valkey_addr ≢ "") × HasExporter configured instance_a
unfolding configure parse_flags instance_reconciler validate_telemetry_flags lookup env_or_default
configure-HasExporter_example =
    configure-HasExporter (quiet_reconciler (Unit {0})) [] flags configured instance_a refl
