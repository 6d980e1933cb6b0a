-- ===== src/Main/Settings/Exports.antt =====
-- What a manager that gets through its checks (cmd/main.go) does for a filter's telemetry.
use openfilter_pipelines_con.Base.{
  ◌≡◌, ◌≢◌, subst, ap, inl, inr, true, Bool-cases, String, str_eq, Dict, arith, eq_iff,
}
use openfilter_pipelines_con.Go.{ok, is_ok, Result-cases}
use openfilter_pipelines_con.Api.{PipelineInstance}
use openfilter_pipelines_con.Reconciler.{Reconciler}
use openfilter_pipelines_con.Main.{validate_telemetry_flags}
use openfilter_pipelines_con.Main.Telemetry.{HasExporter, validate_telemetry_flags-exports}
use openfilter_pipelines_con.Main.Settings.{
  Flags, parse_flags, instance_reconciler, with_address, checked_reconciler, configure,
}

module _ {W : Type 0} (base : Reconciler W) where
  -- The checks passed, and the reconciler has the values of the flags.
  checked_reconciler-ok :
      (f : Flags) (r : Reconciler W)
      → checked_reconciler base f ≡ ok r
      → (is_ok (
            validate_telemetry_flags base.quote f.telemetry_exporter_type
              f.telemetry_exporter_otlp_endpoint)
          ≡ true)
        × (f.valkey_addr ≢ "")
        × (instance_reconciler base f ≡ r)
  unfolding checked_reconciler with_address
  checked_reconciler-ok f r h =
      let checked =
        validate_telemetry_flags base.quote f.telemetry_exporter_type
          f.telemetry_exporter_otlp_endpoint in
      elim (Result-cases checked) [
        | inr (e, failed) ↦ let bad = rw (failed, checked_reconciler) at h in absurd (cc bad)
        | inl (u, passed) ↦
            let rest = rw (passed, checked_reconciler) at h in
            elim (Bool-cases (str_eq f.valkey_addr "")) [
              | inl missing ↦ let bad = rw (missing, with_address) at rest in absurd (cc bad)
              | inr there ↦
                  let same = rw (there, with_address) at rest in
                  (ap is_ok passed, ground (arith, eq_iff f.valkey_addr ""), cc same)
            ]
      ]

  -- A manager that starts has the address of the queue, and gives the filters of each instance either
  -- none of the three variables of the exporter, or all of them, with a type and an
  -- endpoint that are not empty.
  pub configure-HasExporter :
      (env given : Dict String) (r : Reconciler W) (pi : PipelineInstance)
      → configure env given base ≡ ok r
      → (r.valkey_addr ≢ "") × HasExporter r pi
  unfolding configure instance_reconciler
  configure-HasExporter env given r pi h =
      let f = parse_flags env given in
      let (passed, there, same) = checked_reconciler-ok f r h in
      subst (λ (x : Reconciler W). (x.valkey_addr ≢ "") × HasExporter x pi) same
        (there, validate_telemetry_flags-exports (instance_reconciler base f) pi passed)
