-- ===== src/Tests/Starts.antt =====
-- The start of an instance, on a queue that counts.
use openfilter_pipelines_con.Base.{ℕ, suc, pos, ◌≡◌, refl, Option, none, some, arith, subst}
use openfilter_pipelines_con.Go.{ok}
use openfilter_pipelines_con.Api.{PipelineInstance}
use openfilter_pipelines_con.Queue.{ValkeyClientInterface}
use openfilter_pipelines_con.Reconciler.{Reconciler}
use openfilter_pipelines_con.Batch.Init.{initialize_pipeline_instance}
use openfilter_pipelines_con.Batch.Init.Answers.{View, IsCounting, IsStoring, Outcome}
use openfilter_pipelines_con.Batch.Init.Outcome.{initialize-Outcome}
use openfilter_pipelines_con.Tests.Samples.{instance_a, source, quiet_queue, quiet_reconciler}

record Ledger : Type 0 where
  size : ℕ
  added : ℕ
  kept : Option PipelineInstance

abbrev ledger_queue : ValkeyClientInterface Ledger
ledger_queue =
    let q = quiet_queue Ledger in
    record q {
      get_stream_length = λ s w. (ok (pos w.size), w);
      enqueue_file_with_attempts =
          λ s run f n w. (ok "1-0", record w { size = suc w.size; added = suc w.added });
    }

abbrev ledger_reconciler : Reconciler Ledger
ledger_reconciler =
    let r = quiet_reconciler Ledger in
    let k = r.kube in
    record r {
      kube = record k { update_status = λ pi w. (ok tt, record w { kept = some pi }) };
      valkey = some ledger_queue;
    }

abbrev ledger_view : View Ledger
ledger_view = record { length = λ w. w.size; accepted = λ w. w.added; stored = λ w. w.kept }

ledger-IsStoring : IsStoring ledger_reconciler ledger_view
ledger-IsStoring = record {
  now_keeps = λ w. refl;
  secret_keeps = λ name ns w. refl;
  list_keeps = λ request w. refl;
  status_keeps = λ pi w. refl;
  status_stored = λ pi w h. refl;
}

ledger-IsCounting : IsCounting ledger_reconciler ledger_queue instance_a ledger_view
ledger-IsCounting = record {
  create_keeps = λ w. refl;
  length_answers = λ n w e. cc e;
  length_keeps = λ w. refl;
  enqueue_adds = λ f w h. (omega arith, omega arith);
  enqueue_keeps = λ f w. (omega arith, omega arith);
}

abbrev blank : Ledger
blank = record { size = 0; added = 0; kept = none }

only_queue :
    (q : ValkeyClientInterface Ledger)
    → ledger_reconciler.valkey ≡ some q
    → IsCounting ledger_reconciler q instance_a ledger_view
only_queue q e =
    let same : ledger_queue ≡ q = cc e in
    subst
      (λ (x : ValkeyClientInterface Ledger). IsCounting ledger_reconciler x instance_a ledger_view)
      same ledger-IsCounting

initialize-Outcome_example :
    Outcome ledger_reconciler ledger_view ledger-IsStoring blank
      (initialize_pipeline_instance ledger_reconciler instance_a source blank)
initialize-Outcome_example =
    initialize-Outcome ledger_reconciler ledger_view ledger-IsStoring instance_a source blank
      only_queue refl
