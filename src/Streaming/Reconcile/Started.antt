-- ===== src/Streaming/Reconcile/Started.antt =====
-- The start time of an instance in stream mode
-- (internal/controller/pipelineinstance_controller_streaming.go) is set once.
use openfilter_pipelines_con.Base.{
  ℕ, ℤ, ◌≡◌, ◌∙◌, inl, inr, Option, none, some, String, is_some, if_cases,
}
use openfilter_pipelines_con.Go.{Result, ok, err, Result-cases, is_not_found}
use openfilter_pipelines_con.Api.{PipelineInstance, PipelineSource}
use openfilter_pipelines_con.Pipeline.{Pipeline}
use openfilter_pipelines_con.Kube.{Deployment}
use openfilter_pipelines_con.Reconciler.{Reconciler}
use openfilter_pipelines_con.Reconciler.Outcome.{CtrlResult, done, again, Outcome, updated}
use openfilter_pipelines_con.Streaming.Deployment.{
  Answer, init_streaming, deployment_name_of, build_streaming_deployment, create_deployment,
  patch_deployment, ensure_deployment, ensure_streaming_deployment, delete_streaming_deployment,
}
use openfilter_pipelines_con.Streaming.Services.{Groups, delete_filter_services}
use openfilter_pipelines_con.Streaming.Reconcile.{
  streaming_finalizer, clean_up, delete_instance, go_on, started, run, reconcile_streaming,
}
use openfilter_pipelines_con.Streaming.Reconcile.Pass.{IsPassKept, with_deployment-Holds}
use openfilter_pipelines_con.Streaming.Reconcile.Again.{streaming_from-start, start-some}

module _ {W : Type 0} (r : Reconciler W) (format : ℤ → String) (order : Groups → Groups)
    (s : ℕ) where
  abbrev pub HasStarted : PipelineInstance → Type 0
  HasStarted pi = pi.status.start_time ≡ some s

  abbrev Anything : W → Type 0
  Anything w = Unit {0}

  anything : IsPassKept r Anything
  anything = record {
    reads = record { by_now = λ w p. tt; by_get = λ n m w p. tt; by_pods = λ n k v w p. tt };
    services = record { by_get = λ n m w p. tt; by_create = λ d w p. tt; by_patch = λ b d w p. tt };
    deletions = record {
      by_deployment = λ n m w p. tt;
      by_list = λ n k v w p. tt;
      by_service = λ d w p. tt;
    };
    by_status = λ pi w p. tt;
  }

  updated-HasStarted :
      (result : CtrlResult) (pi : PipelineInstance) (w : W)
      → HasStarted pi
      → HasStarted (updated r result pi w).1
  unfolding updated
  updated-HasStarted result pi w h = elim (Result-cases (r.kube.update pi w).0) [
    | inl (u, e) ↦ rw (updated, e) h
    | inr (e, f) ↦ rw (updated, f) h
  ]

  create_deployment-HasStarted :
      (pi : PipelineInstance) (o : Result Deployment) (w : W)
      → HasStarted pi
      → HasStarted (create_deployment r pi o w).1
  unfolding create_deployment
  create_deployment-HasStarted pi (err e) w h = h
  create_deployment-HasStarted pi (ok d) w h =
      elim (Result-cases (r.kube.create_deployment d w).0) [
        | inl (u, e) ↦ rw (create_deployment, e) h
        | inr (e, f) ↦ rw (create_deployment, f) h
      ]

  patch_deployment-HasStarted :
      (pi : PipelineInstance) (found desired : Deployment) (w : W)
      → HasStarted pi
      → HasStarted (patch_deployment r pi found desired w).1
  unfolding patch_deployment
  patch_deployment-HasStarted pi found desired w h =
      let new = record found { labels = desired.labels; spec = desired.spec } in
      elim (Result-cases (r.kube.patch_deployment found new w).0) [
        | inl (u, e) ↦ rw (patch_deployment, e) h
        | inr (e, f) ↦ rw (patch_deployment, f) h
      ]

  ensure_deployment-HasStarted :
      (pi : PipelineInstance) (p : Pipeline) (source : Option PipelineSource) (w : W)
      → HasStarted pi
      → HasStarted (ensure_deployment r pi p source w).1
  unfolding ensure_deployment
  ensure_deployment-HasStarted pi p source w h =
      let got = r.kube.get_deployment (deployment_name_of pi) pi.namespace w in
      let desired = build_streaming_deployment r pi p source (deployment_name_of pi) in
      elim (Result-cases got.0) [
        | inl (d, e) ↦ rw (ensure_deployment, e) (patch_deployment-HasStarted pi d desired got.1 h)
        | inr (e, f) ↦
            rw (ensure_deployment, f)
              (if_cases (λ (a : Answer W). HasStarted a.1) (is_not_found e)
                (create_deployment-HasStarted pi (r.set_deployment_reference pi desired) got.1 h) h)
      ]

  delete_instance-HasStarted :
      (pi : PipelineInstance) (w : W)
      → HasStarted pi
      → HasStarted (delete_instance r format order pi w).1
  unfolding delete_instance clean_up
  delete_instance-HasStarted pi w h =
      let gone = delete_streaming_deployment r pi w in
      let left = delete_filter_services r pi gone.1 in
      if_cases (λ (out : Outcome W). HasStarted out.1)
        (r.contains_finalizer streaming_finalizer pi.finalizers)
        (elim (Result-cases gone.0) [
          | inr (e, f) ↦ rw (clean_up, f) h
          | inl (u, e) ↦ elim (Result-cases left.0) [
            | inr (x, f) ↦ rw (clean_up, e, f) h
            | inl (v, g) ↦ rw (clean_up, e, g) (updated-HasStarted done _ left.1 h)
          ]
        ])
        h

  go_on-HasStarted :
      (p : Pipeline) (source : Option PipelineSource) (pi : PipelineInstance) (w : W)
      → HasStarted pi
      → HasStarted (go_on r format order p source pi w).1
  unfolding go_on ensure_streaming_deployment
  go_on-HasStarted p source pi w h =
      let first = streaming_from-start pi.status.streaming pi ∙ h in
      if_cases (λ (out : Outcome W). HasStarted out.1)
        (r.contains_finalizer streaming_finalizer pi.finalizers)
        ((with_deployment-Holds r Anything anything format order s p source
          (ensure_streaming_deployment r pi p source w)
          (ensure_deployment-HasStarted (init_streaming pi) p source w first, tt)).0)
        (updated-HasStarted again _ w h)

  -- A pass in stream mode over an instance that has started keeps the start time, also in a deletion
  -- and whatever the cluster answers.
  pub reconcile_streaming-HasStarted :
      (pi : PipelineInstance) (p : Option Pipeline) (source : Option PipelineSource) (w : W)
      → HasStarted pi
      → HasStarted (reconcile_streaming r format order pi p source w).1
  unfolding reconcile_streaming run started
  reconcile_streaming-HasStarted pi none source w h =
      if_cases (λ (out : Outcome W). HasStarted out.1) (is_some pi.deletion_timestamp)
        (delete_instance-HasStarted pi w h) h
  reconcile_streaming-HasStarted pi (some p) source w h =
      let first = init_streaming pi in
      if_cases (λ (out : Outcome W). HasStarted out.1) (is_some pi.deletion_timestamp)
        (delete_instance-HasStarted pi w h)
        (rw (start-some r Anything anything format order s pi.status.start_time first w h)
          (go_on-HasStarted p source first w (streaming_from-start pi.status.streaming pi ∙ h)))
