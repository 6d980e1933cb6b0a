-- ===== src/Streaming/Reconcile/Again.antt =====
-- A Deployment that the idle timeout removed (`reconcileStreaming`,
-- internal/controller/pipelineinstance_controller_streaming.go) comes back with the next pass.
use openfilter_pipelines_con.Base.{
  ℕ, ℤ, ◌≡◌, refl, sym, ap, subst, ◌∙◌, inl, inr, true, false, Option, none, some, String, is_some,
}
use openfilter_pipelines_con.Go.{Result, ok, err, Error, Result-cases, is_not_found}
use openfilter_pipelines_con.Api.{PipelineInstance, PipelineSource, StreamingStatus}
use openfilter_pipelines_con.Pipeline.{Pipeline}
use openfilter_pipelines_con.Kube.{Deployment}
use openfilter_pipelines_con.Reconciler.{Reconciler}
use openfilter_pipelines_con.Streaming.Deployment.{
  streaming_from, init_streaming, deployment_name_of, build_streaming_deployment, create_deployment,
  ensure_deployment, ensure_streaming_deployment,
}
use openfilter_pipelines_con.Streaming.Services.{Groups}
use openfilter_pipelines_con.Streaming.Reconcile.{
  streaming_finalizer, go_on, start, started, run, with_deployment, reconcile_streaming,
}
use openfilter_pipelines_con.Streaming.Reconcile.Pass.{IsPassKept, Holds, with_deployment-Holds}

pub streaming_from-start :
    (o : Option StreamingStatus) (pi : PipelineInstance)
    → (streaming_from o pi).status.start_time ≡ pi.status.start_time
streaming_from-start (some st) pi = refl
streaming_from-start none pi = refl

streaming_from-finalizers :
    (o : Option StreamingStatus) (pi : PipelineInstance)
    → (streaming_from o pi).finalizers ≡ pi.finalizers
streaming_from-finalizers (some st) pi = refl
streaming_from-finalizers none pi = refl

streaming_from-names :
    (o : Option StreamingStatus) (pi : PipelineInstance)
    → (deployment_name_of (streaming_from o pi) ≡ deployment_name_of pi)
      × ((streaming_from o pi).namespace ≡ pi.namespace)
streaming_from-names (some st) pi = (refl, refl)
streaming_from-names none pi = (refl, refl)

streaming_from_twice :
    (o : Option StreamingStatus) (pi : PipelineInstance)
    → pi.status.streaming ≡ o
    → init_streaming (streaming_from o pi) ≡ streaming_from o pi
streaming_from_twice (some st) pi e = rw (e) refl
streaming_from_twice none pi e = refl

module _ {W : Type 0} (r : Reconciler W) (P : W → Type 0) (h : IsPassKept r P) (format : ℤ → String)
    (order : Groups → Groups) (s : ℕ) where
  pub start-some :
      (o : Option ℕ) (pi : PipelineInstance) (w : W)
      → o ≡ some s
      → start r format order o pi w ≡ (ok tt, pi, w)
  unfolding start
  start-some o pi w e = rw (e) refl

  go_on-finalizer :
      (pi : PipelineInstance) (p : Pipeline) (source : Option PipelineSource) (w : W)
      → r.contains_finalizer streaming_finalizer pi.finalizers ≡ true
      → go_on r format order p source pi w
        ≡ with_deployment r format order p source (ensure_streaming_deployment r pi p source w)
  unfolding go_on
  go_on-finalizer pi p source w e = rw (go_on, e) refl

  -- A pass over an instance that is running gets to its Deployment.
  running_pass :
      (pi : PipelineInstance) (p : Pipeline) (source : Option PipelineSource) (w : W)
      → is_some pi.deletion_timestamp ≡ false
      → r.contains_finalizer streaming_finalizer pi.finalizers ≡ true
      → pi.status.start_time ≡ some s
      → reconcile_streaming r format order pi (some p) source w
        ≡ with_deployment r format order p source
            (ensure_streaming_deployment r (init_streaming pi) p source w)
  unfolding reconcile_streaming run started
  running_pass pi p source w alive finalizer begun =
      let first = init_streaming pi in
      let same : first.finalizers ≡ pi.finalizers =
        streaming_from-finalizers pi.status.streaming pi in
      rw (reconcile_streaming, alive, start-some pi.status.start_time first w begun)
        (go_on-finalizer first p source w
          (ap (r.contains_finalizer streaming_finalizer) same ∙ finalizer))

  create_deployment-Holds :
      (pi : PipelineInstance) (o : Result Deployment) (d : Deployment) (w : W)
      → o ≡ ok d
      → pi.status.start_time ≡ some s
      → ((u : W) → P (r.kube.create_deployment d u).1)
      → let a = create_deployment r pi o w in Holds r P h format order s (a.1, a.2)
  unfolding create_deployment
  create_deployment-Holds pi o d w e begun makes =
      elim (Result-cases (r.kube.create_deployment d w).0) [
        | inl (u, f) ↦ rw (e, create_deployment, f) (begun, makes w)
        | inr (x, f) ↦ rw (e, create_deployment, f) (begun, makes w)
      ]

  ensured-Holds :
      (pi : PipelineInstance) (p : Pipeline) (source : Option PipelineSource) (w : W) (e : Error)
      (d : Deployment)
      → pi.status.start_time ≡ some s
      → (r.kube.get_deployment (deployment_name_of pi) pi.namespace w).0 ≡ err e
      → is_not_found e ≡ true
      → r.set_deployment_reference pi
          (build_streaming_deployment r pi p source (deployment_name_of pi))
        ≡ ok d
      → ((u : W) → P (r.kube.create_deployment d u).1)
      → let a = ensure_deployment r pi p source w in Holds r P h format order s (a.1, a.2)
  unfolding ensure_deployment
  ensured-Holds pi p source w e d begun gone absent referred makes =
      let desired = build_streaming_deployment r pi p source (deployment_name_of pi) in
      rw (ensure_deployment, gone, absent)
        (create_deployment-Holds pi (r.set_deployment_reference pi desired) d
          (r.kube.get_deployment (deployment_name_of pi) pi.namespace w).1 referred begun makes)

  -- A pass over an instance that runs in stream mode and is not being deleted asks the API server to create
  -- the Deployment whenever it finds none: any property that this request establishes and the later ones
  -- keep holds afterwards. The instance may be complete: its completion time and its conditions
  -- play no part. The pass keeps the start time.
  pub reconcile_streaming-creates :
      (pi : PipelineInstance) (p : Pipeline) (source : Option PipelineSource) (w : W) (e : Error)
      (d : Deployment)
      → is_some pi.deletion_timestamp ≡ false
      → r.contains_finalizer streaming_finalizer pi.finalizers ≡ true
      → pi.status.start_time ≡ some s
      → (r.kube.get_deployment (deployment_name_of pi) pi.namespace w).0 ≡ err e
      → is_not_found e ≡ true
      → let first = init_streaming pi in
        r.set_deployment_reference first
            (build_streaming_deployment r first p source (deployment_name_of pi))
          ≡ ok d
        → ((u : W) → P (r.kube.create_deployment d u).1)
        → let out = reconcile_streaming r format order pi (some p) source w in
          (out.1.status.start_time ≡ some s) × P out.2
  unfolding ensure_streaming_deployment
  reconcile_streaming-creates pi p source w e d alive finalizer begun gone absent referred makes =
      let first = init_streaming pi in
      let (names, spaces) = streaming_from-names pi.status.streaming pi in
      let twice = streaming_from_twice pi.status.streaming pi refl in
      let missing : (r.kube.get_deployment (deployment_name_of first) first.namespace w).0 ≡ err e =
        (λ i. (r.kube.get_deployment (names i) (spaces i) w).0) ∙ gone in
      let owned : r.set_deployment_reference first
            (build_streaming_deployment r first p source (deployment_name_of first))
          ≡ ok d =
        (λ i.
          r.set_deployment_reference first (build_streaming_deployment r first p source (names i)))
        ∙ referred in
      let made =
        ensured-Holds first p source w e d (streaming_from-start pi.status.streaming pi ∙ begun)
          missing absent owned makes in
      rw (running_pass pi p source w alive finalizer begun) (
        with_deployment-Holds r P h format order s p source
          (ensure_streaming_deployment r first p source w)
          (subst
            (λ (x : PipelineInstance).
              let a = ensure_deployment r x p source w in Holds r P h format order s (a.1, a.2))
            (sym twice) made))
