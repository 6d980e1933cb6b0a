-- ===== src/Streaming/Reconcile/Released.antt =====
-- The finalizer of stream mode (`reconcileStreaming`,
-- internal/controller/pipelineinstance_controller_streaming.go) goes last.
use openfilter_pipelines_con.Base.{
  ℤ, ◌≡◌, refl, sym, ap, subst, ◌∙◌, ◌⊎◌, inl, inr, true, false, Option, List, [], ◌∷◌, String,
  str_eq, is_some, Bool-cases,
}
use openfilter_pipelines_con.Go.{
  Result, is_ok, is_not_found, Result-cases, wrapping, world-wrapping, bind-ok, bind-err,
}
use openfilter_pipelines_con.Api.{PipelineInstance, PipelineSource}
use openfilter_pipelines_con.Pipeline.{Pipeline}
use openfilter_pipelines_con.Kube.{Service}
use openfilter_pipelines_con.Reconciler.{Reconciler}
use openfilter_pipelines_con.Reconciler.Outcome.{done, Outcome, updated}
use openfilter_pipelines_con.Streaming.Deployment.{delete_named, delete_streaming_deployment}
use openfilter_pipelines_con.Streaming.Services.{Groups, delete_services, delete_filter_services}
use openfilter_pipelines_con.Streaming.Reconcile.{
  streaming_finalizer, clean_up, delete_instance, reconcile_streaming,
}
use openfilter_pipelines_con.Streaming.Reconcile.Deletion.{
  View, IsFaithful, IsGone, status_name, delete_named-gone, delete_filter_services-IsGone,
}

-- The requests of a cleanup other than the update keep the property.
pub record IsKept {W : Type 0} (r : Reconciler W) (P : W → Type 0) : Type 0 where
  pub by_deployment : (name ns : String) (w : W) → P w → P (r.kube.delete_deployment name ns w).1
  pub by_list : (ns key value : String) (w : W) → P w → P (r.kube.list_services ns key value w).1
  pub by_service : (s : Service) (w : W) → P w → P (r.kube.delete_service s w).1

module _ {W : Type 0} (r : Reconciler W) (P : W → Type 0) (k : IsKept r P) where
  pub delete_named-kept : (name ns : String) (w : W) → P w → P (delete_named r name ns w).1
  unfolding delete_named
  delete_named-kept name ns w p = elim (Bool-cases (str_eq name "")) [
    | inl unnamed ↦ rw (delete_named, unnamed) p
    | inr named ↦
        let q = k.by_deployment name ns w p in
        elim (Result-cases (r.kube.delete_deployment name ns w).0) [
          | inl (u, e) ↦ rw (delete_named, named, e) q
          | inr (e, f) ↦ elim (Bool-cases (is_not_found e)) [
            | inl absent ↦ rw (delete_named, named, f, absent) q
            | inr other ↦ rw (delete_named, named, f, other) q
          ]
        ]
  ]

  delete_services-kept : (ss : List Service) (w : W) → P w → P (delete_services r ss w).1
  unfolding delete_services
  delete_services-kept [] w p = p
  delete_services-kept (s ∷ ss) w p =
      let q = k.by_service s w p in
      let u = (r.kube.delete_service s w).1 in
      elim (Result-cases (r.kube.delete_service s w).0) [
        | inl (x, e) ↦ rw (delete_services, e) (delete_services-kept ss u q)
        | inr (e, f) ↦ elim (Bool-cases (is_not_found e)) [
          | inl absent ↦ rw (delete_services, f, absent) (delete_services-kept ss u q)
          | inr other ↦ rw (delete_services, f, other) q
        ]
      ]

  pub delete_filter_services-kept :
      (pi : PipelineInstance) (w : W) → P w → P (delete_filter_services r pi w).1
  unfolding delete_filter_services
  delete_filter_services-kept pi w p =
      let list = r.kube.list_services pi.namespace "pipelineinstance" pi.name in
      let text : String = "failed to list services" in
      let m = wrapping text list in
      let q =
        subst P (sym (world-wrapping text list w))
          (k.by_list pi.namespace "pipelineinstance" pi.name w p) in
      elim (Result-cases (m w).0) [
        | inl (ss, e) ↦
            subst (λ (x : Result (Unit {0}) × W). P x.1)
              (sym (bind-ok m (delete_services r) w ss e)) (delete_services-kept ss (m w).1 q)
        | inr (e, f) ↦
            subst (λ (x : Result (Unit {0}) × W). P x.1)
              (sym (bind-err m (delete_services r) w e f)) q
      ]

module _ {W : Type 0} (r : Reconciler W) (v : View W) (h : IsFaithful r v) (P : W → Type 0)
    (k : IsKept r P) (format : ℤ → String) (order : Groups → Groups) where
  -- Nothing is left, or the update was not sent and the answer is an error.
  abbrev IsSafe : PipelineInstance → Outcome W → Type 0
  IsSafe pi out = IsGone v pi out.2 ⊎ ((is_ok out.0 ≡ false) × P out.2)

  updated-IsGone :
      (pi next : PipelineInstance) (w : W) → IsGone v pi w → IsGone v pi (updated r done next w).2
  unfolding updated
  updated-IsGone pi next w (gone, rest) =
      let (ds, ss) = h.update_keeps next w in
      let kept : IsGone v pi (r.kube.update next w).1 = (
        λ named.
            ap (λ (d : String → String → Option _). d (status_name pi) pi.namespace) ds
            ∙ gone named,
        λ n s there.
            rest n s (sym (ap (λ (d : String → String → Option _). d n pi.namespace) ss) ∙ there),
      ) in
      elim (Result-cases (r.kube.update next w).0) [
        | inl (u, e) ↦ rw (updated, e) kept
        | inr (e, f) ↦ rw (updated, f) kept
      ]

  clean_up-IsSafe : (pi : PipelineInstance) (w : W) → P w → IsSafe pi (clean_up r format order pi w)
  unfolding clean_up delete_streaming_deployment
  clean_up-IsSafe pi w p =
      let first = delete_named r (status_name pi) pi.namespace w in
      let q = delete_named-kept r P k (status_name pi) pi.namespace w p in
      let second = delete_filter_services r pi first.1 in
      elim (Result-cases first.0) [
        | inr (e, f) ↦ rw (clean_up, delete_streaming_deployment, f) (inr (refl, q))
        | inl (u, e) ↦ elim (Result-cases second.0) [
          | inr (e', f) ↦
              rw (clean_up, delete_streaming_deployment, e, f)
                (inr (refl, delete_filter_services-kept r P k pi first.1 q))
          | inl (u', e') ↦
              rw (clean_up, delete_streaming_deployment, e, e')
                (inl (
                  updated-IsGone pi _ second.1 (
                    delete_filter_services-IsGone r v h pi first.1 (ap is_ok e')
                      (delete_named-gone r v h (status_name pi) pi.namespace w (ap is_ok e)))))
        ]
      ]

  -- A pass over an instance that is being deleted and has the finalizer of stream mode ends in one of two
  -- ways: neither the Deployment that the status names is left, nor a Service with the instance's label; or
  -- the answer is an error and the instance was not updated, so that it keeps the finalizer (each
  -- property that all requests of the pass but the update keep still holds). The requests do what is
  -- documented.
  pub reconcile_streaming-releases :
      (pi : PipelineInstance) (p : Option Pipeline) (source : Option PipelineSource) (w : W)
      → is_some pi.deletion_timestamp ≡ true
      → r.contains_finalizer streaming_finalizer pi.finalizers ≡ true
      → P w
      → let out = reconcile_streaming r format order pi p source w in
        IsGone v pi out.2 ⊎ ((is_ok out.0 ≡ false) × P out.2)
  unfolding reconcile_streaming delete_instance
  reconcile_streaming-releases pi p source w deleted finalizer holds =
      rw (reconcile_streaming, deleted, delete_instance, finalizer) (clean_up-IsSafe pi w holds)
