-- ===== src/Streaming/Reconcile/Progress.antt =====
-- When the requests are answered, `reconcileStreaming`
-- (internal/controller/pipelineinstance_controller_streaming.go) cleans up an instance that is being
-- deleted, and takes its finalizer off.
use openfilter_pipelines_con.Base.{
  ℤ, ◌≡◌, refl, sym, ap, ◌∙◌, inl, inr, ◌⊎◌, true, false, none, List, [], ◌∷◌, String, str_eq,
  Bool-cases, is_some,
}
use openfilter_pipelines_con.Go.{
  Result, ok, is_ok, is_not_found, Result-cases, IsAnswered, wrapping, bind-ok, is_ok-wrapping,
}
use openfilter_pipelines_con.Api.{PipelineInstance}
use openfilter_pipelines_con.Kube.{Service}
use openfilter_pipelines_con.Reconciler.{Reconciler, with_finalizers}
use openfilter_pipelines_con.Reconciler.Outcome.{done, updated}
use openfilter_pipelines_con.Streaming.Deployment.{delete_named, delete_streaming_deployment}
use openfilter_pipelines_con.Streaming.Services.{Groups, delete_services, delete_filter_services}
use openfilter_pipelines_con.Streaming.Reconcile.{
  streaming_finalizer, clean_up, delete_instance, reconcile_streaming,
}
use openfilter_pipelines_con.Streaming.Reconcile.Deletion.{status_name}
use openfilter_pipelines_con.Streaming.Reconcile.Released.{
  IsKept, delete_named-kept, delete_filter_services-kept,
}

-- The requests of the cleanup are answered.
pub record IsStreamServing {W : Type 0} (r : Reconciler W) : Type 0 where
  pub deletes_deployment :
      (name ns : String) (w : W) → IsAnswered (r.kube.delete_deployment name ns w).0
  pub lists_services :
      (ns key value : String) (w : W) → is_ok (r.kube.list_services ns key value w).0 ≡ true
  pub deletes_service : (s : Service) (w : W) → IsAnswered (r.kube.delete_service s w).0

module _ {W : Type 0} (r : Reconciler W) (h : IsStreamServing r) where
  delete_named-done : (name ns : String) (w : W) → (delete_named r name ns w).0 ≡ ok tt
  unfolding delete_named
  delete_named-done name ns w = elim (Bool-cases (str_eq name "")) [
    | inl unnamed ↦ rw (delete_named, unnamed) refl
    | inr named ↦
        let answered = h.deletes_deployment name ns w in
        elim (Result-cases (r.kube.delete_deployment name ns w).0) [
          | inl (u, e) ↦ rw (delete_named, named, e) refl
          | inr (x, e) ↦
              let absent : is_not_found x ≡ true = rw (e) at answered in
              rw (delete_named, named, e, absent) refl
        ]
  ]

  delete_services-done : (ss : List Service) (w : W) → (delete_services r ss w).0 ≡ ok tt
  unfolding delete_services
  delete_services-done [] w = refl
  delete_services-done (s ∷ ss) w =
      let answered = h.deletes_service s w in
      let u = (r.kube.delete_service s w).1 in
      elim (Result-cases (r.kube.delete_service s w).0) [
        | inl (x, e) ↦ rw (delete_services, e) (delete_services-done ss u)
        | inr (x, e) ↦
            let absent : is_not_found x ≡ true = rw (e) at answered in
            rw (delete_services, e, absent) (delete_services-done ss u)
      ]

  delete_filter_services-done :
      (pi : PipelineInstance) (w : W) → (delete_filter_services r pi w).0 ≡ ok tt
  unfolding delete_filter_services
  delete_filter_services-done pi w =
      let list = r.kube.list_services pi.namespace "pipelineinstance" pi.name in
      let text : String = "failed to list services" in
      let m = wrapping text list in
      let good =
        is_ok-wrapping text list w ∙ h.lists_services pi.namespace "pipelineinstance" pi.name w in
      elim (Result-cases (m w).0) [
        | inl (ss, e) ↦
            ap (λ (p : Result (Unit {0}) × W). p.0) (bind-ok m (delete_services r) w ss e)
            ∙ delete_services-done ss (m w).1
        | inr (x, e) ↦ let bad = sym (ap is_ok e) ∙ good in cc bad
      ]

  -- An instance with the finalizer is cleaned up, and updated without it in a world where each property
  -- still holds that the requests of the cleanup keep.
  pub clean_up-updates :
      (P : W → Type 0) (k : IsKept r P) (format : ℤ → String) (order : Groups → Groups)
      (pi : PipelineInstance) (w : W)
      → P w
      → (u : W) × P u
        × (clean_up r format order pi w
            ≡ updated r done
                (with_finalizers pi (r.remove_finalizer streaming_finalizer pi.finalizers))
                u)
  unfolding clean_up delete_streaming_deployment
  clean_up-updates P k format order pi w p =
      let first = delete_named r (status_name pi) pi.namespace w in
      let deleted = delete_named-done (status_name pi) pi.namespace w in
      let q = delete_named-kept r P k (status_name pi) pi.namespace w p in
      let second = delete_filter_services r pi first.1 in
      (
        second.1,
        delete_filter_services-kept r P k pi first.1 q,
        rw (clean_up, delete_streaming_deployment, deleted, delete_filter_services-done pi first.1)
            refl,
      )

  -- So a pass over an instance that is being deleted does just this, or nothing where the finalizer is
  -- not there.
  pub reconcile_streaming-deleted :
      (P : W → Type 0) (k : IsKept r P) (format : ℤ → String) (order : Groups → Groups)
      (pi : PipelineInstance) (w : W)
      → is_some pi.deletion_timestamp ≡ true
      → P w
      → ((r.contains_finalizer streaming_finalizer pi.finalizers ≡ false)
          × (reconcile_streaming r format order pi none none w ≡ (ok done, pi, w)))
        ⊎ ((u : W) × P u
            × (reconcile_streaming r format order pi none none w
                ≡ updated r done
                    (with_finalizers pi (r.remove_finalizer streaming_finalizer pi.finalizers))
                    u))
  unfolding reconcile_streaming delete_instance
  reconcile_streaming-deleted P k format order pi w deleted p =
      elim (Bool-cases (r.contains_finalizer streaming_finalizer pi.finalizers)) [
        | inr off ↦ inl (off, rw (reconcile_streaming, deleted, delete_instance, off) refl)
        | inl on ↦
            let (u, q, same) = clean_up-updates P k format order pi w p in
            inr (u, q, rw (reconcile_streaming, deleted, delete_instance, on) same)
      ]
