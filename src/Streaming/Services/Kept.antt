-- ===== src/Streaming/Services/Kept.antt =====
-- What `ensureFilterServices` (internal/controller/pipelineinstance_controller_streaming.go) leaves as
-- it is.
use openfilter_pipelines_con.Base.{
  ℕ, sym, subst, inl, inr, List, [], ◌∷◌, String, Bool-cases, is_empty,
}
use openfilter_pipelines_con.Go.{
  Result, ok, err, is_not_found, Result-cases, world-wrapping, bind-ok, bind-err,
}
use openfilter_pipelines_con.Api.{PipelineInstance}
use openfilter_pipelines_con.Pipeline.{ServicePort, Pipeline}
use openfilter_pipelines_con.Kube.{Service}
use openfilter_pipelines_con.Reconciler.{Reconciler}
use openfilter_pipelines_con.Streaming.Services.{
  Groups, group_ports, service_name, desired_service, create_service, ensure_service,
  ensure_filter_services,
}
use openfilter_pipelines_con.Streaming.Services.Entries.{
  Entry, group_entries, ensure_entries, ensure_groups-entries,
}

-- The requests for Services keep the property.
pub record IsServiceKept {W : Type 0} (r : Reconciler W) (P : W → Type 0) : Type 0 where
  pub by_get : (name ns : String) (w : W) → P w → P (r.kube.get_service name ns w).1
  pub by_create : (s : Service) (w : W) → P w → P (r.kube.create_service s w).1
  pub by_patch : (base s : Service) (w : W) → P w → P (r.kube.patch_service base s w).1

module _ {W : Type 0} (r : Reconciler W) (P : W → Type 0) (h : IsServiceKept r P) where
  create_service-kept :
      (name : String) (o : Result Service) (w : W) → P w → P (create_service r name o w).1
  unfolding create_service
  create_service-kept name (err e) w p = p
  create_service-kept name (ok s) w p =
      subst P (sym (world-wrapping _ (r.kube.create_service s) w)) (h.by_create s w p)

  ensure_service-kept :
      (pi : PipelineInstance) (filter : String) (index : ℕ) (port : ServicePort) (w : W)
      → P w
      → P (ensure_service r pi filter index port w).1
  unfolding ensure_service
  ensure_service-kept pi filter index port w p =
      let name = service_name pi filter index in
      let desired = desired_service pi filter index port in
      let got = r.kube.get_service name pi.namespace w in
      let q = h.by_get name pi.namespace w p in
      elim (Result-cases got.0) [
        | inl (found, e) ↦
            let next : Service = record found { labels = desired.labels; spec = desired.spec } in
            rw (ensure_service, e)
              (subst P (sym (world-wrapping _ (r.kube.patch_service found next) got.1))
                (h.by_patch found next got.1 q))
        | inr (e, f) ↦ elim (Bool-cases (is_not_found e)) [
          | inl absent ↦
              rw (ensure_service, f, absent)
                (create_service-kept name (r.set_service_reference pi desired) got.1 q)
          | inr other ↦ rw (ensure_service, f, other) q
        ]
      ]

  ensure_entries-kept :
      (pi : PipelineInstance) (es : List Entry) (w : W) → P w → P (ensure_entries r pi es w).1
  unfolding ensure_entries
  ensure_entries-kept pi [] w p = p
  ensure_entries-kept pi (e ∷ es) w p =
      let m = ensure_service r pi e.filter e.index e.port in
      let q = ensure_service-kept pi e.filter e.index e.port w p in
      let rest = λ (u : Unit {0}). ensure_entries r pi es in
      elim (Result-cases (m w).0) [
        | inl (u, f) ↦
            subst (λ (x : Result (Unit {0}) × W). P x.1) (sym (bind-ok m rest w u f))
              (ensure_entries-kept pi es (m w).1 q)
        | inr (x, f) ↦ subst (λ (y : Result (Unit {0}) × W). P y.1) (sym (bind-err m rest w x f)) q
      ]

  pub ensure_filter_services-kept :
      (order : Groups → Groups) (pi : PipelineInstance) (p : Pipeline) (w : W)
      → P w
      → P (ensure_filter_services r order pi p w).1
  unfolding ensure_filter_services
  ensure_filter_services-kept order pi p w holds =
      let visited = order (group_ports p.services []) in
      elim (Bool-cases (is_empty p.services)) [
        | inl empty ↦ rw (ensure_filter_services, empty) holds
        | inr full ↦
            rw (ensure_filter_services, full, ensure_groups-entries r pi visited w)
              (ensure_entries-kept pi (group_entries visited) w holds)
      ]
