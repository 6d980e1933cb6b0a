-- ===== src/Streaming/Reconcile/Deletion.antt =====
-- What is gone when `reconcileStreaming` (internal/controller/pipelineinstance_controller_streaming.go)
-- takes its finalizer off an instance that is being deleted.
use openfilter_pipelines_con.Base.{
  ◌≡◌, ◌≢◌, refl, sym, ap, subst, ◌∙◌, inl, inr, true, false, Option, none, some, List, [], ◌∷◌,
  String, str_eq, lookup, or_else, Any, Bool-cases,
}
use openfilter_pipelines_con.Go.{
  Result, ok, err, is_ok, is_not_found, Result-cases, wrapping, world-wrapping, wrapped, bind-ok,
  bind-err, IsAnswered,
}
use openfilter_pipelines_con.Api.{PipelineInstance}
use openfilter_pipelines_con.Kube.{Deployment, Service}
use openfilter_pipelines_con.Reconciler.{Reconciler}
use openfilter_pipelines_con.Streaming.Deployment.{no_streaming, delete_named}
use openfilter_pipelines_con.Streaming.Services.{delete_services, delete_filter_services}

-- The Deployments and the Services of a cluster, by name and namespace.
pub record View (W : Type 0) : Type 0 where
  pub deployment : W → String → String → Option Deployment
  pub service : W → String → String → Option Service

abbrev pub IsNamed : String → String → Service → Type 0
IsNamed name ns s = (s.name ≡ name) × (s.namespace ≡ ns)

-- The documented behaviour of the requests: a list has every Service with the label, a deletion removes
-- the object, and neither they nor an update of the instance make a Deployment or a Service.
pub record IsFaithful {W : Type 0} (r : Reconciler W) (v : View W) : Type 0 where
  pub deployment_deleted :
      (name ns : String) (w : W)
      → IsAnswered (r.kube.delete_deployment name ns w).0
      → v.deployment (r.kube.delete_deployment name ns w).1 name ns ≡ none
  pub list_complete :
      (ns key value n : String) (w : W) (ss : List Service) (s : Service)
      → (r.kube.list_services ns key value w).0 ≡ ok ss
      → v.service (r.kube.list_services ns key value w).1 n ns ≡ some s
      → lookup key s.labels ≡ some value
      → Any (IsNamed n ns) ss
  pub list_keeps :
      (ns key value : String) (w : W)
      → v.deployment (r.kube.list_services ns key value w).1 ≡ v.deployment w
  pub service_deleted :
      (s : Service) (w : W)
      → IsAnswered (r.kube.delete_service s w).0
      → v.service (r.kube.delete_service s w).1 s.name s.namespace ≡ none
  pub service_shrinks :
      (s t : Service) (w : W) (n m : String)
      → v.service (r.kube.delete_service s w).1 n m ≡ some t
      → v.service w n m ≡ some t
  pub service_keeps :
      (s : Service) (w : W) → v.deployment (r.kube.delete_service s w).1 ≡ v.deployment w
  pub update_keeps :
      (pi : PipelineInstance) (w : W)
      → (v.deployment (r.kube.update pi w).1 ≡ v.deployment w)
        × (v.service (r.kube.update pi w).1 ≡ v.service w)

not_some : {A : Type 0} {a : A} → some a ≡ none → ⊥
not_some e = cc e

abbrev pub status_name : PipelineInstance → String
status_name pi = (or_else pi.status.streaming no_streaming).deployment_name

-- The Deployment that the status names, if it names one.
abbrev pub HasNoDeployment : {W : Type 0} → View W → PipelineInstance → W → Type 0
HasNoDeployment v pi w =
    str_eq (status_name pi) "" ≡ false → v.deployment w (status_name pi) pi.namespace ≡ none

-- Neither this Deployment is left, nor a Service in the namespace with the instance's label.
abbrev pub IsGone : {W : Type 0} → View W → PipelineInstance → W → Type 0
IsGone v pi w =
    HasNoDeployment v pi w
    × ((n : String) (s : Service)
        → v.service w n pi.namespace ≡ some s
        → lookup "pipelineinstance" s.labels ≢ some pi.name)

module _ {W : Type 0} (r : Reconciler W) (v : View W) (h : IsFaithful r v) where
  pub delete_named-gone :
      (name ns : String) (w : W)
      → is_ok (delete_named r name ns w).0 ≡ true
      → str_eq name "" ≡ false
      → v.deployment (delete_named r name ns w).1 name ns ≡ none
  unfolding delete_named
  delete_named-gone name ns w good named =
      elim (Result-cases (r.kube.delete_deployment name ns w).0) [
        | inl (u, e) ↦ rw (delete_named, named, e) (h.deployment_deleted name ns w (rw (e) tt))
        | inr (e, f) ↦ elim (Bool-cases (is_not_found e)) [
          | inl absent ↦
              rw (delete_named, named, f, absent) (h.deployment_deleted name ns w (rw (f) absent))
          | inr other ↦ let bad = rw (delete_named, named, f, other) at good in cc bad
        ]
      ]

  delete_services-step :
      (s : Service) (ss : List Service) (w : W)
      → is_ok (delete_services r (s ∷ ss) w).0 ≡ true
      → IsAnswered (r.kube.delete_service s w).0
        × (delete_services r (s ∷ ss) w ≡ delete_services r ss (r.kube.delete_service s w).1)
  unfolding delete_services
  delete_services-step s ss w good = elim (Result-cases (r.kube.delete_service s w).0) [
    | inl (u, e) ↦ rw (delete_services, e) (tt, refl)
    | inr (e, f) ↦ elim (Bool-cases (is_not_found e)) [
      | inl absent ↦ rw (delete_services, f) (absent, rw (absent) refl)
      | inr other ↦ let bad = rw (delete_services, f, other) at good in cc bad
    ]
  ]

  delete_services-shrinks :
      (ss : List Service) (w : W) (n m : String) (t : Service)
      → is_ok (delete_services r ss w).0 ≡ true
      → v.service (delete_services r ss w).1 n m ≡ some t
      → v.service w n m ≡ some t
  unfolding delete_services
  delete_services-shrinks [] w n m t good there = there
  delete_services-shrinks (s ∷ ss) w n m t good there =
      let (gone, next) = delete_services-step s ss w good in
      let u = (r.kube.delete_service s w).1 in
      h.service_shrinks s t w n m (
        delete_services-shrinks ss u n m t
          (sym (ap (λ (p : Result (Unit {0}) × W). is_ok p.0) next) ∙ good)
          (sym (ap (λ (p : Result (Unit {0}) × W). v.service p.1 n m) next) ∙ there))

  delete_services-gone :
      (ss : List Service) (w : W) (n m : String) (t : Service)
      → is_ok (delete_services r ss w).0 ≡ true
      → Any (IsNamed n m) ss
      → v.service (delete_services r ss w).1 n m ≢ some t
  unfolding delete_services
  delete_services-gone [] w n m t good named there = absurd named
  delete_services-gone (s ∷ ss) w n m t good (inl (name, ns)) there =
      let (gone, next) = delete_services-step s ss w good in
      let u = (r.kube.delete_service s w).1 in
      let still =
        delete_services-shrinks ss u n m t
          (sym (ap (λ (p : Result (Unit {0}) × W). is_ok p.0) next) ∙ good)
          (sym (ap (λ (p : Result (Unit {0}) × W). v.service p.1 n m) next) ∙ there) in
      let deleted : v.service u n m ≡ none =
        sym (λ i. v.service u (name i) (ns i)) ∙ h.service_deleted s w gone in
      let bad = sym still ∙ deleted in absurd (not_some bad)
  delete_services-gone (s ∷ ss) w n m t good (inr later) there =
      let (gone, next) = delete_services-step s ss w good in
      delete_services-gone ss (r.kube.delete_service s w).1 n m t
        (sym (ap (λ (p : Result (Unit {0}) × W). is_ok p.0) next) ∙ good) later
        (sym (ap (λ (p : Result (Unit {0}) × W). v.service p.1 n m) next) ∙ there)

  delete_services-keeps :
      (ss : List Service) (w : W)
      → is_ok (delete_services r ss w).0 ≡ true
      → v.deployment (delete_services r ss w).1 ≡ v.deployment w
  unfolding delete_services
  delete_services-keeps [] w good = refl
  delete_services-keeps (s ∷ ss) w good =
      let (gone, next) = delete_services-step s ss w good in
      ap (λ (p : Result (Unit {0}) × W). v.deployment p.1) next
      ∙ delete_services-keeps ss (r.kube.delete_service s w).1
          (sym (ap (λ (p : Result (Unit {0}) × W). is_ok p.0) next) ∙ good)
      ∙ h.service_keeps s w

  pub delete_filter_services-IsGone :
      (pi : PipelineInstance) (w : W)
      → is_ok (delete_filter_services r pi w).0 ≡ true
      → HasNoDeployment v pi w
      → IsGone v pi (delete_filter_services r pi w).1
  unfolding delete_filter_services
  delete_filter_services-IsGone pi w good none_left =
      let list = r.kube.list_services pi.namespace "pipelineinstance" pi.name in
      let text : String = "failed to list services" in
      let m = wrapping text list in
      elim (Result-cases (list w).0) [
        | inr (e, f) ↦
            let failed : (m w).0 ≡ err (wrapped text e) = rw (wrapping, f) refl in
            let answer = bind-err m (delete_services r) w (wrapped text e) failed in
            let bad = sym (ap (λ (p : Result (Unit {0}) × W). is_ok p.0) answer) ∙ good in cc bad
        | inl (ss, e) ↦
            let u = (list w).1 in
            let listed : (m w).0 ≡ ok ss = rw (wrapping, e) refl in
            let next : delete_filter_services r pi w ≡ delete_services r ss u =
              bind-ok m (delete_services r) w ss listed
              ∙ ap (delete_services r ss) (world-wrapping text list w) in
            let deleted = sym (ap (λ (p : Result (Unit {0}) × W). is_ok p.0) next) ∙ good in
            subst (λ (p : Result (Unit {0}) × W). IsGone v pi p.1) (sym next)
              (
                λ named.
                    ap
                      (λ (d : String → String → Option Deployment). d (status_name pi) pi.namespace)
                      (delete_services-keeps ss u deleted
                        ∙ h.list_keeps pi.namespace "pipelineinstance" pi.name w)
                    ∙ none_left named,
                λ n s there labelled.
                    delete_services-gone ss u n pi.namespace s deleted
                      (h.list_complete pi.namespace "pipelineinstance" pi.name n w ss s e
                        (delete_services-shrinks ss u n pi.namespace s deleted there) labelled)
                      there,
              )
      ]
