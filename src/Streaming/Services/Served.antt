-- ===== src/Streaming/Services/Served.antt =====
-- What `ensureFilterServices` (internal/controller/pipelineinstance_controller_streaming.go) does to
-- the Services of the cluster, seen as a function of name and namespace.
use openfilter_pipelines_con.Base.{
  ◌≡◌, refl, sym, ap, subst, ◌∙◌, true, ◌&&◌, Option, some, List, [], ◌∷◌, String, str_eq, eq_iff,
  arith, inl, inr, Bool-cases, if◌then◌else◌,
}
use openfilter_pipelines_con.Go.{
  ok, err, is_ok, is_not_found, Result, Result-cases, is_ok-wrapping, wrapping, world-wrapping,
  concat,
}
use openfilter_pipelines_con.Api.{PipelineInstance}
use openfilter_pipelines_con.Pipeline.{ServicePort}
use openfilter_pipelines_con.Kube.{Service}
use openfilter_pipelines_con.Reconciler.{Reconciler}
use openfilter_pipelines_con.Streaming.Services.{
  service_name, desired_service, create_service, ensure_service,
}
use openfilter_pipelines_con.Streaming.Services.Names.{service_name-injective}
use openfilter_pipelines_con.Streaming.Services.Entries.{Entry, IsExposed, nth}
use openfilter_pipelines_con.Streaming.Services.Groups.{ports_of}

-- The Services of a cluster, by name and namespace.
abbrev pub Store : Type 0
Store = String → String → Option Service

-- The change of a store at one name.
abbrev pub put : String → String → Service → Store → Store
put name ns s store n m = if str_eq name n && str_eq ns m then some s else store n m

-- All but the owner reference is as before.
pub record IsSame (s t : Service) : Type 0 where
  pub name : s.name ≡ t.name
  pub namespace : s.namespace ≡ t.namespace
  pub labels : s.labels ≡ t.labels
  pub spec : s.spec ≡ t.spec

-- The documented behaviour of the requests: a read gives the Service of that name and changes nothing,
-- and a write that succeeds puts the Service into the store.
pub record IsStore {W : Type 0} (r : Reconciler W) (store : W → Store) : Type 0 where
  pub get_named :
      (name ns : String) (w : W) (s : Service)
      → (r.kube.get_service name ns w).0 ≡ ok s
      → (s.name ≡ name) × (s.namespace ≡ ns)
  pub get_keeps : (name ns : String) (w : W) → store (r.kube.get_service name ns w).1 ≡ store w
  pub create_puts :
      (s : Service) (w : W)
      → is_ok (r.kube.create_service s w).0 ≡ true
      → store (r.kube.create_service s w).1 ≡ put s.name s.namespace s (store w)
  pub patch_puts :
      (base s : Service) (w : W)
      → is_ok (r.kube.patch_service base s w).0 ≡ true
      → store (r.kube.patch_service base s w).1 ≡ put base.name base.namespace s (store w)
  pub reference_same :
      (pi : PipelineInstance) (s t : Service) → r.set_service_reference pi s ≡ ok t → IsSame t s

-- The Service has the labels and the specification that the port asks for.
pub record IsDesired (pi : PipelineInstance) (e : Entry) (s : Service) : Type 0 where
  pub labels : s.labels ≡ (desired_service pi e.filter e.index e.port).labels
  pub spec : s.spec ≡ (desired_service pi e.filter e.index e.port).spec

-- So has the Service of that name in the store.
abbrev pub IsServed : PipelineInstance → Store → Entry → Type 0
IsServed pi store e =
    (s : Service) × (store (service_name pi e.filter e.index) pi.namespace ≡ some s)
    × IsDesired pi e s

some-injective : {p q : ServicePort} → some p ≡ some q → p ≡ q
some-injective h = cc h

-- A filter and an index expose one port.
exposed_once :
    (services : List ServicePort) (e f : Entry)
    → IsExposed services e
    → IsExposed services f
    → (e.filter ≡ f.filter) × (e.index ≡ f.index)
    → e ≡ f
exposed_once services e f he hf (filters, indices) =
    let places : nth e.index (ports_of e.filter services)
        ≡ nth f.index (ports_of f.filter services) =
      λ i. nth (indices i) (ports_of (filters i) services) in
    let ports = some-injective (sym he ∙ places ∙ hf) in
    λ i. record { filter = filters i; index = indices i; port = ports i }

module _ {W : Type 0} (r : Reconciler W) (store : W → Store) (is_store : IsStore r store)
    (pi : PipelineInstance) where
  -- One step puts one Service into the store.
  abbrev pub Puts : Entry → W → W → Type 0
  Puts e w u =
      (s : Service) × IsDesired pi e s
      × (store u ≡ put (service_name pi e.filter e.index) pi.namespace s (store w))

  create_service-Puts :
      (e : Entry) (o : Result Service) (w : W)
      → o ≡ r.set_service_reference pi (desired_service pi e.filter e.index e.port)
      → is_ok (create_service r (service_name pi e.filter e.index) o w).0 ≡ true
      → Puts e w (create_service r (service_name pi e.filter e.index) o w).1
  unfolding create_service desired_service
  create_service-Puts e (err f) w given h = cc h
  create_service-Puts e (ok s) w given h =
      let desired = desired_service pi e.filter e.index e.port in
      let same = is_store.reference_same pi desired s (sym given) in
      let made = r.kube.create_service s in
      let text = concat ("failed to create service " ∷ service_name pi e.filter e.index ∷ []) in
      (
        s,
        record { labels = same.labels; spec = same.spec },
        ap store (world-wrapping text made w)
            ∙ is_store.create_puts s w (sym (is_ok-wrapping text made w) ∙ h)
            ∙ ap (λ n. put n s.namespace s (store w)) same.name
            ∙ ap (λ n. put desired.name n s (store w)) same.namespace,
      )

  patch_service-Puts :
      (e : Entry) (found : Service) (w u : W)
      → (found.name ≡ service_name pi e.filter e.index) × (found.namespace ≡ pi.namespace)
      → store w ≡ store u
      → let desired = desired_service pi e.filter e.index e.port in
        let next : Service = record found { labels = desired.labels; spec = desired.spec } in
        let name = service_name pi e.filter e.index in
        let patched =
          wrapping
            (concat ("failed to update service " ∷ name ∷ []))
            (r.kube.patch_service found next)
            w in
        is_ok patched.0 ≡ true → Puts e u patched.1
  patch_service-Puts e found w u named kept h =
      let desired = desired_service pi e.filter e.index e.port in
      let next : Service = record found { labels = desired.labels; spec = desired.spec } in
      let name = service_name pi e.filter e.index in
      let text = concat ("failed to update service " ∷ name ∷ []) in
      let patch = r.kube.patch_service found next in
      (
        next,
        record { labels = refl; spec = refl },
        ap store (world-wrapping text patch w)
            ∙ is_store.patch_puts found next w (sym (is_ok-wrapping text patch w) ∙ h)
            ∙ ap (λ n. put n found.namespace next (store w)) named.0
            ∙ ap (λ n. put name n next (store w)) named.1
            ∙ ap (put name pi.namespace next) kept,
      )

  pub ensure_service-Puts :
      (e : Entry) (w : W)
      → is_ok (ensure_service r pi e.filter e.index e.port w).0 ≡ true
      → Puts e w (ensure_service r pi e.filter e.index e.port w).1
  unfolding ensure_service
  ensure_service-Puts e w h =
      let name = service_name pi e.filter e.index in
      let got = r.kube.get_service name pi.namespace w in
      let kept = is_store.get_keeps name pi.namespace w in
      elim (Result-cases got.0) [
        | inl (found, f) ↦
            rw (ensure_service, f)
              (patch_service-Puts e found got.1 w (is_store.get_named name pi.namespace w found f)
                kept (rw (ensure_service, f) at h))
        | inr (gone, f) ↦ elim (Bool-cases (is_not_found gone)) [
          | inr other ↦ let bad = rw (ensure_service, f, other) at h in cc bad
          | inl absent ↦
              let desired = desired_service pi e.filter e.index e.port in
              let (s, good, puts) =
                create_service-Puts e (r.set_service_reference pi desired) got.1 refl
                  (rw (ensure_service, f, absent) at h) in
              rw (ensure_service, f, absent) (s, good, puts ∙ ap (put name pi.namespace s) kept)
        ]
      ]

  pub put_at :
      (name ns : String) (s : Service) (before : Store) → put name ns s before name ns ≡ some s
  put_at name ns s before = ground (arith, eq_iff name name, eq_iff ns ns)

  pub put_apart :
      (name ns n m : String) (s : Service) (before : Store)
      → (name ≡ n → ⊥)
      → put name ns s before n m ≡ before n m
  put_apart name ns n m s before h = ground (arith, eq_iff name n)

  -- A later step for the same name is for the same port.
  pub ensure_service-IsServed :
      (services : List ServicePort) (e f : Entry) (w : W)
      → IsExposed services e
      → IsExposed services f
      → IsServed pi (store w) e
      → is_ok (ensure_service r pi f.filter f.index f.port w).0 ≡ true
      → IsServed pi (store (ensure_service r pi f.filter f.index f.port w).1) e
  ensure_service-IsServed services e f w he hf served h =
      let (s, good, puts) = ensure_service-Puts f w h in
      let name = service_name pi f.filter f.index in
      let mine = service_name pi e.filter e.index in
      elim (Bool-cases (str_eq name mine)) [
        | inr apart ↦ (
          served.0,
          ap (λ (t : Store). t mine pi.namespace) puts
              ∙ put_apart name pi.namespace mine pi.namespace s (store w)
                  (λ q. cc ((eq_iff name mine).1 q, apart))
              ∙ served.1,
          served.2,
        )
        | inl same ↦
            subst (IsServed pi (store (ensure_service r pi f.filter f.index f.port w).1))
              (exposed_once services f e hf he (
                service_name-injective pi f.filter e.filter f.index e.index
                  ((eq_iff name mine).0 same)))
              (
                s,
                ap (λ (t : Store). t name pi.namespace) puts ∙ put_at name pi.namespace s (store w),
                good,
              )
      ]
