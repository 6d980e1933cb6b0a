-- ===== src/Streaming/Services/Refinement.antt =====
-- After `ensureFilterServices` (internal/controller/pipelineinstance_controller_streaming.go) the
-- cluster has a Service for each port that the pipeline exposes, and every other one as before.
use openfilter_pipelines_con.Base.{
  ◌≡◌, ◌≢◌, refl, sym, ap, subst, ◌∙◌, true, List, [], ◌∷◌, String, inl, inr, Bool-cases, is_empty,
}
use openfilter_pipelines_con.Go.{is_ok, Result, Result-cases, bind-ok, bind-err}
use openfilter_pipelines_con.Api.{PipelineInstance}
use openfilter_pipelines_con.Pipeline.{ServicePort, Pipeline}
use openfilter_pipelines_con.Reconciler.{Reconciler}
use openfilter_pipelines_con.Streaming.Services.{
  Groups, group_ports, service_name, ensure_service, ensure_filter_services,
}
use openfilter_pipelines_con.Streaming.Services.Entries.{
  Entry, IsIn, group_entries, IsIteration, IsExposed, ensure_entries, ensure_groups-entries,
}
use openfilter_pipelines_con.Streaming.Services.Exposed.{IsIn-IsExposed, IsExposed-IsIn}
use openfilter_pipelines_con.Streaming.Services.Served.{
  Store, IsStore, IsServed, put_at, put_apart, ensure_service-Puts, ensure_service-IsServed,
}

module _ {W : Type 0} (r : Reconciler W) (store : W → Store) (is_store : IsStore r store)
    (pi : PipelineInstance) where
  step_ok :
      (e : Entry) (es : List Entry) (w : W)
      → is_ok (ensure_entries r pi (e ∷ es) w).0 ≡ true
      → (is_ok (ensure_service r pi e.filter e.index e.port w).0 ≡ true)
        × (ensure_entries r pi (e ∷ es) w
            ≡ ensure_entries r pi es (ensure_service r pi e.filter e.index e.port w).1)
  unfolding ensure_entries
  step_ok e es w h =
      let m = ensure_service r pi e.filter e.index e.port in
      let rest = λ (u : Unit {0}). ensure_entries r pi es in
      elim (Result-cases (m w).0) [
        | inl (u, f) ↦ (ap is_ok f, bind-ok m rest w u f)
        | inr (x, f) ↦
            let bad =
              sym (ap (λ (p : Result (Unit {0}) × W). is_ok p.0) (bind-err m rest w x f)) ∙ h in
            cc bad
      ]

  kept-IsServed :
      (services : List ServicePort) (e : Entry) (es : List Entry) (w : W)
      → IsExposed services e
      → ((f : Entry) → IsIn f es → IsExposed services f)
      → IsServed pi (store w) e
      → is_ok (ensure_entries r pi es w).0 ≡ true
      → IsServed pi (store (ensure_entries r pi es w).1) e
  unfolding ensure_entries
  kept-IsServed services e [] w he all served h = served
  kept-IsServed services e (f ∷ es) w he all served h =
      let (first, next) = step_ok f es w h in
      subst (λ (p : Result (Unit {0}) × W). IsServed pi (store p.1) e) (sym next)
        (kept-IsServed services e es (ensure_service r pi f.filter f.index f.port w).1 he
          (λ g there. all g (inr there))
          (ensure_service-IsServed r store is_store pi services e f w he (all f (inl refl)) served
            first)
          (sym (ap (λ (p : Result (Unit {0}) × W). is_ok p.0) next) ∙ h))

  entries-IsServed :
      (services : List ServicePort) (e : Entry) (es : List Entry) (w : W)
      → ((f : Entry) → IsIn f es → IsExposed services f)
      → IsIn e es
      → is_ok (ensure_entries r pi es w).0 ≡ true
      → IsServed pi (store (ensure_entries r pi es w).1) e
  unfolding ensure_entries
  entries-IsServed services e [] w all there h = absurd there
  entries-IsServed services e (f ∷ es) w all (inl same) h =
      let (first, next) = step_ok f es w h in
      let (s, good, puts) = ensure_service-Puts r store is_store pi f w first in
      let name = service_name pi f.filter f.index in
      let now : IsServed pi (store (ensure_service r pi f.filter f.index f.port w).1) f = (
        s,
        ap (λ (t : Store). t name pi.namespace) puts
            ∙ put_at r store is_store pi name pi.namespace s (store w),
        good,
      ) in
      subst (IsServed pi (store (ensure_entries r pi (f ∷ es) w).1)) same (
        subst (λ (p : Result (Unit {0}) × W). IsServed pi (store p.1) f) (sym next)
          (kept-IsServed services f es (ensure_service r pi f.filter f.index f.port w).1
            (all f (inl refl)) (λ g there. all g (inr there)) now
            (sym (ap (λ (p : Result (Unit {0}) × W). is_ok p.0) next) ∙ h)))
  entries-IsServed services e (f ∷ es) w all (inr later) h =
      let (first, next) = step_ok f es w h in
      subst (λ (p : Result (Unit {0}) × W). IsServed pi (store p.1) e) (sym next)
        (entries-IsServed services e es (ensure_service r pi f.filter f.index f.port w).1
          (λ g there. all g (inr there)) later
          (sym (ap (λ (p : Result (Unit {0}) × W). is_ok p.0) next) ∙ h))

  -- No Service of the instance for these ports has the name, or the namespace is another.
  abbrev IsApart : List Entry → String → Type 0
  IsApart es n = (e : Entry) → IsIn e es → service_name pi e.filter e.index ≢ n

  entries_keep :
      (es : List Entry) (w : W) (n m : String)
      → IsApart es n
      → is_ok (ensure_entries r pi es w).0 ≡ true
      → store (ensure_entries r pi es w).1 n m ≡ store w n m
  unfolding ensure_entries
  entries_keep [] w n m apart h = refl
  entries_keep (f ∷ es) w n m apart h =
      let (first, next) = step_ok f es w h in
      let (s, good, puts) = ensure_service-Puts r store is_store pi f w first in
      let u = (ensure_service r pi f.filter f.index f.port w).1 in
      ap (λ (p : Result (Unit {0}) × W). store p.1 n m) next
      ∙ entries_keep es u n m (λ g there. apart g (inr there))
          (sym (ap (λ (p : Result (Unit {0}) × W). is_ok p.0) next) ∙ h)
      ∙ ap (λ (t : Store). t n m) puts
      ∙ put_apart r store is_store pi (service_name pi f.filter f.index) pi.namespace n m s
          (store w) (λ q. apart f (inl refl) q)

  nothing-IsExposed :
      (services : List ServicePort) (e : Entry) → is_empty services ≡ true → ¬ IsExposed services e
  nothing-IsExposed [] e h found = cc found
  nothing-IsExposed (s ∷ services) e h found = cc h

  -- If `ensureFilterServices` succeeds, then each port that the pipeline exposes for a filter at an index
  -- has the Service of that name, with the labels, the selector and the port that it asks for, and each
  -- name that is none of these has the same Service as before, in every namespace. The cluster's
  -- requests do what is documented, and `order` visits each entry of the map once or more and nothing else.
  pub ensure_filter_services-refines :
      (order : Groups → Groups) (p : Pipeline) (w : W)
      → IsIteration (group_ports p.services []) (order (group_ports p.services []))
      → is_ok (ensure_filter_services r order pi p w).0 ≡ true
      → let after = (ensure_filter_services r order pi p w).1 in
        ((e : Entry) → IsExposed p.services e → IsServed pi (store after) e)
        × ((n m : String)
            → ((e : Entry) → IsExposed p.services e → service_name pi e.filter e.index ≢ n)
            → store after n m ≡ store w n m)
  unfolding ensure_filter_services
  ensure_filter_services-refines order p w visits h =
      let visited = order (group_ports p.services []) in
      let inside = IsIn-IsExposed p.services visited visits in
      elim (Bool-cases (is_empty p.services)) [
        | inl empty ↦
            rw (ensure_filter_services, empty)
              (λ e found. absurd (nothing-IsExposed p.services e empty found), λ n m apart. refl)
        | inr full ↦
            rw (ensure_filter_services, full, ensure_groups-entries r pi visited w)
              (let done =
                  rw (ensure_filter_services, full, ensure_groups-entries r pi visited w) at h in
                (
                  λ e found.
                      entries-IsServed p.services e (group_entries visited) w inside
                        (IsExposed-IsIn p.services visited visits e found) done,
                  λ n m apart.
                      entries_keep (group_entries visited) w n m
                        (λ e there. apart e (inside e there)) done,
                ))
      ]
