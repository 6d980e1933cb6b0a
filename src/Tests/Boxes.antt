-- ===== src/Tests/Boxes.antt =====
-- A cluster with at most one Deployment and one Service.
use openfilter_pipelines_con.Base.{
  ◌≡◌, refl, ap, subst, ◌∙◌, ◌⊎◌, inl, inr, Bool, true, false, ◌&&◌, Option, none, some, List, [],
  ◌∷◌, String, str_eq, eq_iff, lookup, Any, arith, Bool-cases, if◌then◌else◌, pos,
}
use openfilter_pipelines_con.Go.{ok, is_ok}
use openfilter_pipelines_con.Pipeline.{ServicePort}
use openfilter_pipelines_con.Kube.{Service, Cluster, Deployment}
use openfilter_pipelines_con.Reconciler.{Reconciler}
use openfilter_pipelines_con.Streaming.Deployment.{build_streaming_deployment}
use openfilter_pipelines_con.Streaming.Services.{desired_service}
use openfilter_pipelines_con.Streaming.Reconcile.{reconcile_streaming}
use openfilter_pipelines_con.Streaming.Reconcile.Deletion.{View, IsFaithful, IsNamed, IsGone}
use openfilter_pipelines_con.Streaming.Reconcile.Released.{IsKept, reconcile_streaming-releases}
use openfilter_pipelines_con.Tests.Samples.{pipeline, quiet_cluster, quiet_reconciler}
use openfilter_pipelines_con.Tests.Deletions.{deleted_instance, no_format, same_order}

record Box : Type 0 where
  deployment : Option Deployment
  service : Option Service

find_deployment : Option Deployment → String → String → Option Deployment
find_deployment none n m = none
find_deployment (some d) n m = if str_eq d.name n && str_eq d.namespace m then some d else none

drop_deployment : Option Deployment → String → String → Option Deployment
drop_deployment none n m = none
drop_deployment (some d) n m = if str_eq d.name n && str_eq d.namespace m then none else some d

find_service : Option Service → String → String → Option Service
find_service none n m = none
find_service (some s) n m = if str_eq s.name n && str_eq s.namespace m then some s else none

drop_service : Option Service → String → String → Option Service
drop_service none n m = none
drop_service (some s) n m = if str_eq s.name n && str_eq s.namespace m then none else some s

is_value : Option String → String → Bool
is_value none value = false
is_value (some v) value = str_eq v value

listed : Option Service → String → String → String → List Service
unfolding is_value
listed none ns key value = []
listed (some s) ns key value =
    if str_eq s.namespace ns && is_value (lookup key s.labels) value then s ∷ [] else []

find-drop_deployment :
    (o : Option Deployment) (n m : String) → find_deployment (drop_deployment o n m) n m ≡ none
unfolding find_deployment drop_deployment
find-drop_deployment none n m = refl
find-drop_deployment (some d) n m = ground arith

find-drop_service :
    (o : Option Service) (n m : String) → find_service (drop_service o n m) n m ≡ none
unfolding find_service drop_service
find-drop_service none n m = refl
find-drop_service (some s) n m = ground arith

drop_service-shrinks :
    (o : Option Service) (a b n m : String) (t : Service)
    → find_service (drop_service o a b) n m ≡ some t
    → find_service o n m ≡ some t
unfolding find_service drop_service
drop_service-shrinks none a b n m t e = e
drop_service-shrinks (some s) a b n m t e =
    elim (Bool-cases (str_eq s.name a && str_eq s.namespace b)) [
      | inl gone ↦ let bad = rw (gone) at e in cc bad
      | inr kept ↦ rw (kept) at e
    ]

service-injective : {p q : Service} → some p ≡ some q → p ≡ q
service-injective h = cc h

listed-injective : {p q : List Service} → ok p ≡ ok q → p ≡ q
listed-injective h = cc h

listed_complete :
    (o : Option Service) (ns key value n : String) (s : Service)
    → find_service o n ns ≡ some s
    → lookup key s.labels ≡ some value
    → Any (IsNamed n ns) (listed o ns key value)
unfolding find_service listed is_value
listed_complete none ns key value n s e l = cc e
listed_complete (some t) ns key value n s e l =
    elim (Bool-cases (str_eq t.name n && str_eq t.namespace ns)) [
      | inr apart ↦ let bad = rw (apart) at e in cc bad
      | inl same ↦
          let this : t ≡ s = service-injective (rw (same) at e) in
          let label : lookup key t.labels ≡ some value =
            ap (λ (x : Service). lookup key x.labels) this ∙ l in
          let name : str_eq t.name n ≡ true = ground arith in
          let place : str_eq t.namespace ns ≡ true = ground arith in
          rw (place, label, (eq_iff value value).1 refl)
            (inl ((eq_iff t.name n).0 name, (eq_iff t.namespace ns).0 place))
    ]

abbrev box_cluster : Cluster Box
box_cluster =
    let k = quiet_cluster Box in
    record k {
      delete_deployment =
          λ name ns w. (ok tt, record w { deployment = drop_deployment w.deployment name ns });
      list_services = λ ns key value w. (ok (listed w.service ns key value), w);
      delete_service =
          λ s w. (ok tt, record w { service = drop_service w.service s.name s.namespace });
    }

abbrev box_reconciler : Reconciler Box
box_reconciler = let r = quiet_reconciler Box in record r { kube = box_cluster }

abbrev box_view : View Box
box_view = record {
  deployment = λ w. find_deployment w.deployment;
  service = λ w. find_service w.service;
}

box_IsFaithful : IsFaithful box_reconciler box_view
box_IsFaithful = record {
  deployment_deleted = λ name ns w h. find-drop_deployment w.deployment name ns;
  list_complete = λ ns key value n w ss s e there l.
      let same : listed w.service ns key value ≡ ss = listed-injective e in
      subst (Any (IsNamed n ns)) same (listed_complete w.service ns key value n s there l);
  list_keeps = λ ns key value w. refl;
  service_deleted = λ s w h. find-drop_service w.service s.name s.namespace;
  service_shrinks = λ s t w n m e. drop_service-shrinks w.service s.name s.namespace n m t e;
  service_keeps = λ s w. refl;
  update_keeps = λ pi w. (refl, refl);
}

-- Nothing is asked of the world.
abbrev AnyBox : Box → Type 0
AnyBox w = Unit {0}

box_IsKept : IsKept box_reconciler AnyBox
box_IsKept = record {
  by_deployment = λ name ns w p. tt;
  by_list = λ ns key value w p. tt;
  by_service = λ s w p. tt;
}

abbrev web_port : ServicePort
web_port = record { name = "detector"; port = pos 8000; target_port = none; protocol = "" }

abbrev full_box : Box
full_box = record {
  deployment =
      some (build_streaming_deployment box_reconciler deleted_instance pipeline none "cars-deploy");
  service = some (desired_service deleted_instance "detector" 0 web_port);
}

reconcile_streaming-releases_example :
    let out =
      reconcile_streaming box_reconciler no_format same_order deleted_instance none none full_box in
    IsGone box_view deleted_instance out.2 ⊎ ((is_ok out.0 ≡ false) × AnyBox out.2)
reconcile_streaming-releases_example =
    reconcile_streaming-releases box_reconciler box_view box_IsFaithful AnyBox box_IsKept no_format
      same_order deleted_instance none none full_box refl refl tt
