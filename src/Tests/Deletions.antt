-- ===== src/Tests/Deletions.antt =====
-- Instances that are being deleted, and clusters with one object in memory.
use openfilter_pipelines_con.Base.{
  ℤ, ◌≡◌, ◌≢◌, refl, sym, ap, ◌∙◌, ◌⊎◌, inl, inr, ◌↔◌, true, Option, none, some, List, [], ◌∷◌,
  String, str_eq, eq_iff, Dict, arith, Bool-cases,
}
use openfilter_pipelines_con.Go.{Result, ok, err, api, not_found}
use openfilter_pipelines_con.Api.{PipelineInstance, PipelineInstanceStatus, StreamingStatus}
use openfilter_pipelines_con.Kube.{Cluster}
use openfilter_pipelines_con.Reconciler.{Reconciler}
use openfilter_pipelines_con.Reconciler.Outcome.{CtrlResult}
use openfilter_pipelines_con.Reconciler.Cleanup.Progress.{IsServing}
use openfilter_pipelines_con.Streaming.Services.{Groups}
use openfilter_pipelines_con.Streaming.Services.Entries.{IsIn}
use openfilter_pipelines_con.Streaming.Deployment.{no_streaming}
use openfilter_pipelines_con.Streaming.Reconcile.{streaming_finalizer}
use openfilter_pipelines_con.Streaming.Reconcile.Released.{IsKept}
use openfilter_pipelines_con.Streaming.Reconcile.Progress.{IsStreamServing}
use openfilter_pipelines_con.Reconcile.{credentials_finalizer, reconcile}
use openfilter_pipelines_con.Reconcile.Finalizers.{
  IsFinalizerLibrary, IsApi, IsReleased, after_update, reconcile-deletion_ends,
}
use openfilter_pipelines_con.Tests.Samples.{
  instance_a, quiet_cluster, quiet_queue, quiet_reconciler, contains_text, remove_text,
}

abbrev streaming_status : StreamingStatus
streaming_status = record no_streaming { deployment_name = "cars-deploy" }

abbrev deleted_status : PipelineInstanceStatus
deleted_status =
    let s = instance_a.status in record s { streaming = some streaming_status; start_time = some 5 }

abbrev pub deleted_instance : PipelineInstance
deleted_instance = record instance_a {
  deletion_timestamp = some 8;
  finalizers = credentials_finalizer ∷ streaming_finalizer ∷ [];
  status = deleted_status;
}

contains_text_iff : (f : String) (fs : List String) → (contains_text f fs ≡ true) ↔ IsIn f fs
contains_text_iff f [] = (λ e. cc e, λ e. absurd e)
contains_text_iff f (g ∷ gs) = (
  λ e. elim (Bool-cases (str_eq g f)) [
    | inl same ↦ inl ((eq_iff g f).0 same)
    | inr other ↦ inr ((contains_text_iff f gs).0 (rw (other) at e))
  ],
  λ there. elim there [
    | inl same ↦ rw ((eq_iff g f).1 same) refl
    | inr later ↦ ground (arith, (contains_text_iff f gs).1 later)
  ],
)

remove_text_iff :
    (f g : String) (fs : List String) → IsIn g (remove_text f fs) ↔ (IsIn g fs × (f ≢ g))
remove_text_iff f g [] = (λ e. absurd e, λ e. e.0)
remove_text_iff f g (h ∷ hs) = elim (Bool-cases (str_eq h f)) [
  | inl same ↦ rw (same) (
    λ there. let (later, apart) = (remove_text_iff f g hs).0 there in (inr later, apart),
    λ (there, apart). elim there [
      | inl e ↦ absurd (apart (sym ((eq_iff h f).0 same) ∙ e))
      | inr later ↦ (remove_text_iff f g hs).1 (later, apart)
    ],
  )
  | inr other ↦ rw (other) (
    λ there. elim there [
      | inl e ↦ (inl e, λ q. cc ((eq_iff h f).1 (e ∙ sym q), other))
      | inr later ↦ let (there, apart) = (remove_text_iff f g hs).0 later in (inr there, apart)
    ],
    λ (there, apart). elim there [
      | inl e ↦ inl e
      | inr later ↦ inr ((remove_text_iff f g hs).1 (later, apart))
    ],
  )
]

-- The world is the instance as the API server has it.
abbrev Stored : Type 0
Stored = Option PipelineInstance

abbrev read_stored : Stored → Result PipelineInstance
read_stored none = err (api not_found "no such instance")
read_stored (some pi) = ok pi

abbrev api_cluster : Cluster Stored
api_cluster =
    let k = quiet_cluster Stored in
    record k {
      get_instance = λ name ns w. (read_stored w, w);
      update = λ pi w. (ok tt, after_update pi);
    }

abbrev api_reconciler : Reconciler Stored
api_reconciler = let r = quiet_reconciler Stored in record r { kube = api_cluster }

api_library : IsFinalizerLibrary api_reconciler
api_library = record { contains_iff = contains_text_iff; remove_iff = remove_text_iff }

abbrev as_stored : Stored → Option PipelineInstance
as_stored w = w

fake-IsApi : IsApi api_reconciler as_stored "cars" "team-a"
fake-IsApi = record { reads = λ w pi e. (ap read_stored e, e); updates = λ w pi. (refl, refl) }

api_serving : (P : Stored → Type 0) → IsServing api_reconciler (quiet_queue Stored) P
api_serving P = record {
  lists = λ ns w. refl;
  list_keeps = λ ns w p. p;
  finds = λ name ns w. refl;
  find_keeps = λ name ns w p. p;
  deletes_user = λ user w. refl;
  user_keeps = λ user w p. p;
  deletes_secret = λ s w. tt;
  secret_keeps = λ s w p. p;
}

api_streams : IsStreamServing api_reconciler
api_streams = record {
  deletes_deployment = λ name ns w. tt;
  lists_services = λ ns key value w. refl;
  deletes_service = λ s w. tt;
}

api_kept : (P : Stored → Type 0) → IsKept api_reconciler P
api_kept P = record {
  by_deployment = λ n s w p. p;
  by_list = λ n k v w p. p;
  by_service = λ s w p. p;
}

abbrev pub no_format : ℤ → String
no_format d = ""

abbrev pub same_order : Groups → Groups
same_order groups = groups

abbrev same_counters : Dict ℤ → Dict ℤ
same_counters counters = counters

reconcile-deletion_ends_example :
    (a : CtrlResult) × (u : Stored) × (reconcile api_reconciler
        (quiet_queue Stored)
        no_format
        same_order
        3
        same_counters
        "cars"
        "team-a"
        (some deleted_instance)
      ≡ some (ok a, u))
    × (IsReleased u
        ⊎ ((a.requeue ≡ true)
            × ((b : CtrlResult) × (v : Stored) × (reconcile api_reconciler
                    (quiet_queue Stored)
                    no_format
                    same_order
                    3
                    same_counters
                    "cars"
                    "team-a"
                    u
                  ≡ some (ok b, v))
                × IsReleased v)))
reconcile-deletion_ends_example =
    reconcile-deletion_ends api_reconciler (quiet_queue Stored) no_format same_order 3 same_counters
      api_library as_stored "cars" "team-a" fake-IsApi
      (λ pi. api_serving (λ w. as_stored w ≡ some pi)) api_streams
      (λ pi. api_kept (λ w. as_stored w ≡ some pi)) deleted_instance (some deleted_instance) refl
      refl
