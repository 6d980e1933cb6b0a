-- ===== src/Reconcile/Finalizers.antt =====
-- The deletion of an instance (`Reconcile`, internal/controller/pipelineinstance_controller.go) comes
-- to its end.
use openfilter_pipelines_con.Base.{
  ℕ, ℤ, ◌≡◌, ◌≢◌, refl, sym, ap, ◌∙◌, ◌↔◌, ◌⊎◌, inl, inr, true, false, Option, none, some, List,
  String, Dict, is_some, is_empty, Bool-cases, if◌then◌else◌, ◌&&◌,
}
use openfilter_pipelines_con.Go.{ok, is_ok, Result-cases}
use openfilter_pipelines_con.Api.{PipelineInstance}
use openfilter_pipelines_con.Queue.{ValkeyClientInterface}
use openfilter_pipelines_con.Reconciler.{Reconciler, with_finalizers}
use openfilter_pipelines_con.Reconciler.Cleanup.{cleanup_namespace_valkey_credentials}
use openfilter_pipelines_con.Reconciler.Cleanup.Progress.{IsServing, cleanup-done}
use openfilter_pipelines_con.Reconciler.Outcome.{CtrlResult, done, again, updated}
use openfilter_pipelines_con.Streaming.Services.{Groups}
use openfilter_pipelines_con.Streaming.Services.Entries.{IsIn}
use openfilter_pipelines_con.Streaming.Reconcile.{streaming_finalizer, reconcile_streaming}
use openfilter_pipelines_con.Streaming.Reconcile.Released.{IsKept}
use openfilter_pipelines_con.Streaming.Reconcile.Progress.{
  IsStreamServing, reconcile_streaming-deleted,
}
use openfilter_pipelines_con.Reconcile.{
  credentials_finalizer, release, delete_instance, handle, reconcile,
}

-- What `controllerutil` documents of the finalizers.
pub record IsFinalizerLibrary {W : Type 0} (r : Reconciler W) : Type 0 where
  pub contains_iff :
      (f : String) (fs : List String) → (r.contains_finalizer f fs ≡ true) ↔ IsIn f fs
  pub remove_iff :
      (f g : String) (fs : List String) → IsIn g (r.remove_finalizer f fs) ↔ (IsIn g fs × (f ≢ g))

-- An object that is being deleted goes with its last finalizer.
abbrev pub after_update : PipelineInstance → Option PipelineInstance
after_update pi = if is_some pi.deletion_timestamp && is_empty pi.finalizers then none else some pi

-- The documented behaviour of the API server for one instance, as long as nobody else writes to it:
-- reads and updates are answered.
pub record IsApi {W : Type 0} (r : Reconciler W) (stored : W → Option PipelineInstance)
    (name namespace : String) : Type 0 where
  pub reads :
      (w : W) (pi : PipelineInstance)
      → stored w ≡ some pi
      → ((r.kube.get_instance name namespace w).0 ≡ ok pi)
        × (stored (r.kube.get_instance name namespace w).1 ≡ some pi)
  pub updates :
      (w : W) (pi : PipelineInstance)
      → (is_ok (r.kube.update pi w).0 ≡ true) × (stored (r.kube.update pi w).1 ≡ after_update pi)

-- The instance is gone, or has neither finalizer of the controller left.
abbrev pub IsReleased : Option PipelineInstance → Type 0
IsReleased none = Unit {0}
IsReleased (some pi) =
    ¬ IsIn credentials_finalizer pi.finalizers × ¬ IsIn streaming_finalizer pi.finalizers

module _ {W : Type 0} (r : Reconciler W) (q : ValkeyClientInterface W) (format : ℤ → String)
    (order : Groups → Groups) (fuel : ℕ) (counters : Dict ℤ → Dict ℤ) (lib : IsFinalizerLibrary r)
    (stored : W → Option PipelineInstance) (name namespace : String)
    (api : IsApi r stored name namespace) where
  -- The world has the instance.
  abbrev pub Has : PipelineInstance → W → Type 0
  Has pi w = stored w ≡ some pi

  -- A pass that ends well in a world with the property.
  abbrev pub Passes : W → (CtrlResult → W → Type 0) → Type 0
  Passes w Q =
      (a : CtrlResult) × (u : W) × (reconcile r q format order fuel counters name namespace w
        ≡ some (ok a, u))
      × Q a u

  absent : (f : String) (fs : List String) → r.contains_finalizer f fs ≡ false → ¬ IsIn f fs
  absent f fs h there = let found = (lib.contains_iff f fs).1 there in cc (h, found)

  not_there : {f : String} (fs : List String) → ¬ IsIn f fs → r.contains_finalizer f fs ≡ false
  not_there {f} fs h = elim (Bool-cases (r.contains_finalizer f fs)) [
    | inl on ↦ absurd (h ((lib.contains_iff f fs).0 on))
    | inr off ↦ off
  ]

  updated-stored :
      (a : CtrlResult) (pi : PipelineInstance) (w : W)
      → (updated r a pi w ≡ (ok a, pi, (r.kube.update pi w).1))
        × (stored (r.kube.update pi w).1 ≡ after_update pi)
  unfolding updated
  updated-stored a pi w =
      let (good, now) = api.updates w pi in
      elim (Result-cases (r.kube.update pi w).0) [
        | inl (u, e) ↦ (rw (updated, e) refl, now)
        | inr (x, e) ↦ let bad = sym (ap is_ok e) ∙ good in cc bad
      ]

  reconcile-deleted :
      (pi : PipelineInstance) (w : W)
      → Has pi w
      → is_some pi.deletion_timestamp ≡ true
      → (u : W) × Has pi u
        × (reconcile r q format order fuel counters name namespace w
            ≡ some (delete_instance r q format order fuel counters pi u))
  unfolding reconcile handle
  reconcile-deleted pi w has deleted =
      let (read, kept) = api.reads w pi has in
      ((r.kube.get_instance name namespace w).1, kept, rw (reconcile, read, handle, deleted) refl)

  -- The finalizer that was taken off is not there any more, and no other one is added.
  after_update-IsReleased :
      (pi : PipelineInstance) (fs : List String)
      → ¬ IsIn credentials_finalizer fs
      → ¬ IsIn streaming_finalizer fs
      → IsReleased (after_update (with_finalizers pi fs))
  after_update-IsReleased pi fs c s =
      elim (Bool-cases (is_some pi.deletion_timestamp && is_empty fs)) [
        | inl last ↦ rw (last) tt
        | inr more ↦ rw (more) (c, s)
      ]

  module _ (creds : (pi : PipelineInstance) → IsServing r q (Has pi)) (stream : IsStreamServing r)
      (keeps : (pi : PipelineInstance) → IsKept r (Has pi)) where
    last_pass :
        (pi : PipelineInstance) (w : W)
        → Has pi w
        → is_some pi.deletion_timestamp ≡ true
        → r.contains_finalizer credentials_finalizer pi.finalizers ≡ false
        → Passes w (λ a u. IsReleased (stored u))
    unfolding delete_instance reconcile_streaming
    last_pass pi w has deleted no_creds =
        let (u, kept, pass) = reconcile-deleted pi w has deleted in
        let gone = absent credentials_finalizer pi.finalizers no_creds in
        elim (reconcile_streaming-deleted r stream (Has pi) (keeps pi) format order pi u deleted
          kept) [
            | inl (off, same) ↦ (
              done,
              u,
              pass ∙ ap some (rw (delete_instance, no_creds, same) refl),
              rw (kept) (gone, absent streaming_finalizer pi.finalizers off),
            )
            | inr (v, still, same) ↦
                let fs = r.remove_finalizer streaming_finalizer pi.finalizers in
                let next = with_finalizers pi fs in
                let (sent, now) = updated-stored done next v in
                (
                  done,
                  (r.kube.update next v).1,
                  pass ∙ ap some (rw (delete_instance, no_creds, same, sent) refl),
                  rw (now) (
                      after_update-IsReleased pi fs
                        (λ there.
                          gone
                            ((lib.remove_iff streaming_finalizer credentials_finalizer
                                pi.finalizers).0
                              there).0)
                        (λ there.
                          ((lib.remove_iff streaming_finalizer streaming_finalizer pi.finalizers).0
                              there).1
                            refl)),
                )
          ]

    first_pass :
        (pi : PipelineInstance) (w : W)
        → Has pi w
        → is_some pi.deletion_timestamp ≡ true
        → r.contains_finalizer credentials_finalizer pi.finalizers ≡ true
        → Passes w (λ a u.
          (a ≡ again)
          × (stored u
              ≡ after_update
                  (with_finalizers pi (r.remove_finalizer credentials_finalizer pi.finalizers))))
    unfolding delete_instance release
    first_pass pi w has deleted on =
        let (u, kept, pass) = reconcile-deleted pi w has deleted in
        let (cleaned, still) = cleanup-done r q (Has pi) (creds pi) pi u kept in
        let v = (cleanup_namespace_valkey_credentials r q pi u).1 in
        let next = with_finalizers pi (r.remove_finalizer credentials_finalizer pi.finalizers) in
        let (sent, now) = updated-stored again next v in
        (
          again,
          (r.kube.update next v).1,
          pass ∙ ap some (rw (delete_instance, on, release, cleaned, sent) refl),
          (refl, now),
        )

    -- Once an instance is marked for deletion, at most two passes of `Reconcile` let it go: both end
    -- without an error, the first asks to be run again at once if the instance is not let go yet, and then
    -- the instance is gone or has neither finalizer of the controller. The finalizer library and the API
    -- server do what is documented, nobody else writes to the instance, and each request that deletes
    -- something succeeds or finds it gone.
    pub reconcile-deletion_ends :
        (pi : PipelineInstance) (w : W)
        → Has pi w
        → is_some pi.deletion_timestamp ≡ true
        → Passes w (λ a u.
          IsReleased (stored u) ⊎ ((a.requeue ≡ true) × Passes u (λ b v. IsReleased (stored v))))
    reconcile-deletion_ends pi w has deleted =
        elim (Bool-cases (r.contains_finalizer credentials_finalizer pi.finalizers)) [
          | inr off ↦
              let (a, u, pass, free) = last_pass pi w has deleted off in (a, u, pass, inl free)
          | inl on ↦
              let (a, u, pass, (same, now)) = first_pass pi w has deleted on in
              let fs = r.remove_finalizer credentials_finalizer pi.finalizers in
              let next = with_finalizers pi fs in
              (
                a,
                u,
                pass,
                elim (Bool-cases (is_some pi.deletion_timestamp && is_empty fs)) [
                  | inl last ↦ inl (rw (now, last) tt)
                  | inr more ↦ inr (
                    ap (λ (x : CtrlResult). x.requeue) same,
                    last_pass next u (now ∙ rw (more) refl) deleted (
                        not_there fs (λ there.
                          ((lib.remove_iff credentials_finalizer credentials_finalizer
                                pi.finalizers).0
                              there).1
                            refl)),
                  )
                ],
              )
        ]
