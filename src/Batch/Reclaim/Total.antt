-- ===== src/Batch/Reclaim/Total.antt =====
-- What the reclaimer (`runReclaimer`, internal/controller/pipelineinstance_controller_batch.go) takes
-- from the account of the files, also where its reads fail.
use openfilter_pipelines_con.Base.{
  ℕ, pos, ◌≡◌, refl, sym, subst, inl, inr, List, [], ◌∷◌, is_empty, Bool-cases,
}
use openfilter_pipelines_con.Go.{Op, Result, ok, err, Error, Result-cases}
use openfilter_pipelines_con.Api.{
  PipelineInstance, get_queue_stream, get_queue_group, get_queue_dlq, get_instance_id,
}
use openfilter_pipelines_con.Kube.{Pod, Cluster}
use openfilter_pipelines_con.Queue.{XMessage, PendingEntry, ValkeyClientInterface}
use openfilter_pipelines_con.Queue.Accounting.{
  View, Loses, Loses-refl, Loses-after, Accounting, IsApart,
}
use openfilter_pipelines_con.Batch.Reclaim.{
  running_pods, reclaimable, min_idle_time, reclaim_entries, reclaim_pending, run_reclaimer,
}
use openfilter_pipelines_con.Batch.Reclaim.Conservation.{claim, done_of, run_reclaimer-Loses}

-- The two lists that the passes over an instance ask for.
abbrev pub listed : {W : Type 0} → Cluster W → PipelineInstance → Op W (List Pod)
listed k pi = k.list_pods pi.namespace "filter.plainsight.ai/instance" (get_instance_id pi)

abbrev pub stale :
    {W : Type 0} → ValkeyClientInterface W → PipelineInstance → Op W (List PendingEntry)
stale q pi =
    q.get_pending_entry_details (get_queue_stream pi) (get_queue_group pi) (min_idle_time pi)
      (pos 100)

module _ {W : Type 0} (q : ValkeyClientInterface W) (k : Cluster W) (v : View W)
    (pi : PipelineInstance)
    (laws : Accounting q v (get_queue_stream pi) (get_queue_group pi) (get_queue_dlq pi))
    (apart : IsApart k v) where
  abbrev claimed_of : List Pod → List PendingEntry → Result (List XMessage) → ℕ
  claimed_of pods entries (ok msgs) = done_of q k v pi laws apart pods entries msgs
  claimed_of pods entries (err e) = 0

  abbrev listed_of : List PendingEntry → Result (List Pod) → W → ℕ
  listed_of entries (ok pods) w =
      claimed_of pods entries (claim q k v pi laws apart pods entries w).0
  listed_of entries (err e) w = 0

  abbrev read_of : Result (List PendingEntry) → W → ℕ
  read_of (ok entries) w = listed_of entries (listed k pi w).0 (listed k pi w).1
  read_of (err e) w = 0

  -- The messages of succeeded pods that the reclaimer from this world on takes over.
  abbrev pub reclaimed_in : W → ℕ
  reclaimed_in w = read_of (stale q pi w).0 (stale q pi w).1

  unclaimed-Loses :
      (pods : List Pod) (entries : List PendingEntry) (e : Error) (w : W)
      → (claim q k v pi laws apart pods entries w).0 ≡ err e
      → Loses v 0 w (reclaim_entries q k pi pods entries w).1
  unfolding reclaim_entries
  unclaimed-Loses pods entries e w failed =
      elim (Bool-cases (is_empty (reclaimable (running_pods pods) entries))) [
        | inl fresh ↦ rw (fresh, reclaim_entries) (Loses-refl v w)
        | inr some_stale ↦
            rw (some_stale, reclaim_entries)
              (rw (failed, reclaim_entries) (laws.claim_keeps _ _ _ w))
      ]

  unlisted-Loses :
      (entries : List PendingEntry) (e : Error) (w : W)
      → (listed k pi w).0 ≡ err e
      → Loses v 0 w (reclaim_pending q k pi entries w).1
  unfolding reclaim_pending
  unlisted-Loses [] e w failed = Loses-refl v w
  unlisted-Loses (entry ∷ entries) e w failed =
      rw (failed, reclaim_pending) (apart.list_pods_keeps _ _ _ w)

  -- Where the messages could not be claimed, nothing is lost.
  unclaimed_run :
      (entries : List PendingEntry) (pods : List Pod) (e : Error) (w : W)
      → (stale q pi w).0 ≡ ok entries
      → (listed k pi (stale q pi w).1).0 ≡ ok pods
      → (claim q k v pi laws apart pods entries (listed k pi (stale q pi w).1).1).0 ≡ err e
      → Loses v 0 w (run_reclaimer q k pi w).1
  unfolding run_reclaimer reclaim_pending
  unclaimed_run [] pods e w read shown failed = rw (read, run_reclaimer) (laws.details_keeps _ _ w)
  unclaimed_run (entry ∷ entries) pods e w read shown failed =
      rw (read, run_reclaimer)
        (rw (shown, reclaim_pending)
          (Loses-after v 0 w _ _ (laws.details_keeps _ _ w) (
            Loses-after v 0 _ _ _ (apart.list_pods_keeps _ _ _ _)
              (unclaimed-Loses pods (entry ∷ entries) e _ failed))))

  unlisted_run :
      (entries : List PendingEntry) (e : Error) (w : W)
      → (stale q pi w).0 ≡ ok entries
      → (listed k pi (stale q pi w).1).0 ≡ err e
      → Loses v 0 w (run_reclaimer q k pi w).1
  unfolding run_reclaimer
  unlisted_run entries e w read failed =
      rw (read, run_reclaimer)
        (Loses-after v 0 w _ _ (laws.details_keeps _ _ w) (unlisted-Loses entries e _ failed))

  shown_run :
      (entries : List PendingEntry) (w : W)
      → (stale q pi w).0 ≡ ok entries
      → (o : Result (List Pod)) → (listed k pi (stale q pi w).1).0 ≡ o
      → Loses v (listed_of entries o (listed k pi (stale q pi w).1).1) w (run_reclaimer q k pi w).1
  shown_run entries w read (err e) failed = unlisted_run entries e w read failed
  shown_run entries w read (ok pods) shown =
      let u = (listed k pi (stale q pi w).1).1 in
      elim (Result-cases (claim q k v pi laws apart pods entries u).0) [
        | inl (msgs, c) ↦
            subst
              (λ (o : Result (List XMessage)).
                Loses v (claimed_of pods entries o) w (run_reclaimer q k pi w).1)
              (sym c) (run_reclaimer-Loses q k v pi laws apart entries pods msgs w read shown c)
        | inr (x, f) ↦
            subst
              (λ (o : Result (List XMessage)).
                Loses v (claimed_of pods entries o) w (run_reclaimer q k pi w).1)
              (sym f) (unclaimed_run entries pods x w read shown f)
      ]

  -- The reclaimer, whatever it reads.
  pub reclaimed-Loses : (w : W) → Loses v (reclaimed_in w) w (run_reclaimer q k pi w).1
  unfolding run_reclaimer
  reclaimed-Loses w =
      let read = stale q pi w in
      let shown = listed k pi read.1 in
      let out = (run_reclaimer q k pi w).1 in
      let from_read = λ (o : Result (List PendingEntry)). Loses v (read_of o read.1) w out in
      elim (Result-cases read.0) [
        | inr (x, f) ↦ subst from_read (sym f) (rw (f, run_reclaimer) (laws.details_keeps _ _ w))
        | inl (entries, e) ↦ subst from_read (sym e) (shown_run entries w e shown.0 refl)
      ]
