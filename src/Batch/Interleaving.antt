-- ===== src/Batch/Interleaving.antt =====
-- The handling of finished pods and the reclaimer
-- (internal/controller/pipelineinstance_controller_batch.go) in any order, pass after pass, between the
-- steps of the claimers and of other clients.
use openfilter_pipelines_con.Base.{ℕ, ◌+◌, sym, subst, inl, inr, List}
use openfilter_pipelines_con.Go.{Result, ok, err, Result-cases}
use openfilter_pipelines_con.Api.{
  PipelineInstance, get_queue_stream, get_queue_group, get_queue_dlq,
}
use openfilter_pipelines_con.Kube.{Pod, Cluster}
use openfilter_pipelines_con.Queue.{ValkeyClientInterface}
use openfilter_pipelines_con.Queue.Accounting.{
  View, Loses, Loses-refl, Loses-trans, Accounting, IsApart,
}
use openfilter_pipelines_con.Batch.Completed.{handle_completed_pods}
use openfilter_pipelines_con.Batch.Completed.Conservation.{
  finished_count, handle_completed_pods-Loses,
}
use openfilter_pipelines_con.Batch.Reclaim.{run_reclaimer}
use openfilter_pipelines_con.Batch.Reclaim.Total.{listed, reclaimed_in, reclaimed-Loses}

module _ {W : Type 0} (q : ValkeyClientInterface W) (k : Cluster W) (v : View W)
    (pi : PipelineInstance)
    (laws : Accounting q v (get_queue_stream pi) (get_queue_group pi) (get_queue_dlq pi))
    (apart : IsApart k v) (Other : W → W → Type 0) where
  abbrev finished_of : Result (List Pod) → ℕ
  finished_of (ok pods) = finished_count pods
  finished_of (err e) = 0

  -- The succeeded pods that a handling of finished pods from this world on is shown.
  abbrev pub finished_in : W → ℕ
  finished_in w = finished_of (listed k pi w).0

  -- One step, with the number of copies that it may retire.
  pub data Step : ℕ → W → W → Type 0 where
    handled : (w : W) → Step (finished_in w) w (handle_completed_pods q k pi w).1
    reclaimed : (w : W) → Step (reclaimed_in q k v pi laws apart w) w (run_reclaimer q k pi w).1
    elsewhere : (w u : W) → Other w u → Step 0 w u

  pub data Steps : ℕ → W → W → Type 0 where
    none_left : (w : W) → Steps 0 w w
    first : {m n : ℕ} {w u x : W} → Step m w u → Steps n u x → Steps (m + n) w x

  handled-Loses : (w : W) → Loses v (finished_in w) w (handle_completed_pods q k pi w).1
  unfolding handle_completed_pods
  handled-Loses w = elim (Result-cases (listed k pi w).0) [
    | inl (pods, e) ↦
        subst
          (λ (o : Result (List Pod)). Loses v (finished_of o) w (handle_completed_pods q k pi w).1)
          (sym e) (handle_completed_pods-Loses q k v pi laws apart pods w e)
    | inr (x, f) ↦ rw (f, handle_completed_pods) (apart.list_pods_keeps _ _ _ w)
  ]

  Step-Loses :
      ((w u : W) → Other w u → Loses v 0 w u) → {n : ℕ} {w u : W} → Step n w u → Loses v n w u
  Step-Loses others (handled w) = handled-Loses w
  Step-Loses others (reclaimed w) = reclaimed-Loses q k v pi laws apart w
  Step-Loses others (elsewhere w u o) = others w u o

  -- On a queue that follows `Accounting`, and where requests about pods leave it alone: over any number
  -- of handlings of finished pods and of runs of the reclaimer, in any order, between steps
  -- of others that lose no file, the copies of a file fall by at most the succeeded pods and the claimed messages
  -- of succeeded pods that these passes were shown, whichever of their requests fail.
  pub Steps-Loses :
      ((w u : W) → Other w u → Loses v 0 w u) → (n : ℕ) (w u : W) → Steps n w u → Loses v n w u
  Steps-Loses others n w u (none_left x) = Loses-refl v x
  Steps-Loses others _ w u (first {m = m} {n = n} {u = y} s rest) =
      Loses-trans v m n w y u (Step-Loses others s) (Steps-Loses others n y u rest)
