-- ===== src/Tests/Batches.antt =====
-- The passes of the controller over an instance in batch mode.
use openfilter_pipelines_con.Base.{
  String, ◌++◌, pos, ◌+◌, ◌-◌, ◌≡◌, ◌↔◌, ◌⊎◌, refl, true, List, [], ◌∷◌, Any, is_some, some, lookup,
  length, arith,
}
use openfilter_pipelines_con.Go.{ok}
use openfilter_pipelines_con.Queue.{XMessage, PendingEntry, ValkeyClientInterface}
use openfilter_pipelines_con.Queue.Accounting.{Loses}
use openfilter_pipelines_con.Batch.Completed.{handle_completed_pods}
use openfilter_pipelines_con.Batch.Completed.Conservation.{
  finished_count, handle_completed_pods-Loses,
}
use openfilter_pipelines_con.Batch.Reclaim.{
  run_reclaimer, running_pods, reclaimable, reclaim_ids, contains, min_idle_time, is_alive,
}
use openfilter_pipelines_con.Batch.Pods.{detect_container_crash}
use openfilter_pipelines_con.Batch.Reclaim.Conservation.{done_of, run_reclaimer-Loses}
use openfilter_pipelines_con.Batch.Reclaim.Liveness.{IsOrphan}
use openfilter_pipelines_con.Batch.Reclaim.Claiming.{IsAsking, run_reclaimer-asked}
use openfilter_pipelines_con.Batch.Status.{succeeded_of, check_completion}
use openfilter_pipelines_con.Batch.Status.Counts.{succeeded_of_lem}
use openfilter_pipelines_con.Batch.Status.Completion.{IsComplete, check_completion_iff}
use openfilter_pipelines_con.Batch.Flush.{flush_outstanding_work}
use openfilter_pipelines_con.Batch.Flush.Noted.{HasFailedBefore}
use openfilter_pipelines_con.Batch.Flush.Termination.{flush_outstanding_work-some}
use openfilter_pipelines_con.Batch.Job.Times.{IsTimed}
use openfilter_pipelines_con.Batch.Reconcile.{reconcile_batch}
use openfilter_pipelines_con.Batch.Reconcile.Times.{KeepsTimes, reconcile_batch-KeepsTimes}
use openfilter_pipelines_con.Tests.Samples.{
  instance_a, finished_instance, source, pipeline, pods, quiet_cluster, quiet_queue,
  quiet_reconciler,
}
use openfilter_pipelines_con.Tests.Memory.{
  memory_queue, memory_cluster, memory_view, two_files, message_of,
}
use openfilter_pipelines_con.Tests.MemoryLaws.{memory_queue-laws, memory_cluster-apart}
use openfilter_pipelines_con.Tests.Draining.{
  draining_queue, draining_queue-laws, three_left, Stream, flush_view, draining_queue-IsShowing,
}
use openfilter_pipelines_con.Batch.Common.{max_attempts}
use openfilter_pipelines_con.Batch.Flush.Merged.{IsCounted}
use openfilter_pipelines_con.Batch.Flush.Buried.{flush_outstanding_work-buries}

handle_completed_pods-Loses_example :
    Loses memory_view
      (finished_count pods)
      two_files
      (handle_completed_pods memory_queue memory_cluster instance_a two_files).1
handle_completed_pods-Loses_example =
    handle_completed_pods-Loses memory_queue memory_cluster memory_view instance_a
      (memory_queue-laws _ _ _) memory_cluster-apart pods two_files refl

abbrev stale : List PendingEntry
stale =
    record { id = "1-0"; consumer = "pod-0"; idle_ms = pos 999999 }
    ∷ record { id = "2-0"; consumer = "pod-0"; idle_ms = pos 999999 }
    ∷ []

abbrev both : List XMessage
both = message_of "1-0" "a.mp4" ∷ message_of "2-0" "b.mp4" ∷ []

run_reclaimer-Loses_example :
    Loses memory_view
      (done_of memory_queue memory_cluster memory_view instance_a
        (memory_queue-laws _ _ _)
        memory_cluster-apart
        pods
        stale
        both)
      two_files
      (run_reclaimer memory_queue memory_cluster instance_a two_files).1
unfolding running_pods reclaimable reclaim_ids contains min_idle_time lookup is_alive
    detect_container_crash
run_reclaimer-Loses_example =
    run_reclaimer-Loses memory_queue memory_cluster memory_view instance_a (memory_queue-laws _ _ _)
      memory_cluster-apart stale pods both two_files refl refl refl

-- The world is what XCLAIM was asked for.
abbrev asking_queue : ValkeyClientInterface (List String)
asking_queue =
    let q = quiet_queue (List String) in
    record q {
      get_pending_entry_details = λ s g idle n w. (ok stale, w);
      claim_messages = λ s g c idle ids w. (ok [], ids ++ w);
    }

asking_queue-IsAsking : IsAsking asking_queue (quiet_cluster (List String)) (λ w. w)
asking_queue-IsAsking = record {
  by_claim = λ s g c idle ids w. refl;
  by_details = λ s g idle n w. refl;
  by_list = λ ns key value w. refl;
  by_ack = λ s g id w. refl;
  by_delete = λ s ids w. refl;
  by_enqueue = λ s run f n w. refl;
  by_dlq = λ s run f n reason w. refl;
}

run_reclaimer-asked_example :
    Any {A = String}
      (λ x. x ≡ "1-0")
      (run_reclaimer asking_queue (quiet_cluster (List String)) instance_a []).1
    ↔ Any (λ e. (e.id ≡ "1-0") × IsOrphan pods e) stale
run_reclaimer-asked_example =
    run_reclaimer-asked asking_queue (quiet_cluster (List String)) (λ w. w) asking_queue-IsAsking
      instance_a stale pods [] refl refl refl "1-0"

flush_outstanding_work-buries_example :
    (u : Stream) × (flush_outstanding_work draining_queue 5
        (λ m. m)
        instance_a
        "the Job failed"
        three_left
      ≡ some u)
    × (length u.unread ≡ 0)
    × ((file : String)
        → Any (λ f. f ≡ file) u.buried ↔ (
            Any (HasFailedBefore (max_attempts instance_a) file) u.taken
            ⊎ Any (IsCounted (max_attempts instance_a) file) u.known))
flush_outstanding_work-buries_example =
    flush_outstanding_work-buries draining_queue instance_a _ _ draining_queue-laws flush_view
      draining_queue-IsShowing (λ m. m) (λ d file. refl) 5 "the Job failed" three_left (omega arith)
      (omega arith) refl refl refl

flush_outstanding_work-some_example :
    is_some
      (flush_outstanding_work draining_queue 5 (λ m. m) instance_a "the Job failed" three_left)
    ≡ true
flush_outstanding_work-some_example =
    flush_outstanding_work-some draining_queue instance_a _ _ draining_queue-laws 5 (λ m. m)
      "the Job failed" three_left (omega arith) (omega arith)

succeeded_of_lem_example : succeeded_of (pos 10) (pos 2) (pos 1) (pos 3) ≡ pos (10 - (2 + 1 + 3))
succeeded_of_lem_example =
    succeeded_of_lem 10 2 1 3 (omega arith) (omega arith) (omega arith) (omega arith)

check_completion_iff_example :
    ((check_completion (quiet_cluster (Unit {0})) finished_instance tt).0 ≡ ok true)
    ↔ IsComplete (quiet_cluster (Unit {0})) finished_instance tt
check_completion_iff_example = check_completion_iff (quiet_cluster (Unit {0})) finished_instance tt

finished-IsTimed : IsTimed 5 9 finished_instance
finished-IsTimed = record { started = refl; completed = refl }

reconcile_batch-KeepsTimes_example : KeepsTimes 5 9 (
    reconcile_batch
      (quiet_reconciler (Unit {0}))
      (quiet_queue (Unit {0}))
      3
      (λ m. m)
      finished_instance
      pipeline
      source
      tt)
reconcile_batch-KeepsTimes_example =
    reconcile_batch-KeepsTimes (quiet_reconciler (Unit {0})) (quiet_queue (Unit {0})) 5 9 3 (λ m. m)
      finished_instance pipeline source tt finished-IsTimed
