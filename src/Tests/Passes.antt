-- ===== src/Tests/Passes.antt =====
-- Passes of the controller over an instance in batch mode, between steps of others.
use openfilter_pipelines_con.Base.{pos, ◌+◌, ◌≡◌, refl, sym, subst}
use openfilter_pipelines_con.Api.{get_queue_stream}
use openfilter_pipelines_con.Queue.Accounting.{Loses}
use openfilter_pipelines_con.Batch.Completed.{handle_completed_pods}
use openfilter_pipelines_con.Batch.Reclaim.{run_reclaimer}
use openfilter_pipelines_con.Batch.Reclaim.Total.{reclaimed_in}
use openfilter_pipelines_con.Batch.Interleaving.{
  finished_in, handled, reclaimed, elsewhere, none_left, first, Steps-Loses,
}
use openfilter_pipelines_con.Tests.Samples.{instance_a}
use openfilter_pipelines_con.Tests.Memory.{
  Memory, memory_queue, memory_cluster, memory_view, two_files,
}
use openfilter_pipelines_con.Tests.MemoryLaws.{memory_queue-laws, memory_cluster-apart}

-- Another client adds a file.
abbrev fed : Memory → Memory
fed w =
    (memory_queue.enqueue_file_with_attempts (get_queue_stream instance_a) "run" "c.mp4" (pos 0)
      w).1

abbrev Feeds : Memory → Memory → Type 0
Feeds w u = u ≡ fed w

Feeds-Loses : (w u : Memory) → Feeds w u → Loses memory_view 0 w u
Feeds-Loses w u e = subst (Loses memory_view 0 w) (sym e) (
    (memory_queue-laws (get_queue_stream instance_a) "g" "d").enqueue_keeps "run" "c.mp4" (pos 0) w)

abbrev settled : Memory
settled = (handle_completed_pods memory_queue memory_cluster instance_a two_files).1

abbrev last : Memory
last = (run_reclaimer memory_queue memory_cluster instance_a (fed settled)).1

Steps-Loses_example :
    Loses memory_view
      (finished_in memory_queue memory_cluster memory_view instance_a
          (memory_queue-laws _ _ _)
          memory_cluster-apart
          Feeds
          two_files
        + (0
            + (reclaimed_in memory_queue memory_cluster memory_view instance_a
                  (memory_queue-laws _ _ _)
                  memory_cluster-apart
                  (fed settled)
                + 0)))
      two_files
      last
Steps-Loses_example =
    Steps-Loses memory_queue memory_cluster memory_view instance_a (memory_queue-laws _ _ _)
      memory_cluster-apart Feeds Feeds-Loses _ two_files last
      (first (handled two_files) (
        first (elsewhere settled (fed settled) refl)
          (first (reclaimed (fed settled)) (none_left last))))
