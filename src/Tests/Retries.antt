-- ===== src/Tests/Retries.antt =====
-- A file that fails twice, with two attempts allowed: first its pod, then its stale message.
use openfilter_pipelines_con.Base.{String, pos, some, none, [], ◌∷◌, List}
use openfilter_pipelines_con.Go.{ok}
use openfilter_pipelines_con.Go.Strconv.{itoa}
use openfilter_pipelines_con.Api.{PipelineInstance}
use openfilter_pipelines_con.Kube.{Cluster, pod_failed}
use openfilter_pipelines_con.Queue.{XMessage, ValkeyClientInterface}
use openfilter_pipelines_con.Batch.Common.{max_attempts}
use openfilter_pipelines_con.Batch.Common.Placing.{Place, waiting, dead}
use openfilter_pipelines_con.Batch.Completed.{process_pod}
use openfilter_pipelines_con.Batch.Reclaim.{reclaim_message}
use openfilter_pipelines_con.Tests.Samples.{instance_a, pod, quiet_queue, quiet_cluster}

abbrev two_attempts : PipelineInstance
two_attempts =
    let spec = instance_a.spec in
    record instance_a {
      spec = record spec {
        execution =
            some
              (record { parallelism = none; max_attempts = some (pos 2); pending_timeout = none });
      };
    }

abbrev message_with : String → XMessage
message_with text = record { id = "1-0"; values = ("file", "a.mp4") ∷ ("attempts", text) ∷ [] }

abbrev shown : Place → List XMessage
shown (waiting text) = message_with text ∷ []
shown (dead n) = []

-- The world is the place of the one file.
abbrev placing_queue : ValkeyClientInterface Place
placing_queue =
    let q = quiet_queue Place in
    record q {
      enqueue_file_with_attempts = λ s run f n w. (ok "9-0", waiting (itoa n));
      add_to_dlq = λ d run f n reason w. (ok tt, dead n);
      get_pending_for_consumer = λ s g c n w. (ok ("1-0" ∷ []), w);
      read_range = λ s from to n w. (ok (shown w), w);
    }

abbrev k : Cluster Place
k = quiet_cluster Place

abbrev once : Place
once =
    process_pod placing_queue k two_attempts (max_attempts two_attempts) (pod "pod-0" pod_failed)
      (waiting "0")

abbrev twice : Place
twice =
    reclaim_message placing_queue k two_attempts (max_attempts two_attempts) [] []
      (message_with "1") once
