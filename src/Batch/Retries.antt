-- ===== src/Batch/Retries.antt =====
-- How often a file is tried: the counter that goes through the text of a message and back, in the
-- rounds of `handleCompletedPods` and `runReclaimer`
-- (internal/controller/pipelineinstance_controller_batch.go).
use openfilter_pipelines_con.Base.{
  ℕ, zero, suc, pos, ltb, ◌≡◌, false, List, ◌∷◌, String, Dict, lookup, or_else, if◌then◌else◌,
}
use openfilter_pipelines_con.Go.{ok}
use openfilter_pipelines_con.Go.Strconv.{itoa}
use openfilter_pipelines_con.Api.{PipelineInstance, get_queue_stream, get_queue_group}
use openfilter_pipelines_con.Kube.{Pod, Cluster}
use openfilter_pipelines_con.Queue.{XMessage, value_of, ValkeyClientInterface}
use openfilter_pipelines_con.Batch.Common.{max_attempts}
use openfilter_pipelines_con.Batch.Common.Placing.{Place, waiting, dead, IsPlacing, IsUp}
use openfilter_pipelines_con.Batch.Completed.{process_pod}
use openfilter_pipelines_con.Batch.Completed.Placing.{IsFailing}
use openfilter_pipelines_con.Batch.Reclaim.{contains, reclaim_message}

module _ {W : Type 0} (q : ValkeyClientInterface W) (k : Cluster W) (pi : PipelineInstance)
    (place : W → String → Place) (laws : IsPlacing q k pi place) (file : String) (m : ℕ)
    (limit : max_attempts pi ≡ pos m) where
  -- The message is the one with which the file waits.
  abbrev pub IsCurrent : W → XMessage → Type 0
  IsCurrent w msg =
      (value_of msg "file" ≡ file) × (place w file ≡ waiting (value_of msg "attempts"))

  -- The queue shows the message as the one that the pod claimed, and takes writes then.
  abbrev pub HasClaimed : W → Pod → String → List String → XMessage → List XMessage → Type 0
  HasClaimed w pod id ids msg msgs =
      let pending =
        q.get_pending_for_consumer (get_queue_stream pi) (get_queue_group pi) pod.name (pos 1) w in
      let read = q.read_range (get_queue_stream pi) id id (pos 1) pending.1 in
      (pending.0 ≡ ok (id ∷ ids)) × (read.0 ≡ ok (msg ∷ msgs)) × IsUp q pi read.1

  -- The message of the file failed while the queue took writes: the round over its pod, which failed,
  -- found it, or the reclaimer took it over from a consumer that is no succeeded pod.
  pub data Fails (w u : W) : Type 0 where
    by_pod :
        (pod : Pod) (id : String) (ids : List String) (msg : XMessage) (msgs : List XMessage)
        → IsFailing pod
        → HasClaimed w pod id ids msg msgs
        → IsCurrent w msg
        → u ≡ process_pod q k pi (max_attempts pi) pod w
        → Fails w u
    by_reclaimer :
        (succeeded : List String) (consumers : Dict String) (msg : XMessage)
        → contains (or_else (lookup msg.id consumers) "") succeeded ≡ false
        → IsUp q pi w
        → IsCurrent w msg
        → u ≡ reclaim_message q k pi (max_attempts pi) succeeded consumers msg w
        → Fails w u

  -- So it went `n` times.
  unfoldable pub FailsTimes : ℕ → W → W → Type 0
  FailsTimes zero w u = u ≡ w
  FailsTimes (suc n) w u = (v : W) × FailsTimes n w v × Fails v u

  abbrev pub place_after : ℕ → Place
  place_after n = if ltb n m then waiting (itoa (pos n)) else dead (pos n)
