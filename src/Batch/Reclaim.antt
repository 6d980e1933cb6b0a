-- ===== src/Batch/Reclaim.antt =====
-- `runReclaimer`: messages that stayed pending too long are taken over from consumers whose pods
-- no longer run.
pub mod Liveness
pub mod Conservation
pub mod Placing
pub mod Total
pub mod Claiming
use openfilter_pipelines_con.Base.{
  ℕ, zero, suc, ◌/◌, ℤ, pos, negsuc, sub_ℕ, Bool, true, false, not, ◌&&◌, ◌||◌, Option, none, some,
  List, [], ◌∷◌, String, str_eq, Dict, lookup, insert, or_else, is_empty, if◌then◌else◌,
}
use openfilter_pipelines_con.Go.{Result, ok, err, wrapped, Op}
use openfilter_pipelines_con.Go.Strconv.{parse_attempts}
use openfilter_pipelines_con.Api.{
  PipelineInstance, ExecutionConfig, get_queue_stream, get_queue_group, get_instance_id,
}
use openfilter_pipelines_con.Kube.{Pod, PodPhase, pod_running, pod_pending, Cluster}
use openfilter_pipelines_con.Queue.{XMessage, PendingEntry, value_of, ValkeyClientInterface}
use openfilter_pipelines_con.Batch.Common.{max_attempts, incremented, is_succeeded, send_on}
use openfilter_pipelines_con.Batch.Pods.{detect_container_crash}

-- `time.Duration.Milliseconds`: the quotient is cut towards 0.
abbrev milliseconds : ℤ → ℤ
milliseconds (pos n) = pos (n / 1000000)
milliseconds (negsuc n) = sub_ℕ 0 (suc n / 1000000)

abbrev pending_timeout_of : Option ExecutionConfig → ℤ
pending_timeout_of none = pos 900000000000
pending_timeout_of (some e) = or_else e.pending_timeout (pos 900000000000)

-- `Spec.Execution.PendingTimeout` in milliseconds, 15 minutes if it is not given.
unfoldable pub min_idle_time : PipelineInstance → ℤ
min_idle_time pi = milliseconds (pending_timeout_of pi.spec.execution)

unfoldable pub contains : String → List String → Bool
contains name [] = false
contains name (x ∷ xs) = str_eq x name || contains name xs

abbrev is_up : PodPhase → Bool
is_up pod_running = true
is_up pod_pending = true
is_up _ = false

-- A pod that runs or waits to run, with no crashed container.
unfoldable pub is_alive : Pod → Bool
is_alive pod = is_up pod.phase && not (detect_container_crash pod).1

-- `runningPods`
unfoldable pub running_pods : List Pod → List String
running_pods [] = []
running_pods (pod ∷ pods) =
    let rest = running_pods pods in if is_alive pod then pod.name ∷ rest else rest

-- `succeededPods`
pub succeeded_pods : List Pod → List String
succeeded_pods [] = []
succeeded_pods (pod ∷ pods) =
    let rest = succeeded_pods pods in if is_succeeded pod.phase then pod.name ∷ rest else rest

-- The entries that may be taken over: those of consumers that are not running.
unfoldable pub reclaimable : List String → List PendingEntry → List PendingEntry
unfolding contains
reclaimable running [] = []
reclaimable running (entry ∷ entries) =
    let rest = reclaimable running entries in
    if contains entry.consumer running then rest else entry ∷ rest

-- `reclaimIDs`
unfoldable pub reclaim_ids : List PendingEntry → List String
reclaim_ids [] = []
reclaim_ids (entry ∷ entries) = entry.id ∷ reclaim_ids entries

-- `reclaimConsumers`: from the message to the consumer that held it.
pub reclaim_consumers : List PendingEntry → Dict String → Dict String
reclaim_consumers [] m = m
reclaim_consumers (entry ∷ entries) m = reclaim_consumers entries (insert entry.id entry.consumer m)

abbrev reclaimed_reason : String
reclaimed_reason = "Max attempts exceeded (reclaimed stale message)"

module _ {W : Type 0} (q : ValkeyClientInterface W) (k : Cluster W) where
  -- XACK and, if it succeeded, XDEL.
  retire : PipelineInstance → String → W → W
  retire pi id w =
      let acked = q.ack_message (get_queue_stream pi) (get_queue_group pi) id w in
      elim acked.0 [
        | err e ↦ acked.1
        | ok _ ↦ (q.delete_messages (get_queue_stream pi) (id ∷ []) acked.1).1
      ]

  -- The message is retired only behind a successful write of its file elsewhere.
  resend : PipelineInstance → ℤ → XMessage → W → W
  unfolding retire
  resend pi max msg w =
      let n = incremented (parse_attempts (value_of msg "attempts") (pos 0)) in
      let sent = send_on q pi (value_of msg "file") n max reclaimed_reason w in
      elim sent.0 [ err e ↦ sent.1 | ok _ ↦ retire pi msg.id sent.1 ]

  -- One round of the loop over the messages that were taken over.
  pub reclaim_message : PipelineInstance → ℤ → List String → Dict String → XMessage → W → W
  unfolding retire resend contains
  reclaim_message pi max succeeded consumers msg w =
      if contains (or_else (lookup msg.id consumers) "") succeeded
      then retire pi msg.id w
      else resend pi max msg w

  pub reclaim_messages : PipelineInstance → ℤ → List String → Dict String → List XMessage → W → W
  reclaim_messages pi max succeeded consumers [] w = w
  reclaim_messages pi max succeeded consumers (msg ∷ msgs) w =
      reclaim_messages pi max succeeded consumers msgs
        (reclaim_message pi max succeeded consumers msg w)

  -- Takes the entries over from consumers that are gone.
  reclaim_entries : PipelineInstance → List Pod → List PendingEntry → Op W (Unit {0})
  unfolding running_pods succeeded_pods reclaimable reclaim_ids reclaim_consumers reclaim_messages
      reclaim_message
  reclaim_entries pi pods entries w =
      let stale = reclaimable (running_pods pods) entries in
      if is_empty stale
      then (ok tt, w)
      else let claimed =
          q.claim_messages (get_queue_stream pi) (get_queue_group pi) "controller-reclaimer"
            (min_idle_time pi) (reclaim_ids stale) w in
        elim claimed.0 [
          | err e ↦ (err (wrapped "failed to claim messages" e), claimed.1)
          | ok msgs ↦ (
            ok tt,
            reclaim_messages pi (max_attempts pi) (succeeded_pods pods) (reclaim_consumers stale [])
                msgs claimed.1,
          )
        ]

  -- With no pods listed nothing is taken over.
  reclaim_pending : PipelineInstance → List PendingEntry → Op W (Unit {0})
  unfolding reclaim_entries
  reclaim_pending pi [] w = (ok tt, w)
  reclaim_pending pi (entry ∷ entries) w =
      let r = k.list_pods pi.namespace "filter.plainsight.ai/instance" (get_instance_id pi) w in
      elim r.0 [
        | err e ↦ (err (wrapped "failed to list pods for reclaimer" e), r.1)
        | ok pods ↦ reclaim_entries pi pods (entry ∷ entries) r.1
      ]

  unfoldable pub run_reclaimer : PipelineInstance → Op W (Unit {0})
  unfolding min_idle_time reclaim_pending
  run_reclaimer pi w =
      let r =
        q.get_pending_entry_details (get_queue_stream pi) (get_queue_group pi) (min_idle_time pi)
          (pos 100) w in
      elim r.0 [
        | err e ↦ (err (wrapped "failed to get pending entry details" e), r.1)
        | ok entries ↦ reclaim_pending pi entries r.1
      ]
