-- ===== src/Batch/Completed.antt =====
-- `handleCompletedPods` and `handleFailedPodMessage`: the message that a finished, crashed or stuck
-- pod had claimed is acknowledged, sent back to the work stream or moved to the dead letter queue.
pub mod Conservation
pub mod Placing
use openfilter_pipelines_con.Base.{
  ℤ, pos, Bool, true, false, not, ◌&&◌, ◌||◌, List, [], ◌∷◌, String, if◌then◌else◌,
}
use openfilter_pipelines_con.Go.{Result, ok, err, wrapped, Error, Op}
use openfilter_pipelines_con.Go.Strconv.{parse_attempts}
use openfilter_pipelines_con.Api.{
  PipelineInstance, get_queue_stream, get_queue_group, get_instance_id,
}
use openfilter_pipelines_con.Kube.{Pod, Cluster}
use openfilter_pipelines_con.Queue.{XMessage, value_of, ValkeyClientInterface}
use openfilter_pipelines_con.Batch.Common.{
  max_attempts, incremented, is_succeeded, is_failed, send_on,
}
use openfilter_pipelines_con.Batch.Pods.{
  detect_pod_start_failure, detect_container_crash, resolve_failure_reason,
}

-- `podFailureInfo`
pub record PodFailureInfo : Type 0 where
  pub start_failure_reason : String
  pub crash_reason : String
  pub has_start_failure : Bool
  pub has_crash : Bool

abbrev pub failure_info : Pod → PodFailureInfo
failure_info pod =
    let start = detect_pod_start_failure pod in
    let crash = detect_container_crash pod in
    record {
      start_failure_reason = start.0;
      crash_reason = crash.0;
      has_start_failure = start.1;
      has_crash = crash.1;
    }

-- The pod neither ended, nor is it stuck or half dead.
abbrev is_unfinished : Pod → PodFailureInfo → Bool
is_unfinished pod info =
    not (is_succeeded pod.phase)
    && not (is_failed pod.phase)
    && not info.has_start_failure
    && not info.has_crash

module _ {W : Type 0} (q : ValkeyClientInterface W) (k : Cluster W) where
  ack : PipelineInstance → String → Op W (Unit {0})
  ack pi id = q.ack_message (get_queue_stream pi) (get_queue_group pi) id

  -- A pod that is stuck or half dead is deleted, so that the Job makes a new one.
  delete_if_stuck : Pod → PodFailureInfo → W → W
  delete_if_stuck pod info w =
      if info.has_start_failure || info.has_crash then (k.delete_pod pod w).1 else w

  -- The message is acknowledged only behind a successful write of its file elsewhere.
  pub handle_failed_pod_message :
      PipelineInstance → Pod → String → String → ℤ → ℤ → PodFailureInfo → W → W
  unfolding ack delete_if_stuck
  handle_failed_pod_message pi pod message_id file attempts max info w =
      let reason = resolve_failure_reason pod info.start_failure_reason info.crash_reason in
      let sent = send_on q pi file (incremented attempts) max reason w in
      elim sent.0 [
        | err e ↦ sent.1
        | ok _ ↦
            let acked = ack pi message_id sent.1 in
            elim acked.0 [ err e ↦ acked.1 | ok _ ↦ delete_if_stuck pod info acked.1 ]
      ]

  -- What is done with the message that the pod had claimed.
  settle : PipelineInstance → ℤ → Pod → PodFailureInfo → String → List XMessage → W → W
  unfolding handle_failed_pod_message
  settle pi max pod info id [] w = (ack pi id w).1
  settle pi max pod info id (m ∷ _) w =
      if is_succeeded pod.phase
      then (ack pi id w).1
      else if is_failed pod.phase || info.has_start_failure || info.has_crash
      then handle_failed_pod_message pi pod id (value_of m "file")
          (parse_attempts (value_of m "attempts") (pos 0)) max info w
      else w

  settle_first : PipelineInstance → ℤ → Pod → PodFailureInfo → List String → W → W
  unfolding settle
  settle_first pi max pod info [] w = w
  settle_first pi max pod info (id ∷ _) w =
      let r = q.read_range (get_queue_stream pi) id id (pos 1) w in
      elim r.0 [ err e ↦ r.1 | ok msgs ↦ settle pi max pod info id msgs r.1 ]

  -- Looks for the message that the pod claimed: there is at most one.
  settle_pending : PipelineInstance → ℤ → Pod → PodFailureInfo → W → W
  unfolding settle_first
  settle_pending pi max pod info w =
      let r =
        q.get_pending_for_consumer (get_queue_stream pi) (get_queue_group pi) pod.name (pos 1) w in
      elim r.0 [ err e ↦ r.1 | ok ids ↦ settle_first pi max pod info ids r.1 ]

  -- One round of the loop over the pods.
  pub process_pod : PipelineInstance → ℤ → Pod → W → W
  unfolding settle_pending
  process_pod pi max pod w =
      let info = failure_info pod in
      if is_unfinished pod info then w else settle_pending pi max pod info w

  pub process_pods : PipelineInstance → ℤ → List Pod → W → W
  process_pods pi max [] w = w
  process_pods pi max (pod ∷ pods) w = process_pods pi max pods (process_pod pi max pod w)

  unfoldable pub handle_completed_pods : PipelineInstance → Op W (Unit {0})
  unfolding process_pods process_pod
  handle_completed_pods pi w =
      let r = k.list_pods pi.namespace "filter.plainsight.ai/instance" (get_instance_id pi) w in
      elim r.0 [
        | err e ↦ (err (wrapped "failed to list pods" e), r.1)
        | ok pods ↦ (ok tt, process_pods pi (max_attempts pi) pods r.1)
      ]
