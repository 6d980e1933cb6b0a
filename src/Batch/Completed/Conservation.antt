-- ===== src/Batch/Completed/Conservation.antt =====
-- No file is lost by the handling of finished pods.
use openfilter_pipelines_con.Base.{
  ℕ, ℤ, ◌+◌, ◌≡◌, true, inl, inr, List, [], ◌∷◌, some, String, arith, if◌then◌else◌, if_cases, ◌||◌,
  ap, Bool-cases, pos,
}
use openfilter_pipelines_con.Go.{ok, is_ok, Result-cases}
use openfilter_pipelines_con.Api.{
  PipelineInstance, get_queue_stream, get_queue_group, get_queue_dlq, get_instance_id,
}
use openfilter_pipelines_con.Kube.{Pod, Cluster}
use openfilter_pipelines_con.Queue.{XMessage, value_of, ValkeyClientInterface}
use openfilter_pipelines_con.Queue.Accounting.{
  View, Loses, Loses-refl, Loses-trans, Loses-after, Loses-mono, Adds-Takes, Takes-Loses,
  Accounting, IsApart,
}
use openfilter_pipelines_con.Batch.Common.{max_attempts, incremented, is_succeeded, send_on}
use openfilter_pipelines_con.Batch.Common.Sending.{send_on-Adds, send_on-Loses}
use openfilter_pipelines_con.Batch.Pods.{resolve_failure_reason}
use openfilter_pipelines_con.Batch.Completed.{
  PodFailureInfo, failure_info, delete_if_stuck, ack, handle_failed_pod_message, settle,
  settle_first, settle_pending, is_unfinished, process_pod, process_pods, handle_completed_pods,
}

-- What a pod may take from the account: its own message, if it succeeded.
abbrev pub finished : Pod → ℕ
finished pod = if is_succeeded pod.phase then 1 else 0

abbrev pub finished_count : List Pod → ℕ
finished_count [] = 0
finished_count (pod ∷ pods) = finished pod + finished_count pods

module _ {W : Type 0} (q : ValkeyClientInterface W) (k : Cluster W) (v : View W)
    (pi : PipelineInstance)
    (laws : Accounting q v (get_queue_stream pi) (get_queue_group pi) (get_queue_dlq pi))
    (apart : IsApart k v) where
  delete_if_stuck-Loses :
      (pod : Pod) (info : PodFailureInfo) (w : W) → Loses v 0 w (delete_if_stuck q k pod info w)
  unfolding delete_if_stuck
  delete_if_stuck-Loses pod info w =
      if_cases (Loses v 0 w) (info.has_start_failure || info.has_crash)
        (apart.delete_pod_keeps pod w) (Loses-refl v w)

  -- A message is acknowledged only behind a successful write of its file elsewhere, so a failed pod
  -- loses nothing, whichever of the requests fails.
  handle_failed_pod_message-Loses :
      (pod : Pod) (id file : String) (attempts max : ℤ) (info : PodFailureInfo) (w : W)
      → v.file_of w id ≡ some file
      → Loses v 0 w (handle_failed_pod_message q k pi pod id file attempts max info w)
  unfolding handle_failed_pod_message
  handle_failed_pod_message-Loses pod id file attempts max info w known =
      let n = incremented attempts in
      let reason = resolve_failure_reason pod info.start_failure_reason info.crash_reason in
      let sent = send_on q pi file n max reason w in
      let acked = ack q k pi id sent.1 in
      elim (Result-cases sent.0) [
        | inr (e, failed) ↦
            rw (failed, handle_failed_pod_message) (send_on-Loses q v pi laws file n max reason w)
        | inl (_, done) ↦
            let adds = send_on-Adds q v pi laws file n max reason w (ap is_ok done) in
            let retired =
              Adds-Takes v file w sent.1 acked.1 adds
                (laws.ack_takes id file sent.1 (adds.history id file known)) in
            elim (Result-cases acked.0) [
              | inr (e, failed) ↦
                  rw (done, handle_failed_pod_message)
                    (rw (failed, handle_failed_pod_message) retired)
              | inl (_, also) ↦
                  rw (done, handle_failed_pod_message)
                    (rw (also, handle_failed_pod_message)
                      (Loses-after v 0 w acked.1 _ retired
                        (delete_if_stuck-Loses pod info acked.1)))
            ]
      ]

  -- What a read of the one ID says of its message.
  abbrev Describes : W → String → List XMessage → Type 0
  Describes w id [] = v.is_gone w id ≡ true
  Describes w id (m ∷ _) = v.file_of w id ≡ some (value_of m "file")

  describes :
      (id : String) (w : W) (msgs : List XMessage)
      → (q.read_range (get_queue_stream pi) id id (pos 1) w).0 ≡ ok msgs
      → Describes (q.read_range (get_queue_stream pi) id id (pos 1) w).1 id msgs
  describes id w [] e = laws.read_gone id (pos 1) w e
  describes id w (m ∷ ms) e = laws.read_file id (pos 1) w m ms e

  settle-Loses :
      (max : ℤ) (pod : Pod) (info : PodFailureInfo) (id : String) (msgs : List XMessage) (w : W)
      → Describes w id msgs
      → Loses v (finished pod) w (settle q k pi max pod info id msgs w)
  unfolding settle ack
  settle-Loses max pod info id [] w h =
      Loses-mono v 0 (finished pod) _ _ (omega arith) (laws.ack_keeps id w h)
  settle-Loses max pod info id (m ∷ ms) w h = elim (Bool-cases (is_succeeded pod.phase)) [
    | inl done ↦ rw (done, settle) (Takes-Loses v (value_of m "file") _ _ (laws.ack_takes id _ w h))
    | inr not_done ↦
        rw (not_done, settle)
          (if_cases (Loses v 0 w) _
            (handle_failed_pod_message-Loses pod id (value_of m "file") _ max info w h)
            (Loses-refl v w))
  ]

  settle_first-Loses :
      (max : ℤ) (pod : Pod) (info : PodFailureInfo) (ids : List String) (w : W)
      → Loses v (finished pod) w (settle_first q k pi max pod info ids w)
  unfolding settle_first
  settle_first-Loses max pod info [] w =
      Loses-mono v 0 (finished pod) _ _ (omega arith) (Loses-refl v w)
  settle_first-Loses max pod info (id ∷ ids) w =
      let read = q.read_range (get_queue_stream pi) id id (pos 1) w in
      let kept = laws.read_keeps id (pos 1) w in
      elim (Result-cases read.0) [
        | inr (e, failed) ↦
            rw (failed, settle_first) (Loses-mono v 0 (finished pod) _ _ (omega arith) kept)
        | inl (msgs, found) ↦
            rw (found, settle_first)
              (Loses-after v (finished pod) w read.1 _ kept
                (settle-Loses max pod info id msgs read.1 (describes id w msgs found)))
      ]

  settle_pending-Loses :
      (max : ℤ) (pod : Pod) (info : PodFailureInfo) (w : W)
      → Loses v (finished pod) w (settle_pending q k pi max pod info w)
  unfolding settle_pending
  settle_pending-Loses max pod info w =
      let pending =
        q.get_pending_for_consumer (get_queue_stream pi) (get_queue_group pi) pod.name (pos 1) w in
      let kept = laws.pending_keeps pod.name (pos 1) w in
      elim (Result-cases pending.0) [
        | inr (e, failed) ↦
            rw (failed, settle_pending) (Loses-mono v 0 (finished pod) _ _ (omega arith) kept)
        | inl (ids, found) ↦
            rw (found, settle_pending)
              (Loses-after v (finished pod) w pending.1 _ kept
                (settle_first-Loses max pod info ids pending.1))
      ]

  -- One round of the loop loses at most the one message of a pod that succeeded.
  process_pod-Loses :
      (max : ℤ) (pod : Pod) (w : W) → Loses v (finished pod) w (process_pod q k pi max pod w)
  unfolding process_pod
  process_pod-Loses max pod w =
      if_cases (Loses v (finished pod) w) (is_unfinished pod (failure_info pod))
        (Loses-mono v 0 (finished pod) _ _ (omega arith) (Loses-refl v w))
        (settle_pending-Loses max pod (failure_info pod) w)

  process_pods-Loses :
      (max : ℤ) (pods : List Pod) (w : W)
      → Loses v (finished_count pods) w (process_pods q k pi max pods w)
  unfolding process_pods
  process_pods-Loses max [] w = Loses-refl v w
  process_pods-Loses max (pod ∷ pods) w =
      Loses-trans v (finished pod) (finished_count pods) w _ _ (process_pod-Loses max pod w)
        (process_pods-Loses max pods (process_pod q k pi max pod w))

  -- On a queue that follows `Accounting`, and where requests about pods leave it alone, the copies of a
  -- file fall over all pods that are listed by at most the number of pods that succeeded, whichever of
  -- the other requests to the queue and the cluster fail.
  pub handle_completed_pods-Loses :
      (pods : List Pod) (w : W)
      → (k.list_pods pi.namespace "filter.plainsight.ai/instance" (get_instance_id pi) w).0
        ≡ ok pods
      → Loses v (finished_count pods) w (handle_completed_pods q k pi w).1
  unfolding handle_completed_pods
  handle_completed_pods-Loses pods w listed =
      rw (listed, handle_completed_pods)
        (Loses-after v (finished_count pods) w _ _ (apart.list_pods_keeps _ _ _ w)
          (process_pods-Loses (max_attempts pi) pods _))
