-- ===== src/Batch/Completed/Placing.antt =====
-- Where `handleCompletedPods` (internal/controller/pipelineinstance_controller_batch.go) puts the file
-- of a pod that failed.
use openfilter_pipelines_con.Base.{
  ℤ, pos, ◌≡◌, refl, ◌∙◌, true, false, inl, inr, ◌||◌, List, ◌∷◌, String, arith, if_cases,
}
use openfilter_pipelines_con.Go.{ok, Result-cases}
use openfilter_pipelines_con.Go.Strconv.{parse_attempts}
use openfilter_pipelines_con.Api.{PipelineInstance, get_queue_stream, get_queue_group}
use openfilter_pipelines_con.Kube.{Pod, Cluster}
use openfilter_pipelines_con.Queue.{XMessage, value_of, ValkeyClientInterface}
use openfilter_pipelines_con.Batch.Common.{incremented, is_succeeded, is_failed, send_on}
use openfilter_pipelines_con.Batch.Common.Placing.{Place, IsPlacing, IsUp, place_of, send_on-place}
use openfilter_pipelines_con.Batch.Pods.{resolve_failure_reason}
use openfilter_pipelines_con.Batch.Completed.{
  PodFailureInfo, failure_info, ack, delete_if_stuck, handle_failed_pod_message, settle,
  settle_first, settle_pending, is_unfinished, process_pod,
}

-- The pod failed, cannot start, or has a crashed container, and did not succeed.
abbrev pub IsFailing : Pod → Type 0
IsFailing pod =
    let info = failure_info pod in
    (is_succeeded pod.phase ≡ false)
    × ((is_failed pod.phase || info.has_start_failure || info.has_crash) ≡ true)

-- The counter of a message.
abbrev pub counter : XMessage → ℤ
counter msg = parse_attempts (value_of msg "attempts") (pos 0)

module _ {W : Type 0} (q : ValkeyClientInterface W) (k : Cluster W) (pi : PipelineInstance)
    (place : W → String → Place) (laws : IsPlacing q k pi place) where
  delete_if_stuck-place :
      (pod : Pod) (info : PodFailureInfo) (file : String) (w : W)
      → place (delete_if_stuck q k pod info w) file ≡ place w file
  unfolding delete_if_stuck
  delete_if_stuck-place pod info file w =
      if_cases (λ (u : W). place u file ≡ place w file) (info.has_start_failure || info.has_crash)
        (laws.pod_keeps pod file w) refl

  handle_failed_pod_message-place :
      (pod : Pod) (id file : String) (attempts max : ℤ) (info : PodFailureInfo) (w : W)
      → IsUp q pi w
      → place (handle_failed_pod_message q k pi pod id file attempts max info w) file
        ≡ place_of (incremented attempts) max
  unfolding handle_failed_pod_message ack
  handle_failed_pod_message-place pod id file attempts max info w up =
      let n = incremented attempts in
      let reason = resolve_failure_reason pod info.start_failure_reason info.crash_reason in
      let sent = send_on q pi file n max reason w in
      let (fine, there) = send_on-place q k pi place laws file n max reason w up in
      let acked = ack q k pi id sent.1 in
      let kept = laws.ack_keeps (get_queue_stream pi) (get_queue_group pi) id file sent.1 ∙ there in
      elim (Result-cases sent.0) [
        | inr (e, failed) ↦ let bad = rw (failed) at fine in absurd (cc bad)
        | inl (u, done) ↦ elim (Result-cases acked.0) [
          | inr (e, failed) ↦
              rw (done, handle_failed_pod_message) (rw (failed, handle_failed_pod_message) kept)
          | inl (v, also) ↦
              rw (done, handle_failed_pod_message)
                (rw (also, handle_failed_pod_message)
                  (delete_if_stuck-place pod info file acked.1 ∙ kept))
        ]
      ]

  -- One round over a failing pod, whose message was found, sends its file on with the next counter.
  pub process_pod-place :
      (max : ℤ) (pod : Pod) (id : String) (ids : List String) (msg : XMessage)
      (msgs : List XMessage) (w : W)
      → IsFailing pod
      → let pending =
          q.get_pending_for_consumer
            (get_queue_stream pi)
            (get_queue_group pi)
            pod.name
            (pos 1)
            w in
        let read = q.read_range (get_queue_stream pi) id id (pos 1) pending.1 in
        pending.0 ≡ ok (id ∷ ids)
        → read.0 ≡ ok (msg ∷ msgs)
        → IsUp q pi read.1
        → place (process_pod q k pi max pod w) (value_of msg "file")
          ≡ place_of (incremented (counter msg)) max
  unfolding process_pod settle_pending settle_first settle
  process_pod-place max pod id ids msg msgs w (ran, failing) found shown up =
      let info = failure_info pod in
      let unfinished : is_unfinished pod info ≡ false = ground arith in
      rw (unfinished, process_pod)
        (rw (found, settle_pending)
          (rw (shown, settle_first)
            (rw (ran, settle)
              (rw (failing, settle)
                (handle_failed_pod_message-place pod id (value_of msg "file") (counter msg) max info
                  _ up)))))
