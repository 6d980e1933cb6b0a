-- ===== src/Batch/Common.antt =====
-- Settings and small reads that the steps of the batch reconciliation share.
pub mod Sending
pub mod Placing
use openfilter_pipelines_con.Base.{
  Option, ◌≡◌, refl, none, some, String, Bool, true, false, ℤ, pos, ◌+ℤ◌, ltb_ℤ, int64, or_else,
  if◌then◌else◌,
}
use openfilter_pipelines_con.Go.{Op, Result, ok, err, is_ok}
use openfilter_pipelines_con.Api.{
  PipelineInstance, ExecutionConfig, get_queue_stream, get_queue_dlq, get_instance_id,
}
use openfilter_pipelines_con.Kube.{PodPhase, pod_succeeded, pod_failed, pod_running}
use openfilter_pipelines_con.Queue.{ValkeyClientInterface}

abbrev max_attempts_of : Option ExecutionConfig → ℤ
max_attempts_of none = pos 3
max_attempts_of (some e) = or_else e.max_attempts (pos 3)

-- `Spec.Execution.MaxAttempts`, 3 if it is not given.
unfoldable pub max_attempts : PipelineInstance → ℤ
max_attempts pi = max_attempts_of pi.spec.execution

-- `attempts++` on an `int`.
unfoldable pub incremented : ℤ → ℤ
incremented n = int64 (n +ℤ pos 1)

abbrev pub is_succeeded : PodPhase → Bool
is_succeeded pod_succeeded = true
is_succeeded _ = false

abbrev pub is_failed : PodPhase → Bool
is_failed pod_failed = true
is_failed _ = false

abbrev pub is_running : PodPhase → Bool
is_running pod_running = true
is_running _ = false

abbrev pub forget : {A : Type 0} → Result A → Result (Unit {0})
forget (ok a) = ok tt
forget (err e) = err e

pub is_ok-forget : {A : Type 0} (r : Result A) → is_ok (forget r) ≡ true → is_ok r ≡ true
is_ok-forget (ok a) h = refl
is_ok-forget (err e) h = cc

module _ {W : Type 0} (q : ValkeyClientInterface W) where
  -- `EnqueueFileWithAttempts`, where the caller drops the ID of the new message.
  pub enqueue : PipelineInstance → String → ℤ → Op W (Unit {0})
  enqueue pi file n w =
      let r = q.enqueue_file_with_attempts (get_queue_stream pi) (get_instance_id pi) file n w in
      (forget r.0, r.1)

  -- A file whose message failed for the `n`-th time goes back to the work stream while `n` is
  -- below the limit, and to the dead letter queue from then on.
  unfoldable pub send_on : PipelineInstance → String → ℤ → ℤ → String → Op W (Unit {0})
  unfolding enqueue
  send_on pi file n max reason w =
      if ltb_ℤ n max
      then enqueue pi file n w
      else q.add_to_dlq (get_queue_dlq pi) (get_instance_id pi) file n reason w
