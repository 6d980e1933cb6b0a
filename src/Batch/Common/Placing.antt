-- ===== src/Batch/Common/Placing.antt =====
-- Where a file is, and where `send_on` puts it.
use openfilter_pipelines_con.Base.{
  ℤ, ltb_ℤ, [], ◌∷◌, ◌≡◌, true, inl, inr, String, Bool-cases, if◌then◌else◌,
}
use openfilter_pipelines_con.Go.{is_ok, Result, ok, err}
use openfilter_pipelines_con.Go.Strconv.{itoa}
use openfilter_pipelines_con.Api.{
  PipelineInstance, get_queue_stream, get_queue_dlq, get_instance_id,
}
use openfilter_pipelines_con.Kube.{Pod, Cluster}
use openfilter_pipelines_con.Queue.{ValkeyClientInterface}
use openfilter_pipelines_con.Batch.Common.{forget, enqueue, send_on}

-- In the work stream, with the text of its counter, or in the dead letter queue.
pub data Place : Type 0 where
  waiting : String → Place
  dead : ℤ → Place

-- The documented effect of the two writes that succeed; acknowledging and deleting what a file was
-- moved on from leaves it where it is, and so do requests about pods.
pub record IsPlacing {W : Type 0} (q : ValkeyClientInterface W) (k : Cluster W)
    (pi : PipelineInstance) (place : W → String → Place) : Type 0 where
  pub enqueued :
      (file : String) (n : ℤ) (w : W)
      → let sent =
          q.enqueue_file_with_attempts (get_queue_stream pi) (get_instance_id pi) file n w in
        is_ok sent.0 ≡ true → place sent.1 file ≡ waiting (itoa n)
  pub buried :
      (file : String) (n : ℤ) (reason : String) (w : W)
      → let sent = q.add_to_dlq (get_queue_dlq pi) (get_instance_id pi) file n reason w in
        is_ok sent.0 ≡ true → place sent.1 file ≡ dead n
  pub ack_keeps :
      (s g id file : String) (w : W) → place (q.ack_message s g id w).1 file ≡ place w file
  pub delete_keeps :
      (id file : String) (w : W)
      → place (q.delete_messages (get_queue_stream pi) (id ∷ []) w).1 file ≡ place w file
  pub pod_keeps :
      (pod : Pod) (file : String) (w : W) → place (k.delete_pod pod w).1 file ≡ place w file

-- The queue takes any write to the work stream and to the dead letter queue.
abbrev pub IsUp : {W : Type 0} → ValkeyClientInterface W → PipelineInstance → W → Type 0
IsUp q pi w =
    ((file : String) (n : ℤ)
      → is_ok (q.enqueue_file_with_attempts (get_queue_stream pi) (get_instance_id pi) file n w).0
        ≡ true)
    × ((file : String) (n : ℤ) (reason : String)
        → is_ok (q.add_to_dlq (get_queue_dlq pi) (get_instance_id pi) file n reason w).0 ≡ true)

-- The place of a file that failed for the `n`-th time.
abbrev pub place_of : ℤ → ℤ → Place
place_of n max = if ltb_ℤ n max then waiting (itoa n) else dead n

forget-is_ok : {A : Type 0} (r : Result A) → is_ok r ≡ true → is_ok (forget r) ≡ true
forget-is_ok (ok a) h = h
forget-is_ok (err e) h = h

module _ {W : Type 0} (q : ValkeyClientInterface W) (k : Cluster W) (pi : PipelineInstance)
    (place : W → String → Place) (laws : IsPlacing q k pi place) where
  pub send_on-place :
      (file : String) (n max : ℤ) (reason : String) (w : W)
      → IsUp q pi w
      → (is_ok (send_on q pi file n max reason w).0 ≡ true)
        × (place (send_on q pi file n max reason w).1 file ≡ place_of n max)
  unfolding send_on enqueue
  send_on-place file n max reason w (enqueues, buries) = elim (Bool-cases (ltb_ℤ n max)) [
    | inl low ↦
        let sent = enqueues file n in rw (low) (forget-is_ok _ sent, laws.enqueued file n w sent)
    | inr high ↦
        let sent = buries file n reason in rw (high) (sent, laws.buried file n reason w sent)
  ]
