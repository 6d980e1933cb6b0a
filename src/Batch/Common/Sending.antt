-- ===== src/Batch/Common/Sending.antt =====
-- Sending a file on loses nothing, and adds a copy of it if it succeeds.
use openfilter_pipelines_con.Base.{ℤ, ◌≡◌, true, inl, inr, String, ltb_ℤ, Bool-cases}
use openfilter_pipelines_con.Go.{is_ok}
use openfilter_pipelines_con.Api.{
  PipelineInstance, get_queue_stream, get_queue_group, get_queue_dlq, get_instance_id,
}
use openfilter_pipelines_con.Queue.{ValkeyClientInterface}
use openfilter_pipelines_con.Queue.Accounting.{View, Loses, Adds, Accounting}
use openfilter_pipelines_con.Batch.Common.{is_ok-forget, send_on}

module _ {W : Type 0} (q : ValkeyClientInterface W) (v : View W) (pi : PipelineInstance)
    (laws : Accounting q v (get_queue_stream pi) (get_queue_group pi) (get_queue_dlq pi)) where
  pub send_on-Adds :
      (file : String) (n max : ℤ) (reason : String) (w : W)
      → is_ok (send_on q pi file n max reason w).0 ≡ true
      → Adds v file w (send_on q pi file n max reason w).1
  unfolding send_on
  send_on-Adds file n max reason w h = elim (Bool-cases (ltb_ℤ n max)) [
    | inl low ↦
        let sent = rw low at h in
        rw low (laws.enqueue_adds (get_instance_id pi) file n w (is_ok-forget _ sent))
    | inr high ↦ rw high (laws.dlq_adds (get_instance_id pi) file n reason w (rw high at h))
  ]

  pub send_on-Loses :
      (file : String) (n max : ℤ) (reason : String) (w : W)
      → Loses v 0 w (send_on q pi file n max reason w).1
  unfolding send_on
  send_on-Loses file n max reason w = elim (Bool-cases (ltb_ℤ n max)) [
    | inl low ↦ rw low (laws.enqueue_keeps _ file n w)
    | inr high ↦ rw high (laws.dlq_keeps _ file n reason w)
  ]
