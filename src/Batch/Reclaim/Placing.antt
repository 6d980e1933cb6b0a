-- ===== src/Batch/Reclaim/Placing.antt =====
-- Where the reclaimer (`runReclaimer`, internal/controller/pipelineinstance_controller_batch.go) puts
-- the file of a message that it took over.
use openfilter_pipelines_con.Base.{
  ℤ, pos, ◌≡◌, ◌∙◌, false, inl, inr, List, String, Dict, lookup, or_else,
}
use openfilter_pipelines_con.Go.{Result-cases}
use openfilter_pipelines_con.Go.Strconv.{parse_attempts}
use openfilter_pipelines_con.Api.{PipelineInstance, get_queue_stream, get_queue_group}
use openfilter_pipelines_con.Kube.{Cluster}
use openfilter_pipelines_con.Queue.{XMessage, value_of, ValkeyClientInterface}
use openfilter_pipelines_con.Batch.Common.{incremented, send_on}
use openfilter_pipelines_con.Batch.Common.Placing.{Place, IsPlacing, IsUp, place_of, send_on-place}
use openfilter_pipelines_con.Batch.Reclaim.{
  contains, retire, reclaimed_reason, resend, reclaim_message,
}

module _ {W : Type 0} (q : ValkeyClientInterface W) (k : Cluster W) (pi : PipelineInstance)
    (place : W → String → Place) (laws : IsPlacing q k pi place) where
  retire-place : (id file : String) (w : W) → place (retire q k pi id w) file ≡ place w file
  unfolding retire
  retire-place id file w =
      let acked = q.ack_message (get_queue_stream pi) (get_queue_group pi) id w in
      let kept = laws.ack_keeps (get_queue_stream pi) (get_queue_group pi) id file w in
      elim (Result-cases acked.0) [
        | inr (e, failed) ↦ rw (failed, retire) kept
        | inl (u, done) ↦ rw (done, retire) (laws.delete_keeps id file acked.1 ∙ kept)
      ]

  -- A message of a consumer that did not succeed is sent on with the next counter.
  pub reclaim_message-place :
      (max : ℤ) (succeeded : List String) (consumers : Dict String) (msg : XMessage) (w : W)
      → contains (or_else (lookup msg.id consumers) "") succeeded ≡ false
      → IsUp q pi w
      → place (reclaim_message q k pi max succeeded consumers msg w) (value_of msg "file")
        ≡ place_of (incremented (parse_attempts (value_of msg "attempts") (pos 0))) max
  unfolding reclaim_message resend
  reclaim_message-place max succeeded consumers msg w other up =
      let file = value_of msg "file" in
      let n = incremented (parse_attempts (value_of msg "attempts") (pos 0)) in
      let sent = send_on q pi file n max reclaimed_reason w in
      let (fine, there) = send_on-place q k pi place laws file n max reclaimed_reason w up in
      rw (other, reclaim_message)
        (elim (Result-cases sent.0) [
          | inr (e, failed) ↦ let bad = rw (failed) at fine in absurd (cc bad)
          | inl (u, done) ↦ rw (done, resend) (retire-place msg.id file sent.1 ∙ there)
        ])
