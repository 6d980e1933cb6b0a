-- ===== src/Batch/Reclaim/Conservation.antt =====
-- No file is lost by the reclaimer.
use openfilter_pipelines_con.Base.{
  ℕ, ℤ, pos, ◌+◌, ◌≡◌, Bool, inl, inr, List, [], ◌∷◌, Dict, some, String, arith, is_empty, lookup,
  or_else, All, if◌then◌else◌, Bool-cases, ap,
}
use openfilter_pipelines_con.Go.{Op, ok, is_ok, Result-cases}
use openfilter_pipelines_con.Go.Strconv.{parse_attempts}
use openfilter_pipelines_con.Api.{
  PipelineInstance, get_queue_stream, get_queue_group, get_queue_dlq, get_instance_id,
}
use openfilter_pipelines_con.Kube.{Pod, Cluster}
use openfilter_pipelines_con.Queue.{XMessage, PendingEntry, value_of, ValkeyClientInterface}
use openfilter_pipelines_con.Queue.Accounting.{
  View, Loses, Takes, Takes-after, Remembers, Loses-refl, Loses-trans, Loses-after, Loses-mono,
  Adds-Takes, Takes-Loses, Accounting, IsApart,
}
use openfilter_pipelines_con.Batch.Common.{max_attempts, incremented, send_on}
use openfilter_pipelines_con.Batch.Common.Sending.{send_on-Adds, send_on-Loses}
use openfilter_pipelines_con.Batch.Reclaim.{
  contains, succeeded_pods, running_pods, reclaimable, reclaim_ids, reclaim_consumers,
  min_idle_time, retire, reclaimed_reason, resend, reclaim_message, reclaim_messages,
  reclaim_entries, reclaim_pending, run_reclaimer,
}

-- A message of a pod that succeeded needs no second run.
abbrev pub is_done : List String → Dict String → XMessage → Bool
is_done succeeded consumers msg = contains (or_else (lookup msg.id consumers) "") succeeded

abbrev pub done_count : List String → Dict String → List XMessage → ℕ
done_count succeeded consumers [] = 0
done_count succeeded consumers (msg ∷ msgs) =
    (if is_done succeeded consumers msg then 1 else 0) + done_count succeeded consumers msgs

module _ {W : Type 0} (q : ValkeyClientInterface W) (k : Cluster W) (v : View W)
    (pi : PipelineInstance)
    (laws : Accounting q v (get_queue_stream pi) (get_queue_group pi) (get_queue_dlq pi))
    (apart : IsApart k v) where
  -- The messages stand in the account under their IDs.
  abbrev pub AreKnown : W → List XMessage → Type 0
  AreKnown w = All (λ m. v.file_of w m.id ≡ some (value_of m "file"))

  AreKnown-later :
      (w u : W) (msgs : List XMessage) → Remembers v w u → AreKnown w msgs → AreKnown u msgs
  AreKnown-later w u [] r h = tt
  AreKnown-later w u (m ∷ ms) r h = (r m.id _ h.0, AreKnown-later w u ms r h.1)

  retire-Takes :
      (id f : String) (w : W) → v.file_of w id ≡ some f → Takes v f w (retire q k pi id w)
  unfolding retire
  retire-Takes id f w known =
      let acked = q.ack_message (get_queue_stream pi) (get_queue_group pi) id w in
      let took = laws.ack_takes id f w known in
      elim (Result-cases acked.0) [
        | inr (e, failed) ↦ rw (failed, retire) took
        | inl (_, done) ↦
            rw (done, retire)
              (Takes-after v f w acked.1 _ took
                (laws.delete_keeps id acked.1 (laws.ack_gone id w (ap is_ok done))))
      ]

  -- The file is written elsewhere before its message is retired.
  resend-Loses :
      (max : ℤ) (msg : XMessage) (w : W)
      → v.file_of w msg.id ≡ some (value_of msg "file")
      → Loses v 0 w (resend q k pi max msg w)
  unfolding resend
  resend-Loses max msg w known =
      let file = value_of msg "file" in
      let n = incremented (parse_attempts (value_of msg "attempts") (pos 0)) in
      let sent = send_on q pi file n max reclaimed_reason w in
      elim (Result-cases sent.0) [
        | inr (e, failed) ↦ rw (failed, resend) (send_on-Loses q v pi laws file n max _ w)
        | inl (_, done) ↦
            let adds = send_on-Adds q v pi laws file n max reclaimed_reason w (ap is_ok done) in
            rw (done, resend)
              (Adds-Takes v file w sent.1 _ adds
                (retire-Takes msg.id file sent.1 (adds.history msg.id file known)))
      ]

  reclaim_message-Loses :
      (max : ℤ) (succeeded : List String) (consumers : Dict String) (msg : XMessage) (w : W)
      → v.file_of w msg.id ≡ some (value_of msg "file")
      → Loses v
          (if is_done succeeded consumers msg then 1 else 0)
          w
          (reclaim_message q k pi max succeeded consumers msg w)
  unfolding reclaim_message
  reclaim_message-Loses max succeeded consumers msg w known =
      elim (Bool-cases (is_done succeeded consumers msg)) [
        | inl done ↦
            rw (done, reclaim_message)
              (Takes-Loses v (value_of msg "file") w _ (retire-Takes msg.id _ w known))
        | inr todo ↦ rw (todo, reclaim_message) (resend-Loses max msg w known)
      ]

  reclaim_messages-Loses :
      (max : ℤ) (succeeded : List String) (consumers : Dict String) (msgs : List XMessage) (w : W)
      → AreKnown w msgs
      → Loses v
          (done_count succeeded consumers msgs)
          w
          (reclaim_messages q k pi max succeeded consumers msgs w)
  unfolding reclaim_messages
  reclaim_messages-Loses max succeeded consumers [] w known = Loses-refl v w
  reclaim_messages-Loses max succeeded consumers (msg ∷ msgs) w known =
      let u = reclaim_message q k pi max succeeded consumers msg w in
      let first = reclaim_message-Loses max succeeded consumers msg w known.0 in
      Loses-trans v (if is_done succeeded consumers msg then 1 else 0)
        (done_count succeeded consumers msgs) w u _ first
        (reclaim_messages-Loses max succeeded consumers msgs u
          (AreKnown-later w u msgs first.history known.1))

  -- The messages that are claimed for the stale entries, with the pods and entries as listed.
  abbrev pub claim : List Pod → List PendingEntry → Op W (List XMessage)
  claim pods entries =
      q.claim_messages (get_queue_stream pi) (get_queue_group pi) "controller-reclaimer"
        (min_idle_time pi) (reclaim_ids (reclaimable (running_pods pods) entries))

  abbrev pub done_of : List Pod → List PendingEntry → List XMessage → ℕ
  done_of pods entries =
      done_count (succeeded_pods pods)
        (reclaim_consumers (reclaimable (running_pods pods) entries) [])

  reclaim_entries-Loses :
      (pods : List Pod) (entries : List PendingEntry) (msgs : List XMessage) (w : W)
      → (claim pods entries w).0 ≡ ok msgs
      → Loses v (done_of pods entries msgs) w (reclaim_entries q k pi pods entries w).1
  unfolding reclaim_entries
  reclaim_entries-Loses pods entries msgs w claimed =
      elim (Bool-cases (is_empty (reclaimable (running_pods pods) entries))) [
        | inl none_stale ↦
            rw (none_stale, reclaim_entries)
              (Loses-mono v 0 (done_of pods entries msgs) w w (omega arith) (Loses-refl v w))
        | inr stale ↦
            rw (stale, reclaim_entries)
              (rw (claimed, reclaim_entries)
                (Loses-after v (done_of pods entries msgs) w (claim pods entries w).1 _
                  (laws.claim_keeps _ _ _ w)
                  (reclaim_messages-Loses (max_attempts pi) _ _ msgs _
                    (laws.claim_files _ _ _ w msgs claimed))))
      ]

  reclaim_pending-Loses :
      (pods : List Pod) (entries : List PendingEntry) (msgs : List XMessage) (w : W)
      → let listed =
          k.list_pods pi.namespace "filter.plainsight.ai/instance" (get_instance_id pi) w in
        listed.0 ≡ ok pods
        → (claim pods entries listed.1).0 ≡ ok msgs
        → Loses v (done_of pods entries msgs) w (reclaim_pending q k pi entries w).1
  unfolding reclaim_pending
  reclaim_pending-Loses pods [] msgs w listed claimed =
      Loses-mono v 0 (done_of pods [] msgs) w w (omega arith) (Loses-refl v w)
  reclaim_pending-Loses pods (entry ∷ entries) msgs w listed claimed =
      rw (listed, reclaim_pending)
        (Loses-after v (done_of pods (entry ∷ entries) msgs) w _ _ (apart.list_pods_keeps _ _ _ w)
          (reclaim_entries-Loses pods (entry ∷ entries) msgs _ claimed))

  -- On a queue that follows `Accounting`, and where requests about pods leave it alone: where the
  -- entries, the pods and the claimed messages are read, the copies of a file fall by at
  -- most the number of claimed messages whose pod succeeded, whichever of the writes fail.
  pub run_reclaimer-Loses :
      (entries : List PendingEntry) (pods : List Pod) (msgs : List XMessage) (w : W)
      → let details =
          q.get_pending_entry_details
            (get_queue_stream pi)
            (get_queue_group pi)
            (min_idle_time pi)
            (pos 100)
            w in
        let listed =
          k.list_pods pi.namespace "filter.plainsight.ai/instance" (get_instance_id pi) details.1 in
        details.0 ≡ ok entries
        → listed.0 ≡ ok pods
        → (claim pods entries listed.1).0 ≡ ok msgs
        → Loses v (done_of pods entries msgs) w (run_reclaimer q k pi w).1
  unfolding run_reclaimer
  run_reclaimer-Loses entries pods msgs w read listed claimed =
      rw (read, run_reclaimer)
        (Loses-after v (done_of pods entries msgs) w _ _ (laws.details_keeps _ _ w)
          (reclaim_pending-Loses pods entries msgs _ listed claimed))
