-- ===== src/Batch/Reclaim/Claiming.antt =====
-- Which messages the reclaimer asks for (`runReclaimer`,
-- internal/controller/pipelineinstance_controller_batch.go).
use mathlib.Core.List.{append-nil}
use openfilter_pipelines_con.Base.{
  ℤ, pos, ◌≡◌, ◌↔◌, refl, sym, ap, ◌∙◌, subst, true, inl, inr, List, [], ◌∷◌, ◌++◌, String, Dict,
  Any, ltb_ℤ, is_empty, lookup, or_else, Bool-cases, if_cases,
}
use openfilter_pipelines_con.Go.{ok, Result-cases}
use openfilter_pipelines_con.Go.Strconv.{parse_attempts}
use openfilter_pipelines_con.Api.{PipelineInstance, get_queue_stream, get_queue_group}
use openfilter_pipelines_con.Kube.{Pod, Cluster}
use openfilter_pipelines_con.Queue.{XMessage, PendingEntry, value_of, ValkeyClientInterface}
use openfilter_pipelines_con.Batch.Common.{incremented, send_on}
use openfilter_pipelines_con.Batch.Reclaim.{
  contains, running_pods, reclaimable, reclaim_ids, min_idle_time, retire, resend, reclaimed_reason,
  reclaim_message, reclaim_messages, reclaim_entries, reclaim_pending, run_reclaimer,
}
use openfilter_pipelines_con.Batch.Reclaim.Liveness.{IsOrphan, reclaim_ids_iff}
use openfilter_pipelines_con.Batch.Reclaim.Total.{listed, stale}

-- `asked w` are the IDs that XCLAIM was asked for so far, whatever it answered: it adds those of its
-- own request, and no other request adds any.
pub record IsAsking {W : Type 0} (q : ValkeyClientInterface W) (k : Cluster W)
    (asked : W → List String) : Type 0 where
  pub by_claim :
      (s g consumer : String) (idle : ℤ) (ids : List String) (w : W)
      → asked (q.claim_messages s g consumer idle ids w).1 ≡ ids ++ asked w
  pub by_details :
      (s g : String) (idle n : ℤ) (w : W)
      → asked (q.get_pending_entry_details s g idle n w).1 ≡ asked w
  pub by_list : (ns key value : String) (w : W) → asked (k.list_pods ns key value w).1 ≡ asked w
  pub by_ack : (s g id : String) (w : W) → asked (q.ack_message s g id w).1 ≡ asked w
  pub by_delete :
      (s : String) (ids : List String) (w : W) → asked (q.delete_messages s ids w).1 ≡ asked w
  pub by_enqueue :
      (s run f : String) (n : ℤ) (w : W)
      → asked (q.enqueue_file_with_attempts s run f n w).1 ≡ asked w
  pub by_dlq :
      (s run f : String) (n : ℤ) (reason : String) (w : W)
      → asked (q.add_to_dlq s run f n reason w).1 ≡ asked w

module _ {W : Type 0} (q : ValkeyClientInterface W) (k : Cluster W) (asked : W → List String)
    (laws : IsAsking q k asked) (pi : PipelineInstance) where
  retire-asked : (id : String) (w : W) → asked (retire q k pi id w) ≡ asked w
  unfolding retire
  retire-asked id w =
      let acked = q.ack_message (get_queue_stream pi) (get_queue_group pi) id w in
      let same = laws.by_ack (get_queue_stream pi) (get_queue_group pi) id w in
      elim (Result-cases acked.0) [
        | inr (e, f) ↦ rw (f, retire) same
        | inl (u, e) ↦ rw (e, retire) (laws.by_delete _ _ acked.1 ∙ same)
      ]

  send_on-asked :
      (file : String) (n max : ℤ) (reason : String) (w : W)
      → asked (send_on q pi file n max reason w).1 ≡ asked w
  unfolding send_on
  send_on-asked file n max reason w = elim (Bool-cases (ltb_ℤ n max)) [
    | inl low ↦ rw (low) (laws.by_enqueue _ _ file n w)
    | inr high ↦ rw (high) (laws.by_dlq _ _ file n reason w)
  ]

  reclaim_message-asked :
      (max : ℤ) (succeeded : List String) (consumers : Dict String) (msg : XMessage) (w : W)
      → asked (reclaim_message q k pi max succeeded consumers msg w) ≡ asked w
  unfolding reclaim_message resend
  reclaim_message-asked max succeeded consumers msg w =
      let n = incremented (parse_attempts (value_of msg "attempts") (pos 0)) in
      let sent = send_on q pi (value_of msg "file") n max reclaimed_reason w in
      let same = send_on-asked (value_of msg "file") n max reclaimed_reason w in
      if_cases (λ (u : W). asked u ≡ asked w)
        (contains (or_else (lookup msg.id consumers) "") succeeded) (retire-asked msg.id w)
        (elim (Result-cases sent.0) [
          | inr (e, f) ↦ rw (f, resend) same
          | inl (u, e) ↦ rw (e, resend) (retire-asked msg.id sent.1 ∙ same)
        ])

  reclaim_messages-asked :
      (max : ℤ) (succeeded : List String) (consumers : Dict String) (msgs : List XMessage) (w : W)
      → asked (reclaim_messages q k pi max succeeded consumers msgs w) ≡ asked w
  unfolding reclaim_messages
  reclaim_messages-asked max succeeded consumers [] w = refl
  reclaim_messages-asked max succeeded consumers (msg ∷ msgs) w =
      reclaim_messages-asked max succeeded consumers msgs _
      ∙ reclaim_message-asked max succeeded consumers msg w

  abbrev orphans : List Pod → List PendingEntry → List String
  orphans pods entries = reclaim_ids (reclaimable (running_pods pods) entries)

  no_ids : (es : List PendingEntry) → is_empty es ≡ true → reclaim_ids es ≡ []
  unfolding reclaim_ids
  no_ids [] h = refl
  no_ids (e ∷ es) h = cc h

  reclaim_entries-asked :
      (pods : List Pod) (entries : List PendingEntry) (w : W)
      → asked (reclaim_entries q k pi pods entries w).1 ≡ orphans pods entries ++ asked w
  unfolding reclaim_entries
  reclaim_entries-asked pods entries w =
      let found = reclaimable (running_pods pods) entries in
      let claimed =
        q.claim_messages (get_queue_stream pi) (get_queue_group pi) "controller-reclaimer"
          (min_idle_time pi) (reclaim_ids found) w in
      let grew =
        laws.by_claim _ _ "controller-reclaimer" (min_idle_time pi) (reclaim_ids found) w in
      elim (Bool-cases (is_empty found)) [
        | inl nothing ↦
            rw (nothing, reclaim_entries) (ap (λ ids. ids ++ asked w) (sym (no_ids found nothing)))
        | inr some_found ↦ elim (Result-cases claimed.0) [
          | inr (e, f) ↦ rw (some_found, reclaim_entries) (rw (f, reclaim_entries) grew)
          | inl (msgs, e) ↦
              rw (some_found, reclaim_entries)
                (rw (e, reclaim_entries) (reclaim_messages-asked _ _ _ msgs claimed.1 ∙ grew))
        ]
      ]

  reclaim_pending-asked :
      (pods : List Pod) (entries : List PendingEntry) (w : W)
      → (listed k pi w).0 ≡ ok pods
      → asked (reclaim_pending q k pi entries w).1 ≡ orphans pods entries ++ asked w
  unfolding reclaim_pending reclaimable reclaim_ids
  reclaim_pending-asked pods [] w shown = refl
  reclaim_pending-asked pods (entry ∷ entries) w shown =
      rw (shown, reclaim_pending)
        (reclaim_entries-asked pods (entry ∷ entries) (listed k pi w).1
          ∙ ap (λ ids. orphans pods (entry ∷ entries) ++ ids) (laws.by_list _ _ _ w))

  -- A run of the reclaimer that reads the stale entries and the pods asks XCLAIM for exactly the IDs
  -- of the stale entries whose consumer is no live pod: none of the listed pods has its name and waits
  -- to run, or has its name, runs, and has no container that terminated with another exit code than 0.
  -- No request but XCLAIM counts as asking, and there was none before.
  pub run_reclaimer-asked :
      (entries : List PendingEntry) (pods : List Pod) (w : W)
      → asked w ≡ []
      → (stale q pi w).0 ≡ ok entries
      → (listed k pi (stale q pi w).1).0 ≡ ok pods
      → (id : String)
      → Any (λ x. x ≡ id) (asked (run_reclaimer q k pi w).1)
        ↔ Any (λ e. (e.id ≡ id) × IsOrphan pods e) entries
  unfolding run_reclaimer
  run_reclaimer-asked entries pods w before read shown id =
      let after : asked (run_reclaimer q k pi w).1 ≡ orphans pods entries =
        rw (read, run_reclaimer)
          (reclaim_pending-asked pods entries (stale q pi w).1 shown
            ∙ ap (λ ids. orphans pods entries ++ ids) (laws.by_details _ _ _ _ w ∙ before)
            ∙ append-nil (orphans pods entries)) in
      subst
        (λ (ids : List String).
          Any (λ x. x ≡ id) ids ↔ Any (λ e. (e.id ≡ id) × IsOrphan pods e) entries)
        (sym after) (reclaim_ids_iff pods entries id)
