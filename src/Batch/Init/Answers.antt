-- ===== src/Batch/Init/Answers.antt =====
-- What the answers of the initialization store (`initializePipelineInstance`,
-- internal/controller/pipelineinstance_controller_batch.go), on a queue and a cluster that keep a tally.
use openfilter_pipelines_con.Base.{
  ℕ, ◌<◌, ◌≤◌, ℤ, pos, ◌≡◌, refl, sym, ap, subst, ◌∙◌, ◌⊎◌, inl, inr, Bool, true, false, Option,
  none, some, String, is_some,
}
use openfilter_pipelines_con.Go.{Error, Result, ok, err, is_ok, Result-cases}
use openfilter_pipelines_con.Api.{
  PipelineInstance, get_queue_stream, get_queue_group, get_instance_id,
}
use openfilter_pipelines_con.Queue.{ValkeyClientInterface}
use openfilter_pipelines_con.Reconciler.{ListRequest, Reconciler, set_condition}
use openfilter_pipelines_con.Batch.Init.{Step, fresh_counts, answer, degrade, start, end_empty}

-- The length of the instance's work stream, how many enqueueings to it were accepted so far, and the
-- instance as it was last stored.
pub record View (W : Type 0) : Type 0 where
  pub length : W → ℕ
  pub accepted : W → ℕ
  pub stored : W → Option PipelineInstance

abbrev pub tally : {W : Type 0} → View W → W → ℕ × ℕ
tally v w = (v.length w, v.accepted w)

-- The documented behaviour of the requests, on a stream to which no one else writes: XLEN answers with
-- the length, an accepted XADD makes it longer, and a status that was accepted is stored.
pub record IsCounting {W : Type 0} (r : Reconciler W) (q : ValkeyClientInterface W)
    (pi : PipelineInstance) (v : View W) : Type 0 where
  pub create_keeps :
      (w : W)
      → tally v (q.create_stream_and_group (get_queue_stream pi) (get_queue_group pi) w).1
        ≡ tally v w
  pub length_answers :
      (n : ℤ) (w : W)
      → (q.get_stream_length (get_queue_stream pi) w).0 ≡ ok n
      → n ≡ pos (v.length w)
  pub length_keeps : (w : W) → tally v (q.get_stream_length (get_queue_stream pi) w).1 ≡ tally v w
  pub enqueue_adds :
      (file : String) (w : W)
      → let sent =
          q.enqueue_file_with_attempts (get_queue_stream pi) (get_instance_id pi) file (pos 0) w in
        is_ok sent.0 ≡ true → (v.length w < v.length sent.1) × (v.accepted w < v.accepted sent.1)
  pub enqueue_keeps :
      (file : String) (w : W)
      → let sent =
          q.enqueue_file_with_attempts (get_queue_stream pi) (get_instance_id pi) file (pos 0) w in
        (v.length w ≤ v.length sent.1) × (v.accepted w ≤ v.accepted sent.1)

-- The same of the other clients.
pub record IsStoring {W : Type 0} (r : Reconciler W) (v : View W) : Type 0 where
  pub now_keeps : (w : W) → tally v (r.kube.now w).1 ≡ tally v w
  pub secret_keeps :
      (name ns : String) (w : W) → tally v (r.kube.get_secret name ns w).1 ≡ tally v w
  pub list_keeps : (request : ListRequest) (w : W) → tally v (r.minio_list request w).1 ≡ tally v w
  pub status_keeps :
      (pi : PipelineInstance) (w : W) → tally v (r.kube.update_status pi w).1 ≡ tally v w
  pub status_stored :
      (pi : PipelineInstance) (w : W)
      → is_ok (r.kube.update_status pi w).0 ≡ true
      → v.stored (r.kube.update_status pi w).1 ≡ some pi

-- What the instance says, with the tallies before and behind: it has started, and its counters are
-- the length of the stream, which held messages before or took at least one file; or the run began and
-- ended at the same time with an empty stream; or it has not started.
abbrev pub Says : ℕ × ℕ → Result Bool → PipelineInstance → ℕ × ℕ → Type 0
Says (length, accepted) (ok true) pi (length', accepted') =
    (pi.status.counts ≡ some (fresh_counts (pos length')))
    × (0 < length')
    × (is_some pi.status.start_time ≡ true)
    × ((0 < length) ⊎ (accepted < accepted'))
Says before (ok false) pi (length', accepted') =
    (time : ℕ) × (pi.status.counts ≡ some (fresh_counts (pos 0)))
    × (pi.status.start_time ≡ some time)
    × (pi.status.completion_time ≡ some time)
    × (length' ≡ 0)
Says before (err e) pi after = pi.status.start_time ≡ none

module _ {W : Type 0} (r : Reconciler W) (v : View W) (storing : IsStoring r v) where
  -- The write of the status failed with this error.
  abbrev pub IsUnsaved : Error → PipelineInstance → W → Type 0
  IsUnsaved e pi u =
      (x : W) × ((r.kube.update_status pi x).0 ≡ err e) × (u ≡ (r.kube.update_status pi x).1)

  -- The instance is stored as it says, or its write failed.
  abbrev pub Outcome : W → Step W → Type 0
  Outcome w (ok b, pi, u) = (v.stored u ≡ some pi) × Says (tally v w) (ok b) pi (tally v u)
  Outcome w (err e, pi, u) =
      ((v.stored u ≡ some pi) × Says (tally v w) (err e) pi (tally v u)) ⊎ IsUnsaved e pi u

  from_saved :
      (w : W) (result : Result Bool) (pi : PipelineInstance) (u : W)
      → (v.stored u ≡ some pi) × Says (tally v w) result pi (tally v u)
      → Outcome w (result, pi, u)
  from_saved w (ok b) pi u h = h
  from_saved w (err e) pi u h = inl h

  answer-Outcome :
      (w : W) (result : Result Bool) (pi : PipelineInstance) (x y : W)
      → tally v x ≡ tally v y
      → Says (tally v w) result pi (tally v y)
      → Outcome w (answer r result pi x)
  unfolding answer
  answer-Outcome w result pi x y same h =
      let sent = r.kube.update_status pi x in
      elim (Result-cases sent.0) [
        | inl (u, saved) ↦
            rw (saved, answer)
              (from_saved w result pi sent.1 (
                storing.status_stored pi x (ap is_ok saved),
                subst (Says (tally v w) result pi) (sym (storing.status_keeps pi x ∙ same)) h,
              ))
        | inr (e, failed) ↦ rw (failed, answer) (inr (x, failed, refl))
      ]

  -- Three or fewer reads of the clock.
  once : (w : W) → tally v (r.kube.now w).1 ≡ tally v w
  once w = storing.now_keeps w

  twice : (w : W) → tally v (r.kube.now (r.kube.now w).1).1 ≡ tally v w
  twice w = once (r.kube.now w).1 ∙ once w

  pub degrade-Outcome :
      (w : W) (pi : PipelineInstance) (reason : String) (cause : Error) (progress : String)
      (e : Error) (x : W)
      → pi.status.start_time ≡ none
      → Outcome w (degrade r pi reason cause progress e x)
  unfolding degrade set_condition
  degrade-Outcome w pi reason cause progress e x h = answer-Outcome w (err e) _ _ _ refl h

  pub start-Outcome :
      (w : W) (pi : PipelineInstance) (n : ℤ) (x : W)
      → n ≡ pos (v.length x)
      → 0 < v.length x
      → (0 < v.length w) ⊎ (v.accepted w < v.accepted x)
      → Outcome w (start r pi n x)
  unfolding start set_condition
  start-Outcome w pi n x same some_file why =
      let clock = twice (r.kube.now (r.kube.now x).1).1 ∙ twice x in
      answer-Outcome w (ok true) _ _ x clock
        (ap (λ m. some (fresh_counts m)) same, some_file, refl, why)

  pub end_empty-Outcome :
      (w : W) (pi : PipelineInstance) (x : W) → v.length x ≡ 0 → Outcome w (end_empty r pi x)
  unfolding end_empty set_condition
  end_empty-Outcome w pi x nothing =
      let clock = twice (r.kube.now (r.kube.now x).1).1 ∙ twice x in
      answer-Outcome w (ok false) _ _ x clock ((r.kube.now x).0, refl, refl, refl, nothing)
