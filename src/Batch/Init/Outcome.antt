-- ===== src/Batch/Init/Outcome.antt =====
-- How the initialization of a new instance can end (`initializePipelineInstance`,
-- internal/controller/pipelineinstance_controller_batch.go).
use openfilter_pipelines_con.Base.{
  ℕ, ◌<◌, ◌≤◌, ℤ, pos, eqb_ℤ, ◌==◌, ◌≡◌, refl, sym, ap, subst, ◌∙◌, ◌⊎◌, inl, inr, ◌||◌, Option,
  none, some, List, [], ◌∷◌, String, arith, Bool-cases, if◌then◌else◌,
}
use openfilter_pipelines_con.Go.{is_ok, Result-cases}
use openfilter_pipelines_con.Api.{
  PipelineInstance, PipelineSource, get_queue_stream, get_queue_group, get_instance_id,
}
use openfilter_pipelines_con.Queue.{ValkeyClientInterface}
use openfilter_pipelines_con.Reconciler.{ListRequest, Reconciler}
use openfilter_pipelines_con.Reconciler.Storage.{get_credentials, list_bucket_files}
use openfilter_pipelines_con.Reconciler.Storage.Kept.{get_credentials-kept, list_bucket_files-kept}
use openfilter_pipelines_con.Batch.Init.{
  count_success, start, enqueue_files, start_filled, fill, list_and_fill, prepare, initialize_new,
  initialize_from, initialize_pipeline_instance,
}
use openfilter_pipelines_con.Batch.Init.Answers.{
  View, tally, IsCounting, IsStoring, Outcome, degrade-Outcome, start-Outcome, end_empty-Outcome,
}

module _ {W : Type 0} (r : Reconciler W) (v : View W) (storing : IsStoring r v) where
  module _ (q : ValkeyClientInterface W) (pi : PipelineInstance) (laws : IsCounting r q pi v)
      (unset : pi.status.start_time ≡ none) where
    -- Of the files that are enqueued, those that count as successes were accepted.
    enqueue_files-accepted :
        (files : List String) (n : ℕ) (x : W)
        → let sent = enqueue_files r q pi files n x in
          (v.accepted x ≤ v.accepted sent.1) × ((sent.0 ≡ n) ⊎ (v.accepted x < v.accepted sent.1))
    unfolding enqueue_files
    enqueue_files-accepted [] n x = (omega arith, inl refl)
    enqueue_files-accepted (file ∷ files) n x =
        let sent =
          q.enqueue_file_with_attempts (get_queue_stream pi) (get_instance_id pi) file (pos 0) x in
        let (_, kept) = laws.enqueue_keeps file x in
        let (later, more) = enqueue_files-accepted files (count_success sent.0 n) sent.1 in
        elim (Result-cases sent.0) [
          | inl (id, done) ↦
              let (_, grew) = laws.enqueue_adds file x (ap is_ok done) in
              (omega (arith, later, kept), inr (omega (arith, later, grew)))
          | inr (e, failed) ↦ (
            omega (arith, later, kept),
            elim more [
              | inl same ↦ inl (same ∙ (rw (failed) refl))
              | inr grew ↦ inr (omega (arith, grew, kept))
            ],
          )
        ]

    start_filled-Outcome :
        (w : W) (successful : ℕ) (n : ℤ) (x : W)
        → n ≡ pos (v.length x)
        → (successful ≡ 0) ⊎ (v.accepted w < v.accepted x)
        → Outcome r v storing w (start_filled r pi successful n x)
    unfolding start_filled
    start_filled-Outcome w successful n x same why =
        elim (Bool-cases (eqb_ℤ n (pos 0) || successful == 0)) [
          | inl nothing ↦
              rw (nothing, start_filled) (degrade-Outcome r v storing w pi _ _ _ _ x unset)
          | inr sent ↦
              rw (sent, start_filled)
                (start-Outcome r v storing w pi n x same (ground (arith, same))
                  (inr (ground (arith, why))))
        ]

    fill-Outcome :
        (w : W) (files : List String) (x : W)
        → tally v x ≡ tally v w
        → v.length x ≡ 0
        → Outcome r v storing w (fill r q pi files x)
    unfolding fill
    fill-Outcome w [] x same nothing = end_empty-Outcome r v storing w pi x nothing
    fill-Outcome w (file ∷ files) x same nothing =
        let sent = enqueue_files r q pi (file ∷ files) 0 x in
        let size = q.get_stream_length (get_queue_stream pi) sent.1 in
        let (_, more) = enqueue_files-accepted (file ∷ files) 0 x in
        let kept = laws.length_keeps sent.1 in
        elim (Result-cases size.0) [
          | inr (e, failed) ↦ rw (failed, fill) (degrade-Outcome r v storing w pi _ _ _ _ _ unset)
          | inl (n, counted) ↦
              rw (counted, fill)
                (start_filled-Outcome w sent.0 n size.1
                  (laws.length_answers n sent.1 counted ∙ ap (λ t. pos t.0) (sym kept))
                  (elim more [
                    | inl none_sent ↦ inl none_sent
                    | inr grew ↦ inr (omega (arith, grew, ap (λ t. t.1) kept, ap (λ t. t.1) same))
                  ]))
        ]

    -- The same with the bucket's keys and files still to be read.
    abbrev IsEmptyLike : W → W → Type 0
    IsEmptyLike w x = (tally v x ≡ tally v w) × (v.length x ≡ 0)

    by_tally : (w x y : W) → tally v y ≡ tally v x → IsEmptyLike w x → IsEmptyLike w y
    by_tally w x y same (like, nothing) = (same ∙ like, ap (λ t. t.0) same ∙ nothing)

    list_and_fill-Outcome :
        (w : W) (source : PipelineSource) (x : W)
        → IsEmptyLike w x
        → Outcome r v storing w (list_and_fill r q pi source x)
    unfolding list_and_fill
    list_and_fill-Outcome w source x like =
        let secrets =
          λ (name ns : String) (y : W). by_tally w y _ (storing.secret_keeps name ns y) in
        let lists = λ (c : ListRequest) (y : W). by_tally w y _ (storing.list_keeps c y) in
        let keys = get_credentials r pi source x in
        let read = get_credentials-kept r (IsEmptyLike w) secrets lists pi source x like in
        elim (Result-cases keys.0) [
          | inr (e, failed) ↦
              rw (failed, list_and_fill) (degrade-Outcome r v storing w pi _ _ _ _ _ unset)
          | inl ((a, s), found) ↦
              let files = list_bucket_files r source a s keys.1 in
              let (same, nothing) =
                list_bucket_files-kept r (IsEmptyLike w) secrets lists source a s keys.1 read in
              elim (Result-cases files.0) [
                | inr (e, failed) ↦
                    rw (found, list_and_fill)
                      (rw (failed, list_and_fill)
                        (degrade-Outcome r v storing w pi _ _ _ _ _ unset))
                | inl (names, listed) ↦
                    rw (found, list_and_fill)
                      (rw (listed, list_and_fill) (fill-Outcome w names files.1 same nothing))
              ]
        ]

    -- Behind the first look at the stream.
    choose :
        (w : W) (source : PipelineSource) (n : ℤ) (x : W)
        → tally v x ≡ tally v w
        → n ≡ pos (v.length x)
        → Outcome r v storing w
            (if eqb_ℤ n (pos 0) then list_and_fill r q pi source x else start r pi n x)
    choose w source n x same counted = elim (Bool-cases (eqb_ℤ n (pos 0))) [
      | inl empty ↦ rw (empty) (list_and_fill-Outcome w source x (same, ground (arith, counted)))
      | inr full ↦
          let held : 0 < v.length x = ground (arith, counted) in
          rw (full) (
            start-Outcome r v storing w pi n x counted held
              (inl (subst (λ (t : ℕ × ℕ). 0 < t.0) same held)))
    ]

    prepare-Outcome :
        (source : PipelineSource) (w : W) → Outcome r v storing w (prepare r q pi source w)
    unfolding prepare
    prepare-Outcome source w =
        let created = q.create_stream_and_group (get_queue_stream pi) (get_queue_group pi) w in
        let size = q.get_stream_length (get_queue_stream pi) created.1 in
        let kept = laws.length_keeps created.1 in
        elim (Result-cases created.0) [
          | inr (e, failed) ↦
              rw (failed, prepare) (degrade-Outcome r v storing w pi _ _ _ _ _ unset)
          | inl (_, made) ↦ elim (Result-cases size.0) [
            | inr (e, failed) ↦
                rw (made, prepare)
                  (rw (failed, prepare) (degrade-Outcome r v storing w pi _ _ _ _ _ unset))
            | inl (n, counted) ↦
                rw (made, prepare)
                  (rw (counted, prepare)
                    (choose w source n size.1 (kept ∙ laws.create_keeps w)
                      (laws.length_answers n created.1 counted ∙ ap (λ t. pos t.0) (sym kept))))
          ]
        ]

  initialize_from-Outcome :
      (pi : PipelineInstance)
      → ((q : ValkeyClientInterface W) → r.valkey ≡ some q → IsCounting r q pi v)
      → pi.status.start_time ≡ none
      → (client : Option (ValkeyClientInterface W)) (source : PipelineSource) (w : W)
      → r.valkey ≡ client
      → Outcome r v storing w (initialize_new r client pi source w)
  unfolding initialize_new
  initialize_from-Outcome pi laws unset none source w e =
      degrade-Outcome r v storing w pi _ _ _ _ w unset
  initialize_from-Outcome pi laws unset (some q) source w e =
      prepare-Outcome q pi (laws q e) unset source w

  -- On a stream to which no one else writes, and with an API server that stores what it accepts: a
  -- new instance, one without a start time, ends stored in one of three ways. It has started, its
  -- counters are the length of its work stream, and the stream is not empty: it held messages before,
  -- or took at least one file. Or the run is over: it began and ended at the same time, with an empty
  -- stream. Or there is an error and no start time. Else the write of the status failed, and its error
  -- is the answer.
  pub initialize-Outcome :
      (pi : PipelineInstance) (source : PipelineSource) (w : W)
      → ((q : ValkeyClientInterface W) → r.valkey ≡ some q → IsCounting r q pi v)
      → pi.status.start_time ≡ none
      → Outcome r v storing w (initialize_pipeline_instance r pi source w)
  unfolding initialize_pipeline_instance initialize_from
  initialize-Outcome pi source w laws unset =
      subst (λ (o : Option ℕ). Outcome r v storing w (initialize_from r o pi source w)) (sym unset)
        (initialize_from-Outcome pi laws unset r.valkey source w refl)
