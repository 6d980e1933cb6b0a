-- ===== src/Batch/Init.antt =====
-- `initializePipelineInstance`: creates the queue of a new instance, fills it with the files of the
-- bucket and sets the counters; a no-op once the start time is set.
pub mod Answers
pub mod Outcome
pub mod Started
use openfilter_pipelines_con.Base.{
  ℕ, zero, suc, ◌+◌, ◌==◌, ℤ, pos, eqb_ℤ, Bool, true, false, not, ◌||◌, Option, none, some, List,
  [], ◌∷◌, String, is_empty, if◌then◌else◌,
}
use openfilter_pipelines_con.Go.{Error, message, wrapped, error_text, Result, ok, err}
use openfilter_pipelines_con.Api.{
  PipelineInstance, PipelineSource, FileCounts, is_true, is_false, get_queue_stream,
  get_queue_group, get_instance_id,
}
use openfilter_pipelines_con.Queue.{ValkeyClientInterface}
use openfilter_pipelines_con.Reconciler.{Reconciler, with_status, set_condition}
use openfilter_pipelines_con.Reconciler.Storage.{get_credentials, list_bucket_files}

-- The answer, the instance as it stands in memory, and the world.
abbrev pub Step : Type 0 → Type 0
Step W = Result Bool × PipelineInstance × W

-- Counters of an instance whose files all wait in the queue.
abbrev pub fresh_counts : ℤ → FileCounts
fresh_counts n = record {
  total_files = n;
  queued = n;
  running = pos 0;
  succeeded = pos 0;
  failed = pos 0;
}

-- Nothing to do for an instance that was initialized with no file.
abbrev pub has_no_files : Option FileCounts → Bool
has_no_files none = false
has_no_files (some c) = eqb_ℤ c.total_files (pos 0)

-- The source writes the five counters one by one, through a pointer that the caller made non-nil.
abbrev pub begin : PipelineInstance → ℤ → ℕ → PipelineInstance
begin pi n time =
    let s = pi.status in
    with_status pi (record s { counts = some (fresh_counts n); start_time = some time })

abbrev pub finish : PipelineInstance → ℕ → PipelineInstance
finish pi time = let s = pi.status in with_status pi (record s { completion_time = some time })

abbrev count_success : Result String → ℕ → ℕ
count_success (ok id) n = suc n
count_success (err e) n = n

abbrev none_enqueued : Error
none_enqueued = message "no files were successfully enqueued for processing"

module _ {W : Type 0} (r : Reconciler W) where
  -- `Status().Update` before an answer; its own error comes first.
  answer : Result Bool → PipelineInstance → W → Step W
  answer result pi w =
      let updated = r.kube.update_status pi w in
      elim updated.0 [ err e ↦ (err e, pi, updated.1) | ok _ ↦ (result, pi, updated.1) ]

  -- The instance cannot start: Degraded and not Progressing, with the error as the answer.
  pub degrade : PipelineInstance → String → Error → String → Error → W → Step W
  unfolding answer
  degrade pi reason cause progress e w =
      let a = set_condition r pi "Degraded" is_true reason (error_text cause) w in
      let b = set_condition r a.0 "Progressing" is_false reason progress a.1 in
      answer (err e) b.0 b.1

  -- The files are in the queue.
  pub start : PipelineInstance → ℤ → W → Step W
  unfolding answer
  start pi n w =
      let time = r.kube.now w in
      let a =
        set_condition r (begin pi n time.0) "Degraded" is_false "Initialized"
          "PipelineInstance initialized successfully" time.1 in
      let b =
        set_condition r a.0 "Progressing" is_true "Initialized"
          "PipelineInstance initialized and files queued" a.1 in
      let c =
        set_condition r b.0 "Succeeded" is_false "Initialized"
          "PipelineInstance is processing input files" b.1 in
      answer (ok true) c.0 c.1

  -- The bucket is empty: the run is over at once.
  pub end_empty : PipelineInstance → W → Step W
  unfolding answer
  end_empty pi w =
      let time = r.kube.now w in
      let a =
        set_condition r (finish (begin pi (pos 0) time.0) time.0) "Degraded" is_true "NoFilesFound"
          "No files found in input bucket" time.1 in
      let b =
        set_condition r a.0 "Progressing" is_false "NoFilesFound"
          "PipelineInstance cannot start without input files" a.1 in
      let c =
        set_condition r b.0 "Succeeded" is_false "NoFilesFound"
          "PipelineInstance did not process any files" b.1 in
      answer (ok false) c.0 c.1

  -- Enqueues each file once, and counts the successes.
  enqueue_files : ValkeyClientInterface W → PipelineInstance → List String → ℕ → W → ℕ × W
  enqueue_files q pi [] successful w = (successful, w)
  enqueue_files q pi (file ∷ files) successful w =
      let sent =
        q.enqueue_file_with_attempts (get_queue_stream pi) (get_instance_id pi) file (pos 0) w in
      enqueue_files q pi files (count_success sent.0 successful) sent.1

  -- What a look at the stream finds behind the enqueueing of `successful` files.
  start_filled : PipelineInstance → ℕ → ℤ → W → Step W
  unfolding start degrade
  start_filled pi successful n w =
      if eqb_ℤ n (pos 0) || successful == 0
      then degrade pi "EnqueueFailed" none_enqueued
          "PipelineInstance could not enqueue files for processing" none_enqueued w
      else start pi n w

  fill : ValkeyClientInterface W → PipelineInstance → List String → W → Step W
  unfolding end_empty enqueue_files start_filled degrade
  fill q pi [] w = end_empty pi w
  fill q pi (file ∷ files) w =
      let sent = enqueue_files q pi (file ∷ files) 0 w in
      let size = q.get_stream_length (get_queue_stream pi) sent.1 in
      elim size.0 [
        | err e ↦
            degrade pi "QueueInspectionFailed" e "PipelineInstance cannot inspect queue state"
              (wrapped "failed to get stream length after enqueue" e) size.1
        | ok n ↦ start_filled pi sent.0 n size.1
      ]

  list_and_fill : ValkeyClientInterface W → PipelineInstance → PipelineSource → W → Step W
  unfolding fill degrade
  list_and_fill q pi source w =
      let keys = get_credentials r pi source w in
      elim keys.0 [
        | err e ↦
            degrade pi "CredentialsError" e
              "PipelineInstance cannot access object storage credentials"
              (wrapped "failed to get S3 credentials" e) keys.1
        | ok (access_key, secret_key) ↦
            let listed = list_bucket_files r source access_key secret_key keys.1 in
            elim listed.0 [
              | err e ↦
                  degrade pi "ListingFailed" e "PipelineInstance cannot enumerate input files"
                    (wrapped "failed to list bucket files" e) listed.1
              | ok files ↦ fill q pi files listed.1
            ]
      ]

  -- A stream that already holds messages is taken over as it is.
  prepare : ValkeyClientInterface W → PipelineInstance → PipelineSource → W → Step W
  unfolding list_and_fill start degrade
  prepare q pi source w =
      let created = q.create_stream_and_group (get_queue_stream pi) (get_queue_group pi) w in
      elim created.0 [
        | err e ↦
            degrade pi "QueueInitializationFailed" e "PipelineInstance cannot initialize its queue"
              (wrapped "failed to create stream and group" e) created.1
        | ok _ ↦
            let size = q.get_stream_length (get_queue_stream pi) created.1 in
            elim size.0 [
              | err e ↦
                  degrade pi "QueueInspectionFailed" e "PipelineInstance cannot inspect queue state"
                    (wrapped "failed to get stream length" e) size.1
              | ok n ↦
                  if eqb_ℤ n (pos 0) then list_and_fill q pi source size.1 else start pi n size.1
            ]
      ]

  initialize_new : Option (ValkeyClientInterface W) → PipelineInstance → PipelineSource → W → Step W
  unfolding prepare degrade
  initialize_new none pi source w =
      let e = message "valkey client is not configured" in
      degrade pi "QueueUnavailable" e "PipelineInstance cannot start without queue connectivity" e w
  initialize_new (some q) pi source w = prepare q pi source w

  pub initialize_from : Option ℕ → PipelineInstance → PipelineSource → W → Step W
  unfolding initialize_new
  initialize_from (some time) pi source w = (ok (not (has_no_files pi.status.counts)), pi, w)
  initialize_from none pi source w = initialize_new r.valkey pi source w

  unfoldable pub initialize_pipeline_instance : PipelineInstance → PipelineSource → W → Step W
  unfolding initialize_from
  initialize_pipeline_instance pi source w = initialize_from pi.status.start_time pi source w
