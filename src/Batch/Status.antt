-- ===== src/Batch/Status.antt =====
-- `updateStatus`, `checkCompletion` and `checkFailure`: the counters of an instance from the state
-- of its queue, and its end from the state of its Job.
pub mod Counts
pub mod Completion
use openfilter_pipelines_con.Base.{
  ℤ, pos, sub64, ltb_ℤ, eqb_ℤ, Bool, true, false, not, ◌&&◌, Option, none, some, List, [], ◌∷◌,
  String, str_eq, or_else, is_some, if◌then◌else◌,
}
use openfilter_pipelines_con.Go.{Result, ok, err, wrapped, is_not_found, Op}
use openfilter_pipelines_con.Api.{
  PipelineInstance, FileCounts, ConditionStatus, is_true, get_queue_stream, get_queue_group,
  get_queue_dlq,
}
use openfilter_pipelines_con.Kube.{Job, JobCondition, Cluster}
use openfilter_pipelines_con.Queue.{ValkeyClientInterface}

-- `&FileCounts{}`
abbrev pub no_counts : FileCounts
no_counts = record {
  total_files = pos 0;
  queued = pos 0;
  running = pos 0;
  succeeded = pos 0;
  failed = pos 0;
}

-- A count that cannot be read is taken for 0.
abbrev or_zero : Result ℤ → ℤ
or_zero (ok n) = n
or_zero (err e) = pos 0

-- What is left of the total, and 0 if that is negative.
pub succeeded_of : ℤ → ℤ → ℤ → ℤ → ℤ
succeeded_of total queued running failed =
    let succeeded = sub64 (sub64 (sub64 total queued) running) failed in
    if ltb_ℤ succeeded (pos 0) then pos 0 else succeeded

pub with_counts : FileCounts → ℤ → ℤ → ℤ → FileCounts
unfolding succeeded_of
with_counts c queued running failed = record c {
  queued = queued;
  running = running;
  succeeded = succeeded_of c.total_files queued running failed;
  failed = failed;
}

abbrev is_status_true : ConditionStatus → Bool
is_status_true is_true = true
is_status_true _ = false

abbrev pub is_condition : String → JobCondition → Bool
is_condition type c = str_eq c.type type && is_status_true c.status

-- The first condition of the type that holds.
pub find_condition : String → List JobCondition → Option JobCondition
find_condition type [] = none
find_condition type (c ∷ cs) =
    let rest = find_condition type cs in if is_condition type c then some c else rest

module _ {W : Type 0} (q : ValkeyClientInterface W) (k : Cluster W) where
  unfoldable pub update_status : PipelineInstance → W → PipelineInstance × W
  unfolding with_counts
  update_status pi w =
      let queued = q.get_consumer_group_lag (get_queue_stream pi) (get_queue_group pi) w in
      let running = q.get_pending_count (get_queue_stream pi) (get_queue_group pi) queued.1 in
      let failed = q.get_stream_length (get_queue_dlq pi) running.1 in
      let counts =
        with_counts (or_else pi.status.counts no_counts) (or_zero queued.0) (or_zero running.0)
          (or_zero failed.0) in
      let status = pi.status in
      (record pi { status = record status { counts = some counts } }, failed.1)

module _ {W : Type 0} (k : Cluster W) where
  job_is_complete : PipelineInstance → Op W Bool
  unfolding find_condition
  job_is_complete pi w =
      if str_eq pi.status.job_name ""
      then (ok false, w)
      else let r = k.get_job pi.status.job_name pi.namespace w in
        elim r.0 [
          | err e ↦ (err (wrapped "failed to get job" e), r.1)
          | ok job ↦ (ok (is_some (find_condition "Complete" job.conditions)), r.1)
        ]

  counts_complete : PipelineInstance → Option FileCounts → Op W Bool
  unfolding job_is_complete
  counts_complete pi none w = (ok false, w)
  counts_complete pi (some c) w =
      if eqb_ℤ c.queued (pos 0) && eqb_ℤ c.running (pos 0)
      then job_is_complete pi w
      else (ok false, w)

  -- Complete when nothing is queued or pending and the Job says so.
  unfoldable pub check_completion : PipelineInstance → Op W Bool
  unfolding counts_complete
  check_completion pi w = counts_complete pi pi.status.counts w

  -- The condition by which the Job failed, if it did; a deleted Job has not failed.
  unfoldable pub check_failure : PipelineInstance → Op W (Option JobCondition)
  unfolding find_condition
  check_failure pi w =
      if str_eq pi.status.job_name ""
      then (ok none, w)
      else let r = k.get_job pi.status.job_name pi.namespace w in
        elim r.0 [
          | err e ↦
              if is_not_found e then (ok none, r.1) else (err (wrapped "failed to get job" e), r.1)
          | ok job ↦ (ok (find_condition "Failed" job.conditions), r.1)
        ]
