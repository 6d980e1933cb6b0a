-- ===== src/Batch/Status/Completion.antt =====
-- When an instance is complete, and when it failed.
use openfilter_pipelines_con.Base.{
  ◌≡◌, ◌↔◌, ap, refl, pos, eqb_ℤ, true, false, ◌&&◌, inl, inr, Option, none, some, List, [], ◌∷◌,
  String, str_eq, is_some, arith, Any, Bool-cases,
}
use openfilter_pipelines_con.Go.{ok, Result-cases}
use openfilter_pipelines_con.Api.{PipelineInstance, FileCounts}
use openfilter_pipelines_con.Kube.{Job, JobCondition, Cluster}
use openfilter_pipelines_con.Batch.Status.{
  is_condition, find_condition, job_is_complete, counts_complete, check_completion,
}

-- The Job has the condition, with status True.
abbrev pub HasCondition : String → List JobCondition → Type 0
HasCondition type = Any (λ c. is_condition type c ≡ true)

find_condition-some :
    (type : String) (cs : List JobCondition)
    → is_some (find_condition type cs) ≡ true
    → HasCondition type cs
unfolding find_condition
find_condition-some type [] h = cc
find_condition-some type (c ∷ cs) h = elim (Bool-cases (is_condition type c)) [
  | inl hit ↦ inl hit
  | inr miss ↦ inr (find_condition-some type cs (rw (miss, find_condition) at h))
]

some-find_condition :
    (type : String) (cs : List JobCondition)
    → HasCondition type cs
    → is_some (find_condition type cs) ≡ true
unfolding find_condition
some-find_condition type [] h = absurd h
some-find_condition type (c ∷ cs) h = elim (Bool-cases (is_condition type c)) [
  | inl hit ↦ rw (hit, find_condition)
  | inr miss ↦
      rw (miss, find_condition)
        (elim h [ inl hit ↦ cc | inr later ↦ some-find_condition type cs later ])
]

module _ {W : Type 0} (k : Cluster W) (pi : PipelineInstance) (w : W) where
  -- Nothing queued, nothing pending, and the Job is there with a true `Complete` condition.
  pub record IsComplete : Type 0 where
    pub counts : FileCounts
    pub job : Job
    pub counted : pi.status.counts ≡ some counts
    pub none_queued : eqb_ℤ counts.queued (pos 0) ≡ true
    pub none_running : eqb_ℤ counts.running (pos 0) ≡ true
    pub named : str_eq pi.status.job_name "" ≡ false
    pub found : (k.get_job pi.status.job_name pi.namespace w).0 ≡ ok job
    pub complete : HasCondition "Complete" job.conditions

  job_is_complete-sound :
      (c : FileCounts)
      → pi.status.counts ≡ some c
      → eqb_ℤ c.queued (pos 0) && eqb_ℤ c.running (pos 0) ≡ true
      → (job_is_complete k pi w).0 ≡ ok true
      → IsComplete
  unfolding job_is_complete
  job_is_complete-sound c e idle h = elim (Bool-cases (str_eq pi.status.job_name "")) [
    | inl unnamed ↦ cc (rw (unnamed, job_is_complete) at h)
    | inr named ↦
        let h' = rw (named, job_is_complete) at h in
        elim (Result-cases (k.get_job pi.status.job_name pi.namespace w).0) [
          | inr (x, failed) ↦ cc (rw (failed, job_is_complete) at h')
          | inl (job, found) ↦ record {
            counts = c;
            job = job;
            counted = e;
            none_queued = ground arith;
            none_running = ground arith;
            named = named;
            found = found;
            complete =
                find_condition-some "Complete" job.conditions
                  (cc (rw (found, job_is_complete) at h'));
          }
        ]
  ]

  counts_complete-sound :
      (o : Option FileCounts)
      → pi.status.counts ≡ o
      → (counts_complete k pi o w).0 ≡ ok true
      → IsComplete
  unfolding counts_complete
  counts_complete-sound none e h = cc
  counts_complete-sound (some c) e h =
      elim (Bool-cases (eqb_ℤ c.queued (pos 0) && eqb_ℤ c.running (pos 0))) [
        | inl idle ↦ job_is_complete-sound c e idle (rw (idle, counts_complete) at h)
        | inr busy ↦ cc (rw (busy, counts_complete) at h)
      ]

  check_completion_complete : IsComplete → (check_completion k pi w).0 ≡ ok true
  unfolding check_completion
  check_completion_complete c =
      rw (c.counted, counts_complete)
        (rw (c.none_queued, c.none_running, c.named, job_is_complete)
          (rw (c.found, job_is_complete)
            (ap ok (some-find_condition "Complete" c.job.conditions c.complete))))

  -- The check answers yes exactly where nothing is queued or pending and the Job, which is named in
  -- the status and can be read, has a true `Complete` condition.
  pub check_completion_iff : ((check_completion k pi w).0 ≡ ok true) ↔ IsComplete
  unfolding check_completion
  check_completion_iff = (counts_complete-sound pi.status.counts refl, check_completion_complete)
