-- ===== src/Batch/Reclaim/Liveness.antt =====
-- Which pods count as live for the reclaimer (`runReclaimer`,
-- internal/controller/pipelineinstance_controller_batch.go), and which stale entries that leaves.
use openfilter_pipelines_con.Base.{
  ◌≡◌, ◌↔◌, refl, true, false, Bool, List, [], ◌∷◌, String, str_eq, eq_iff, arith, All, Any, ◌⊎◌,
  inl, inr, Bool-cases,
}
use openfilter_pipelines_con.Kube.{
  Pod, PodPhase, pod_running, pod_pending, pod_succeeded, pod_failed, pod_unknown,
}
use openfilter_pipelines_con.Queue.{PendingEntry}
use openfilter_pipelines_con.Batch.Common.{is_running}
use openfilter_pipelines_con.Batch.Pods.{detect_container_crash}
use openfilter_pipelines_con.Batch.Pods.Failures.{HasCrashed, detect_container_crash_iff}
use openfilter_pipelines_con.Batch.Reclaim.{
  contains, is_up, is_alive, running_pods, reclaimable, reclaim_ids,
}

-- The pod waits to run, or runs and none of its containers has crashed.
abbrev pub IsLive : Pod → Type 0
IsLive pod =
    (pod.phase ≡ pod_pending)
    ⊎ ((pod.phase ≡ pod_running) × (Any HasCrashed pod.container_statuses → ⊥))

-- No live pod has the name of the consumer.
abbrev pub IsOrphan : List Pod → PendingEntry → Type 0
IsOrphan pods entry = All (λ pod. pod.name ≡ entry.consumer → IsLive pod → ⊥) pods

up_cases :
    (p : PodPhase)
    → ((p ≡ pod_pending) × (is_up p ≡ true) × (is_running p ≡ false))
      ⊎ ((p ≡ pod_running) × (is_up p ≡ true) × (is_running p ≡ true))
      ⊎ ((is_up p ≡ false) × (p ≡ pod_pending → ⊥) × (p ≡ pod_running → ⊥))
up_cases pod_pending = inl (refl, refl, refl)
up_cases pod_running = inr (inl (refl, refl, refl))
up_cases pod_succeeded = inr (inr (refl, (λ e. cc e), λ e. cc e))
up_cases pod_failed = inr (inr (refl, (λ e. cc e), λ e. cc e))
up_cases pod_unknown = inr (inr (refl, (λ e. cc e), λ e. cc e))

alive-IsLive : (pod : Pod) → is_alive pod ≡ true → IsLive pod
unfolding is_alive
alive-IsLive pod h =
    let (_, crashed) = detect_container_crash_iff pod in
    elim (up_cases pod.phase) [
      | inl (waits, _, _) ↦ inl waits
      | inr (inl (runs, up, is)) ↦ inr (
        runs,
        λ bad. let seen = crashed (is, bad) in let wrong = rw (is_alive, up, seen) at h in cc wrong,
      )
      | inr (inr (down, _, _)) ↦ let wrong = rw (is_alive, down) at h in absurd (cc wrong)
    ]

IsLive-alive : (pod : Pod) → IsLive pod → is_alive pod ≡ true
unfolding is_alive
IsLive-alive pod live =
    let (reported, _) = detect_container_crash_iff pod in
    let (up, fine) = not_crashed live in rw (is_alive, up, fine) refl
  where
    sees : (p : Bool) → (p ≡ true → ⊥) → p ≡ false
    sees true h = absurd (h refl)
    sees false h = refl

    not_crashed : IsLive pod → (is_up pod.phase ≡ true) × ((detect_container_crash pod).1 ≡ false)
    not_crashed (inl waits) = (
      rw (waits) refl,
      sees (detect_container_crash pod).1 (λ h.
          let (is, _) = (detect_container_crash_iff pod).0 h in
          let wrong = rw (waits) at is in cc wrong),
    )
    not_crashed (inr (runs, clean)) = (
      rw (runs) refl,
      sees (detect_container_crash pod).1 (λ h. clean ((detect_container_crash_iff pod).0 h).1),
    )

not_running :
    (pods : List Pod) (entry : PendingEntry)
    → contains entry.consumer (running_pods pods) ≡ false
    → IsOrphan pods entry
unfolding contains running_pods
not_running [] entry h = tt
not_running (pod ∷ pods) entry h = (
  λ same live.
      let up = IsLive-alive pod live in
      let wrong : ⊥ = ground (arith, eq_iff pod.name entry.consumer) in wrong,
  not_running pods entry (ground arith),
)

IsOrphan-contains :
    (pods : List Pod) (entry : PendingEntry)
    → IsOrphan pods entry
    → contains entry.consumer (running_pods pods) ≡ false
unfolding contains running_pods
IsOrphan-contains [] entry h = refl
IsOrphan-contains (pod ∷ pods) entry (first, rest) =
    let later = IsOrphan-contains pods entry rest in
    elim (Bool-cases (is_alive pod)) [
      | inr down ↦ rw (down, running_pods) later
      | inl up ↦ elim (Bool-cases (str_eq pod.name entry.consumer)) [
        | inl same ↦ absurd (first ((eq_iff pod.name entry.consumer).0 same) (alive-IsLive pod up))
        | inr other ↦ rw (up, running_pods, contains, other) later
      ]
    ]

-- The IDs that are left are those of the orphaned entries.
pub reclaim_ids_iff :
    (pods : List Pod) (entries : List PendingEntry) (id : String)
    → Any (λ x. x ≡ id) (reclaim_ids (reclaimable (running_pods pods) entries))
      ↔ Any (λ e. (e.id ≡ id) × IsOrphan pods e) entries
unfolding reclaimable reclaim_ids
reclaim_ids_iff pods [] id = ((λ h. h), λ h. h)
reclaim_ids_iff pods (entry ∷ entries) id =
    let (to, from) = reclaim_ids_iff pods entries id in
    elim (Bool-cases (contains entry.consumer (running_pods pods))) [
      | inl up ↦
          rw (up, reclaimable)
            (
              (λ h. inr (to h)),
              λ h. elim h [
                | inl (same, orphan) ↦
                    let down = IsOrphan-contains pods entry orphan in
                    let wrong = rw (up) at down in absurd (cc wrong)
                | inr later ↦ from later
              ],
            )
      | inr down ↦
          rw (down, reclaimable)
            (
              (λ h. elim h [
                | inl same ↦ inl (same, not_running pods entry down)
                | inr later ↦ inr (to later)
              ]),
              λ h. elim h [ inl (same, _) ↦ inl same | inr later ↦ inr (from later) ],
            )
    ]
