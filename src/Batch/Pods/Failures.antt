-- ===== src/Batch/Pods/Failures.antt =====
-- Which pods `detectPodStartFailure` and `detectContainerCrash` report
-- (internal/controller/pipelineinstance_controller_batch.go).
use Prim.Native.String
use Prim.Native.String.append
use openfilter_pipelines_con.Base.{
  ℤ, pos, ◌≡◌, ◌≢◌, ◌↔◌, ◌⊎◌, refl, inl, inr, Bool, true, false, not, ◌||◌, Option, none, some,
  List, [], ◌∷◌, String, str_eq, eqb_ℤ, eq_iff, Any, is_some, sym, ap, ◌∙◌, arith, Bool-cases,
  if◌then◌else◌,
}
use openfilter_pipelines_con.Kube.{ContainerStatus, Terminated, Waiting, Pod}
use openfilter_pipelines_con.Batch.Common.{is_running}
use openfilter_pipelines_con.Batch.Pods.{
  crash_loop_text, is_image_pull_failure, is_config_failure, waiting_failure,
  detect_container_start_failure, detect_pod_start_failure, failed_exit, crashed_container,
  crash_text, detect_container_crash,
}

-- The container terminated with another exit code than 0.
abbrev pub HasCrashed : ContainerStatus → Type 0
HasCrashed s = (t : Terminated) × (s.terminated ≡ some t) × (eqb_ℤ t.exit_code (pos 0) ≡ false)

crashed_from :
    (s : ContainerStatus) (o : Option Terminated)
    → s.terminated ≡ o
    → ((c : ℤ) × (failed_exit o ≡ some c) × HasCrashed s)
      ⊎ ((failed_exit o ≡ none) × (HasCrashed s → ⊥))
crashed_from s none e = inr (refl, λ h. cc (e, h.1))
crashed_from s (some t) e = elim (Bool-cases (eqb_ℤ t.exit_code (pos 0))) [
  | inl clean ↦ inr (rw (clean) refl, λ h. cc (e, h.1, h.2, clean))
  | inr bad ↦ inl (t.exit_code, rw (bad) refl, (t, e, bad))
]

crashed_container-some :
    (statuses : List ContainerStatus)
    → Any HasCrashed statuses
    → is_some (crashed_container statuses) ≡ true
unfolding crashed_container
crashed_container-some [] h = absurd h
crashed_container-some (s ∷ statuses) h = elim (crashed_from s s.terminated refl) [
  | inl (c, found, bad) ↦ rw (found, crashed_container) refl
  | inr (clean, fine) ↦
      rw (clean, crashed_container)
        (elim h [ inl bad ↦ absurd (fine bad) | inr later ↦ crashed_container-some statuses later ])
]

some-crashed_container :
    (statuses : List ContainerStatus)
    → is_some (crashed_container statuses) ≡ true
    → Any HasCrashed statuses
unfolding crashed_container
some-crashed_container [] h = cc h
some-crashed_container (s ∷ statuses) h = elim (crashed_from s s.terminated refl) [
  | inl (c, found, bad) ↦ inl bad
  | inr (clean, fine) ↦ inr (some-crashed_container statuses (rw (clean, crashed_container) at h))
]

crash_text-some : (o : Option (String × ℤ)) → (crash_text o).1 ≡ is_some o
unfolding crash_text
crash_text-some none = refl
crash_text-some (some (name, code)) = refl

-- A crash is reported exactly for a pod whose phase is Running and one of whose containers, init
-- containers left aside, has terminated with an exit code other than 0.
pub detect_container_crash_iff :
    (pod : Pod)
    → ((detect_container_crash pod).1 ≡ true)
      ↔ ((is_running pod.phase ≡ true) × Any HasCrashed pod.container_statuses)
unfolding detect_container_crash
detect_container_crash_iff pod = (
  λ h. elim (Bool-cases (is_running pod.phase)) [
    | inl up ↦ (
      up,
      some-crashed_container pod.container_statuses (
          sym (crash_text-some (crashed_container pod.container_statuses))
          ∙ (rw (detect_container_crash, up) at h)),
    )
    | inr down ↦ cc (rw (detect_container_crash, down) at h)
  ],
  λ h.
      rw (detect_container_crash, h.0)
        (crash_text-some (crashed_container pod.container_statuses)
          ∙ crashed_container-some pod.container_statuses h.1),
)

-- The reasons for which a container waits in vain.
abbrev pub stuck_reasons : List String
stuck_reasons =
    "ImagePullBackOff" ∷ "ErrImagePull" ∷ "InvalidImageName" ∷ "RegistryUnavailable"
    ∷ "CreateContainerConfigError" ∷ "CreateContainerError" ∷ "CrashLoopBackOff" ∷ []

abbrev pub among : String → List String → Bool
among reason [] = false
among reason (r ∷ rs) = str_eq reason r || among reason rs

-- The container waits for one of them.
abbrev pub is_stuck : Option Waiting → Bool
is_stuck none = false
is_stuck (some w) = among w.reason stuck_reasons

abbrev pub any_stuck : List ContainerStatus → Bool
any_stuck [] = false
any_stuck (s ∷ statuses) = is_stuck s.waiting || any_stuck statuses

container-ne-empty : (s : String) → str_eq (String.◌++◌ "Container " s) "" ≡ false
container-ne-empty s =
    let text = String.◌++◌ "Container " s in
    let starts : text ≡ String.◌∷◌ "C" (String.◌++◌ "ontainer " s) =
      append.cons "C" "ontainer " s in
    let apart : text ≢ "" = λ e. cc (starts, e) in
    elim (Bool-cases (str_eq text "")) [
      | inl same ↦ absurd (apart ((eq_iff text "").0 same))
      | inr other ↦ other
    ]

crash_loop_text-ne-empty :
    (name : String) (w : Waiting) (o : Option Terminated)
    → str_eq (crash_loop_text name w o) "" ≡ false
unfolding crash_loop_text
crash_loop_text-ne-empty name w (some t) = container-ne-empty _
crash_loop_text-ne-empty name w none = container-ne-empty _

-- A text that is chosen by three tests is empty only where all three fail.
chosen-ne-empty :
    (a b c : Bool) (x y z : String)
    → str_eq x "" ≡ false
    → str_eq y "" ≡ false
    → str_eq z "" ≡ false
    → str_eq (if a then x else if b then y else if c then z else "") "" ≡ not (a || (b || c))
chosen-ne-empty true b c x y z hx hy hz = hx
chosen-ne-empty false true c x y z hx hy hz = hy
chosen-ne-empty false false true x y z hx hy hz = hz
chosen-ne-empty false false false x y z hx hy hz = refl

or_assoc :
    (a b c d e f g : Bool)
    → ((((a || b) || c) || d) || ((e || f) || g))
      ≡ (a || (b || (c || (d || (e || (f || (g || false)))))))
or_assoc a b c d e f g = ground arith

reasons_lem :
    (r : String)
    → (is_image_pull_failure r || (is_config_failure r || str_eq r "CrashLoopBackOff"))
      ≡ among r stuck_reasons
reasons_lem r =
    or_assoc (str_eq r "ImagePullBackOff") (str_eq r "ErrImagePull") (str_eq r "InvalidImageName")
      (str_eq r "RegistryUnavailable") (str_eq r "CreateContainerConfigError")
      (str_eq r "CreateContainerError") (str_eq r "CrashLoopBackOff")

waiting_failure-ne-empty :
    (s : ContainerStatus) (o : Option Waiting) → str_eq (waiting_failure s o) "" ≡ not (is_stuck o)
unfolding waiting_failure crash_loop_text
waiting_failure-ne-empty s none = refl
waiting_failure-ne-empty s (some w) =
    chosen-ne-empty (is_image_pull_failure w.reason) (is_config_failure w.reason)
      (str_eq w.reason "CrashLoopBackOff") _ _ _ (container-ne-empty _) (container-ne-empty _)
      (crash_loop_text-ne-empty s.name w s.last_terminated)
    ∙ ap not (reasons_lem w.reason)

start_failure-ne-empty :
    (statuses : List ContainerStatus)
    → str_eq (detect_container_start_failure statuses) "" ≡ not (any_stuck statuses)
unfolding detect_container_start_failure
start_failure-ne-empty [] = refl
start_failure-ne-empty (s ∷ statuses) =
    ground (arith, waiting_failure-ne-empty s s.waiting, start_failure-ne-empty statuses)

-- A start failure is reported exactly if a container or an init container waits for one of the seven
-- reasons.
pub detect_pod_start_failure_lem :
    (pod : Pod)
    → (detect_pod_start_failure pod).1
      ≡ (any_stuck pod.container_statuses || any_stuck pod.init_container_statuses)
unfolding detect_pod_start_failure
detect_pod_start_failure_lem pod = ground (
  arith,
  start_failure-ne-empty pod.container_statuses,
  start_failure-ne-empty pod.init_container_statuses,
)
