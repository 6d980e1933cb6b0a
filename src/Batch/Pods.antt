-- ===== src/Batch/Pods.antt =====
-- What the controller reads off the status of a pod: a container that cannot start, a container
-- that crashed while the pod runs on, and the reason of a failure.
pub mod Failures
use openfilter_pipelines_con.Base.{
  ℤ, pos, Bool, true, false, not, ◌||◌, Option, none, some, List, [], ◌∷◌, String, str_eq, eqb_ℤ,
  if◌then◌else◌,
}
use openfilter_pipelines_con.Go.{concat}
use openfilter_pipelines_con.Go.Strconv.{itoa}
use openfilter_pipelines_con.Kube.{ContainerStatus, Terminated, Waiting, Pod}
use openfilter_pipelines_con.Batch.Common.{is_running}

-- The message of a waiting state, or its reason if it has none.
abbrev message_or_reason : Waiting → String
message_or_reason w = if str_eq w.message "" then w.reason else w.message

crash_loop_text : String → Waiting → Option Terminated → String
crash_loop_text name w (some t) =
    concat (
      "Container "
      ∷ name
      ∷ " crashlooped with exit code "
      ∷ itoa t.exit_code
      ∷ ": "
      ∷ t.reason
      ∷ [])
crash_loop_text name w none =
    concat ("Container " ∷ name ∷ " crashlooped: " ∷ message_or_reason w ∷ [])

abbrev pub is_image_pull_failure : String → Bool
is_image_pull_failure reason =
    str_eq reason "ImagePullBackOff"
    || str_eq reason "ErrImagePull"
    || str_eq reason "InvalidImageName"
    || str_eq reason "RegistryUnavailable"

abbrev pub is_config_failure : String → Bool
is_config_failure reason =
    str_eq reason "CreateContainerConfigError" || str_eq reason "CreateContainerError"

-- The text for one waiting container, empty if it may still start.
waiting_failure : ContainerStatus → Option Waiting → String
unfolding crash_loop_text
waiting_failure s none = ""
waiting_failure s (some w) =
    if is_image_pull_failure w.reason
    then concat ("Container " ∷ s.name ∷ " image pull failed: " ∷ message_or_reason w ∷ [])
    else if is_config_failure w.reason
    then concat ("Container " ∷ s.name ∷ " configuration error: " ∷ message_or_reason w ∷ [])
    else if str_eq w.reason "CrashLoopBackOff"
    then crash_loop_text s.name w s.last_terminated
    else ""

unfoldable pub detect_container_start_failure : List ContainerStatus → String
unfolding waiting_failure
detect_container_start_failure [] = ""
detect_container_start_failure (s ∷ statuses) =
    let reason = waiting_failure s s.waiting in
    let rest = detect_container_start_failure statuses in if str_eq reason "" then rest else reason

unfoldable pub detect_pod_start_failure : Pod → String × Bool
detect_pod_start_failure pod =
    let reason = detect_container_start_failure pod.container_statuses in
    let init_reason = detect_container_start_failure pod.init_container_statuses in
    if not (str_eq reason "")
    then (reason, true)
    else if not (str_eq init_reason "")
    then (init_reason, true)
    else ("", false)

-- The exit code of a container that terminated with another one than 0.
abbrev pub failed_exit : Option Terminated → Option ℤ
failed_exit none = none
failed_exit (some t) = if eqb_ℤ t.exit_code (pos 0) then none else some t.exit_code

crashed_container : List ContainerStatus → Option (String × ℤ)
crashed_container [] = none
crashed_container (s ∷ statuses) = elim (failed_exit s.terminated) [
  | none ↦ crashed_container statuses
  | some code ↦ some (s.name, code)
]

crash_text : Option (String × ℤ) → String × Bool
crash_text none = ("", false)
crash_text (some (name, code)) = (
  concat (
      "Container "
      ∷ name
      ∷ " crashed with exit code "
      ∷ itoa code
      ∷ " while pod still running"
      ∷ []),
  true,
)

unfoldable pub detect_container_crash : Pod → String × Bool
unfolding crashed_container crash_text
detect_container_crash pod =
    if not (is_running pod.phase)
    then ("", false)
    else crash_text (crashed_container pod.container_statuses)

exit_text : Option (String × ℤ) → String
exit_text none = "Unknown"
exit_text (some (name, code)) = concat ("Container " ∷ name ∷ " exited with code " ∷ itoa code ∷ [])

unfoldable pub resolve_failure_reason : Pod → String → String → String
unfolding crashed_container exit_text
resolve_failure_reason pod start_failure_reason crash_reason =
    if not (str_eq start_failure_reason "")
    then start_failure_reason
    else if not (str_eq crash_reason "")
    then crash_reason
    else exit_text (crashed_container pod.container_statuses)
