-- ===== src/Tests/Pods.antt =====
-- What is read off pods, and the idle timeout of a stream.
use openfilter_pipelines_con.Base.{
  pos, ◌≡◌, ◌↔◌, refl, not, ◌&&◌, ◌||◌, true, none, some, [], ◌∷◌, Any, ltb_ℤ, leb_ℤ,
}
use openfilter_pipelines_con.Api.{PipelineInstance, PipelineSource, StreamingStatus}
use openfilter_pipelines_con.Kube.{Pod, pod_running}
use openfilter_pipelines_con.Batch.Common.{is_running}
use openfilter_pipelines_con.Batch.Pods.{detect_container_crash, detect_pod_start_failure}
use openfilter_pipelines_con.Batch.Pods.Failures.{
  HasCrashed, any_stuck, detect_container_crash_iff, detect_pod_start_failure_lem,
}
use openfilter_pipelines_con.Streaming.Idle.{since, update_streaming_status, check_idle_timeout}
use openfilter_pipelines_con.Streaming.Idle.Timeout.{WasReady, check_idle_timeout-first_ready}
use openfilter_pipelines_con.Tests.Samples.{instance_a, quiet_cluster}

abbrev crashed_pod : Pod
crashed_pod = record {
  name = "pod-1";
  phase = pod_running;
  container_statuses =
      record {
        name = "detector";
        waiting = some (record { reason = "ErrImagePull"; message = "no such image" });
        terminated = some (record { exit_code = pos 1; reason = "Error" });
        last_terminated = none;
        restart_count = pos 0;
      }
      ∷ [];
  init_container_statuses = [];
}

detect_container_crash_iff_example :
    ((detect_container_crash crashed_pod).1 ≡ true)
    ↔ ((is_running crashed_pod.phase ≡ true) × Any HasCrashed crashed_pod.container_statuses)
detect_container_crash_iff_example = detect_container_crash_iff crashed_pod

detect_pod_start_failure_lem_example :
    (detect_pod_start_failure crashed_pod).1
    ≡ (any_stuck crashed_pod.container_statuses || any_stuck crashed_pod.init_container_statuses)
detect_pod_start_failure_lem_example = detect_pod_start_failure_lem crashed_pod

abbrev ready_status : StreamingStatus
ready_status = record {
  ready_replicas = pos 1;
  updated_replicas = pos 1;
  available_replicas = pos 1;
  container_restarts = pos 0;
  last_ready_time = some 3;
  deployment_name = "cars-deployment";
}

abbrev streaming_instance : PipelineInstance
streaming_instance =
    let s = instance_a.status in
    record instance_a { status = record s { streaming = some ready_status } }

abbrev camera : PipelineSource
camera = record {
  bucket = none;
  rtsp = some (record {
    host = "camera";
    port = pos 554;
    path = "/main";
    credentials_secret = none;
    idle_timeout = some (pos 2);
  });
}

check_idle_timeout-first_ready_example :
    let k = quiet_cluster (Unit {0}) in
    let after = (update_streaming_status k (λ d. "") streaming_instance tt).1 in
    WasReady k (λ d. "") 3 after
    × ((st : StreamingStatus)
        → after.status.streaming ≡ some st
        → (check_idle_timeout k (λ d. "") after (some camera) tt).0.0
          ≡ (not (ltb_ℤ (pos 0) st.ready_replicas) && leb_ℤ (pos 2) (since (k.now tt).0 3)))
check_idle_timeout-first_ready_example =
    check_idle_timeout-first_ready (quiet_cluster (Unit {0})) (λ d. "") streaming_instance
      (some camera) 3 (pos 2) tt tt (ready_status, refl, refl) refl
