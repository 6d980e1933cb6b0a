-- ===== src/Streaming/Idle.antt =====
-- `updateStreamingStatus` and `checkIdleTimeout`
-- (internal/controller/pipelineinstance_controller_streaming.go). `format` is the `%v` of a duration.
pub mod Timeout
pub mod Kept
use openfilter_pipelines_con.Base.{
  ℕ, ◌-◌, ℤ, pos, negsuc, pos_part, neg_part, ◌+ℤ◌, ◌-ℤ◌, ltb, leb, ltb_ℤ, leb_ℤ, int32, two_63,
  Bool, true, false, Option, none, some, List, [], ◌∷◌, String, str_eq, if◌then◌else◌,
}
use openfilter_pipelines_con.Go.{Result, ok, err, wrapped, concat}
use openfilter_pipelines_con.Api.{PipelineInstance, PipelineSource, RtspSource, StreamingStatus}
use openfilter_pipelines_con.Kube.{Pod, ContainerStatus, Deployment, Cluster}
use openfilter_pipelines_con.Reconciler.{with_status}

-- `time.Since`: the difference, cut off at the bounds of an `int64`.
unfoldable pub since : ℕ → ℕ → ℤ
since now time =
    let passed = pos now -ℤ pos time in
    if leb two_63 (pos_part passed)
    then pos (two_63 - 1)
    else if ltb two_63 (neg_part passed)
    then negsuc (two_63 - 1)
    else passed

-- The restarts of the containers, summed up in an `int32`.
pub restarts_of : List ContainerStatus → ℤ → ℤ
restarts_of [] total = total
restarts_of (s ∷ statuses) total = restarts_of statuses (int32 (total +ℤ s.restart_count))

pub total_restarts : List Pod → ℤ → ℤ
unfolding restarts_of
total_restarts [] total = total
total_restarts (pod ∷ pods) total = total_restarts pods (restarts_of pod.container_statuses total)

abbrev pub with_streaming : PipelineInstance → StreamingStatus → PipelineInstance
with_streaming pi st = let s = pi.status in with_status pi (record s { streaming = some st })

abbrev pub with_replicas : StreamingStatus → Deployment → StreamingStatus
with_replicas st d = record st {
  ready_replicas = d.ready_replicas;
  updated_replicas = d.updated_replicas;
  available_replicas = d.available_replicas;
}

abbrev timeout_of : Option RtspSource → Option ℤ
timeout_of none = none
timeout_of (some rtsp) = rtsp.idle_timeout

-- none where the source is not there, is no RTSP source, or has no timeout.
abbrev pub idle_timeout_of : Option PipelineSource → Option ℤ
idle_timeout_of none = none
idle_timeout_of (some source) = timeout_of source.rtsp

module _ {W : Type 0} (k : Cluster W) (format : ℤ → String) where
  -- The time of the first reading with a ready replica is kept for good.
  unfoldable pub first_ready : StreamingStatus → Option ℕ → W → StreamingStatus × W
  first_ready st (some time) w = (st, w)
  first_ready st none w =
      let time = k.now w in (record st { last_ready_time = some time.0 }, time.1)

  unfoldable pub mark_ready : StreamingStatus → W → StreamingStatus × W
  unfolding first_ready
  mark_ready st w =
      if ltb_ℤ (pos 0) st.ready_replicas then first_ready st st.last_ready_time w else (st, w)

  unfoldable pub count_restarts :
      PipelineInstance → StreamingStatus × W → Result (Unit {0}) × PipelineInstance × W
  unfolding total_restarts
  count_restarts pi (st, w) =
      let listed = k.list_pods pi.namespace "pipelineinstance" pi.name w in
      elim listed.0 [
        | err e ↦ (err (wrapped "failed to list pods" e), with_streaming pi st, listed.1)
        | ok pods ↦ (
          ok tt,
          with_streaming pi (record st { container_restarts = total_restarts pods (pos 0) }),
          listed.1,
        )
      ]

  unfoldable pub update_from :
      PipelineInstance → Option StreamingStatus → W → Result (Unit {0}) × PipelineInstance × W
  unfolding mark_ready count_restarts
  update_from pi none w = (ok tt, pi, w)
  update_from pi (some st) w =
      if str_eq st.deployment_name ""
      then (ok tt, pi, w)
      else let got = k.get_deployment st.deployment_name pi.namespace w in
        elim got.0 [
          | err e ↦ (err (wrapped "failed to get deployment" e), pi, got.1)
          | ok d ↦ count_restarts pi (mark_ready (with_replicas st d) got.1)
        ]

  unfoldable pub update_streaming_status :
      PipelineInstance → W → Result (Unit {0}) × PipelineInstance × W
  unfolding update_from
  update_streaming_status pi w = update_from pi pi.status.streaming w

  pub unready : String → ℤ → ℤ → Bool × String
  unready text timeout passed =
      if leb_ℤ timeout passed
      then (true, concat (text ∷ format passed ∷ " (idle timeout: " ∷ format timeout ∷ ")" ∷ []))
      else (false, "")

  unfoldable pub check_since : ℤ → Option ℕ → Option ℕ → W → (Bool × String) × W
  unfolding unready
  check_since timeout (some ready) start w =
      let now = k.now w in
      (unready "Stream has been unready for " timeout (since now.0 ready), now.1)
  check_since timeout none (some start) w =
      let now = k.now w in
      (unready "Stream never became ready after " timeout (since now.0 start), now.1)
  check_since timeout none none w = ((false, ""), w)

  unfoldable pub check_timeout :
      Option ℕ → Option ℤ → Option StreamingStatus → W → (Bool × String) × W
  unfolding check_since
  check_timeout start none st w = ((false, ""), w)
  check_timeout start (some timeout) none w = ((false, ""), w)
  check_timeout start (some timeout) (some st) w =
      if ltb_ℤ (pos 0) st.ready_replicas
      then ((false, ""), w)
      else check_since timeout st.last_ready_time start w

  -- Whether the run is to complete, and why.
  unfoldable pub check_idle_timeout :
      PipelineInstance → Option PipelineSource → W → (Bool × String) × W
  unfolding check_timeout
  check_idle_timeout pi source w =
      check_timeout pi.status.start_time (idle_timeout_of source) pi.status.streaming w
