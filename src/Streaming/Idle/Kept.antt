-- ===== src/Streaming/Idle/Kept.antt =====
-- What `updateStreamingStatus` and `checkIdleTimeout`
-- (internal/controller/pipelineinstance_controller_streaming.go) leave as it is.
use openfilter_pipelines_con.Base.{
  ℕ, ℤ, pos, ltb_ℤ, ◌≡◌, refl, inl, inr, Option, none, some, String, str_eq, Bool-cases, if_cases,
}
use openfilter_pipelines_con.Go.{Result-cases}
use openfilter_pipelines_con.Api.{PipelineInstance, PipelineSource, StreamingStatus}
use openfilter_pipelines_con.Kube.{Cluster}
use openfilter_pipelines_con.Streaming.Idle.{
  with_replicas, first_ready, idle_timeout_of, mark_ready, count_restarts, update_from,
  update_streaming_status, check_since, check_timeout, check_idle_timeout,
}

-- The requests of the two keep the property.
pub record IsReadKept {W : Type 0} (k : Cluster W) (P : W → Type 0) : Type 0 where
  pub by_now : (w : W) → P w → P (k.now w).1
  pub by_get : (name ns : String) (w : W) → P w → P (k.get_deployment name ns w).1
  pub by_pods : (ns key value : String) (w : W) → P w → P (k.list_pods ns key value w).1

module _ {W : Type 0} (k : Cluster W) (format : ℤ → String) (P : W → Type 0)
    (h : IsReadKept k P) where
  first_ready-kept :
      (st : StreamingStatus) (o : Option ℕ) (w : W) → P w → P (first_ready k format st o w).1
  unfolding first_ready
  first_ready-kept st (some t) w p = p
  first_ready-kept st none w p = h.by_now w p

  mark_ready-kept : (st : StreamingStatus) (w : W) → P w → P (mark_ready k format st w).1
  unfolding mark_ready
  mark_ready-kept st w p =
      if_cases (λ (r : StreamingStatus × W). P r.1) (ltb_ℤ (pos 0) st.ready_replicas)
        (first_ready-kept st st.last_ready_time w p) p

  count_restarts-kept :
      (pi : PipelineInstance) (r : StreamingStatus × W)
      → P r.1
      → let out = count_restarts k format pi r in
        (out.1.status.start_time ≡ pi.status.start_time) × P out.2
  unfolding count_restarts
  count_restarts-kept pi (st, w) p =
      let q = h.by_pods pi.namespace "pipelineinstance" pi.name w p in
      elim (Result-cases (k.list_pods pi.namespace "pipelineinstance" pi.name w).0) [
        | inl (pods, e) ↦ rw (count_restarts, e) (refl, q)
        | inr (e, f) ↦ rw (count_restarts, f) (refl, q)
      ]

  update_from-kept :
      (pi : PipelineInstance) (o : Option StreamingStatus) (w : W)
      → P w
      → let out = update_from k format pi o w in
        (out.1.status.start_time ≡ pi.status.start_time) × P out.2
  unfolding update_from
  update_from-kept pi none w p = (refl, p)
  update_from-kept pi (some st) w p =
      let got = k.get_deployment st.deployment_name pi.namespace w in
      let q = h.by_get st.deployment_name pi.namespace w p in
      elim (Bool-cases (str_eq st.deployment_name "")) [
        | inl unnamed ↦ rw (update_from, unnamed) (refl, p)
        | inr named ↦ elim (Result-cases got.0) [
          | inr (e, f) ↦ rw (update_from, named, f) (refl, q)
          | inl (d, found) ↦
              rw (update_from, named, found)
                (count_restarts-kept pi (mark_ready k format (with_replicas st d) got.1)
                  (mark_ready-kept (with_replicas st d) got.1 q))
        ]
      ]

  -- The start time stands, and so does the property.
  pub update_streaming_status-kept :
      (pi : PipelineInstance) (w : W)
      → P w
      → let out = update_streaming_status k format pi w in
        (out.1.status.start_time ≡ pi.status.start_time) × P out.2
  unfolding update_streaming_status
  update_streaming_status-kept pi w p = update_from-kept pi pi.status.streaming w p

  check_since-kept :
      (timeout : ℤ) (o start : Option ℕ) (w : W)
      → P w
      → P (check_since k format timeout o start w).1
  unfolding check_since
  check_since-kept timeout (some t) start w p = h.by_now w p
  check_since-kept timeout none (some t) w p = h.by_now w p
  check_since-kept timeout none none w p = p

  check_timeout-kept :
      (start : Option ℕ) (o : Option ℤ) (st : Option StreamingStatus) (w : W)
      → P w
      → P (check_timeout k format start o st w).1
  unfolding check_timeout
  check_timeout-kept start none st w p = p
  check_timeout-kept start (some t) none w p = p
  check_timeout-kept start (some t) (some st) w p =
      elim (Bool-cases (ltb_ℤ (pos 0) st.ready_replicas)) [
        | inl up ↦ rw (check_timeout, up) p
        | inr down ↦ rw (check_timeout, down) (check_since-kept t st.last_ready_time start w p)
      ]

  pub check_idle_timeout-kept :
      (pi : PipelineInstance) (source : Option PipelineSource) (w : W)
      → P w
      → P (check_idle_timeout k format pi source w).1
  unfolding check_idle_timeout
  check_idle_timeout-kept pi source w p =
      check_timeout-kept pi.status.start_time (idle_timeout_of source) pi.status.streaming w p
