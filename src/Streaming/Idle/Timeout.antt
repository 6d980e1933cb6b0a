-- ===== src/Streaming/Idle/Timeout.antt =====
-- From when on the idle timeout runs.
use openfilter_pipelines_con.Base.{
  ℕ, ℤ, pos, ltb_ℤ, leb_ℤ, ◌≡◌, refl, sym, ◌∙◌, inl, inr, Option, none, some, String, str_eq, not,
  ◌&&◌, Bool-cases, if_cases, subst,
}
use openfilter_pipelines_con.Go.{Result-cases}
use openfilter_pipelines_con.Api.{PipelineInstance, PipelineSource, StreamingStatus}
use openfilter_pipelines_con.Kube.{Cluster}
use openfilter_pipelines_con.Streaming.Idle.{
  since, with_replicas, first_ready, idle_timeout_of, mark_ready, count_restarts, update_from,
  update_streaming_status, unready, check_since, check_timeout, check_idle_timeout,
}

some-injective : {a b : StreamingStatus} → some a ≡ some b → a ≡ b
some-injective h = cc h

module _ {W : Type 0} (k : Cluster W) (format : ℤ → String) where
  -- The instance streams and has been ready since `ready`, as far as its status says.
  abbrev pub WasReady : ℕ → PipelineInstance → Type 0
  WasReady ready pi =
      (st : StreamingStatus) × (pi.status.streaming ≡ some st) × (st.last_ready_time ≡ some ready)

  first_ready-some :
      (ready : ℕ) (st : StreamingStatus) (o : Option ℕ) (w : W)
      → o ≡ some ready
      → first_ready k format st o w ≡ (st, w)
  unfolding first_ready
  first_ready-some ready st o w h = rw (h) refl

  mark_ready-some :
      (ready : ℕ) (st : StreamingStatus) (w : W)
      → st.last_ready_time ≡ some ready
      → mark_ready k format st w ≡ (st, w)
  unfolding mark_ready
  mark_ready-some ready st w h =
      if_cases (λ (r : StreamingStatus × W). r ≡ (st, w)) (ltb_ℤ (pos 0) st.ready_replicas)
        (first_ready-some ready st st.last_ready_time w h) refl

  count_restarts-WasReady :
      (ready : ℕ) (pi : PipelineInstance) (st : StreamingStatus) (w : W)
      → st.last_ready_time ≡ some ready
      → WasReady ready (count_restarts k format pi (st, w)).1
  unfolding count_restarts
  count_restarts-WasReady ready pi st w h =
      elim (Result-cases (k.list_pods pi.namespace "pipelineinstance" pi.name w).0) [
        | inl (pods, e) ↦ rw (count_restarts, e) (_, refl, h)
        | inr (e, f) ↦ rw (count_restarts, f) (_, refl, h)
      ]

  update_from-WasReady :
      (ready : ℕ) (pi : PipelineInstance) (o : Option StreamingStatus) (w : W)
      → pi.status.streaming ≡ o
      → WasReady ready pi
      → WasReady ready (update_from k format pi o w).1
  unfolding update_from
  update_from-WasReady ready pi none w e h = h
  update_from-WasReady ready pi (some st) w e h =
      let same : h.0 ≡ st = some-injective (sym h.1 ∙ e) in
      let time : st.last_ready_time ≡ some ready =
        subst (λ (x : StreamingStatus). x.last_ready_time ≡ some ready) same h.2 in
      let got = k.get_deployment st.deployment_name pi.namespace w in
      elim (Bool-cases (str_eq st.deployment_name "")) [
        | inl unnamed ↦ rw (update_from, unnamed) h
        | inr named ↦ elim (Result-cases got.0) [
          | inr (e', f) ↦ rw (update_from, named, f) h
          | inl (d, found) ↦
              rw (update_from, named, found, mark_ready-some ready (with_replicas st d) got.1 time)
                (count_restarts-WasReady ready pi (with_replicas st d) got.1 time)
        ]
      ]

  unready_lem :
      (text : String) (timeout passed : ℤ)
      → (unready k format text timeout passed).0 ≡ leb_ℤ timeout passed
  unfolding unready
  unready_lem text timeout passed = elim (Bool-cases (leb_ℤ timeout passed)) [
    | inl over ↦ rw (unready, over) refl
    | inr within ↦ rw (unready, within) refl
  ]

  check_since-some :
      (timeout : ℤ) (ready : ℕ) (o start : Option ℕ) (w : W)
      → o ≡ some ready
      → (check_since k format timeout o start w).0.0 ≡ leb_ℤ timeout (since (k.now w).0 ready)
  unfolding check_since
  check_since-some timeout ready o start w h = rw (h) (unready_lem _ timeout _)

  check_timeout-some :
      (timeout : ℤ) (ready : ℕ) (o : Option ℤ) (s : Option StreamingStatus) (st : StreamingStatus)
      (start : Option ℕ) (w : W)
      → o ≡ some timeout
      → s ≡ some st
      → st.last_ready_time ≡ some ready
      → (check_timeout k format start o s w).0.0
        ≡ (not (ltb_ℤ (pos 0) st.ready_replicas) && leb_ℤ timeout (since (k.now w).0 ready))
  unfolding check_timeout
  check_timeout-some timeout ready o s st start w d e h =
      elim (Bool-cases (ltb_ℤ (pos 0) st.ready_replicas)) [
        | inl up ↦ rw (d, e, check_timeout, up) refl
        | inr down ↦
            rw (d, e, check_timeout, down)
              (check_since-some timeout ready st.last_ready_time start w h)
      ]

  -- Once an instance has a time of readiness, no update of its status moves that time, and with no ready
  -- replica the run is to complete exactly if the idle timeout has passed since that first time, however
  -- short the replicas have been unready.
  pub check_idle_timeout-first_ready :
      (pi : PipelineInstance) (source : Option PipelineSource) (ready : ℕ) (timeout : ℤ) (w u : W)
      → WasReady ready pi
      → idle_timeout_of source ≡ some timeout
      → let after = (update_streaming_status k format pi w).1 in
        WasReady ready after
        × ((st : StreamingStatus)
            → after.status.streaming ≡ some st
            → (check_idle_timeout k format after source u).0.0
              ≡ (not (ltb_ℤ (pos 0) st.ready_replicas) && leb_ℤ timeout (since (k.now u).0 ready)))
  unfolding update_streaming_status check_idle_timeout
  check_idle_timeout-first_ready pi source ready timeout w u was given =
      let kept = update_from-WasReady ready pi pi.status.streaming w refl was in
      let after = (update_streaming_status k format pi w).1 in
      (
        kept,
        λ st stands.
            let time : st.last_ready_time ≡ some ready =
              subst (λ (x : StreamingStatus). x.last_ready_time ≡ some ready)
                (some-injective (sym kept.1 ∙ stands)) kept.2 in
            check_timeout-some timeout ready (idle_timeout_of source) after.status.streaming st
              after.status.start_time u given stands time,
      )
