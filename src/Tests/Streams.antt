-- ===== src/Tests/Streams.antt =====
-- An instance in stream mode, and clusters that keep Services, a Deployment or a count in memory.
use openfilter_pipelines_con.Base.{
  false, ℕ, ◌+◌, ◌<◌, pos, ◌≡◌, ◌≢◌, refl, Option, none, some, List, [], ◌∷◌, String, arith, inl,
  inr, lookup, ℤ, str_eq, eq_iff, ap, insert, Bool-cases,
}
use openfilter_pipelines_con.Go.{Result, ok, err, api, not_found}
use openfilter_pipelines_con.Api.{PipelineInstance, PipelineSource, RtspSource}
use openfilter_pipelines_con.Pipeline.{Pipeline, ServicePort, stream}
use openfilter_pipelines_con.Kube.{Service, Cluster}
use openfilter_pipelines_con.Reconciler.{Reconciler}
use openfilter_pipelines_con.Build.Env.{filter_env}
use openfilter_pipelines_con.Build.Env.Effective.{effective, or}
use openfilter_pipelines_con.Streaming.Url.{build_rtsp_url, normalize_rtsp_components}
use openfilter_pipelines_con.Streaming.Url.Components.{build_rtsp_url-injective}
use openfilter_pipelines_con.Streaming.Deployment.{
  build_streaming_deployment, stream_env, rtsp_of, rtsp_vars, init_streaming, deployment_name_of,
}
use openfilter_pipelines_con.Streaming.Deployment.Selector.{selectors-match}
use openfilter_pipelines_con.Streaming.Deployment.Env.{effective-stream_env}
use openfilter_pipelines_con.Streaming.Services.{
  Groups, group_ports, service_name, desired_service, ensure_filter_services,
}
use openfilter_pipelines_con.Streaming.Services.Names.{service_name-injective}
use openfilter_pipelines_con.Streaming.Services.Entries.{Entry, IsIteration, IsExposed}
use openfilter_pipelines_con.Streaming.Services.Served.{Store, put, IsStore, IsServed}
use openfilter_pipelines_con.Streaming.Services.Refinement.{ensure_filter_services-refines}
use openfilter_pipelines_con.Streaming.Reconcile.{streaming_finalizer, reconcile_streaming}
use openfilter_pipelines_con.Streaming.Reconcile.Pass.{IsPassKept}
use openfilter_pipelines_con.Streaming.Reconcile.Started.{
  HasStarted, reconcile_streaming-HasStarted,
}
use openfilter_pipelines_con.Streaming.Reconcile.Again.{reconcile_streaming-creates}
use openfilter_pipelines_con.Tests.Samples.{
  instance_a, finished_instance, pipeline, filter_one, quiet_cluster, quiet_reconciler,
}

abbrev pub camera : RtspSource
camera = record {
  host = "cam";
  port = pos 0;
  path = "live";
  credentials_secret = none;
  idle_timeout = some (pos 60);
}

abbrev pub stream_source : PipelineSource
stream_source = record { bucket = none; rtsp = some camera }

abbrev web_port : ServicePort
web_port = record { name = "detector"; port = pos 8000; target_port = none; protocol = "" }

abbrev pub stream_pipeline : Pipeline
stream_pipeline = record pipeline { mode = stream; services = web_port ∷ [] }

build_rtsp_url-injective_example :
    normalize_rtsp_components camera
    ≡ normalize_rtsp_components (record camera { port = pos 554; path = "/live" })
unfolding build_rtsp_url
build_rtsp_url-injective_example =
    build_rtsp_url-injective false camera (record camera { port = pos 554; path = "/live" }) 0 554
      ((λ e. cc e), ((λ e. cc e), ((λ e. cc e), tt)))
      ((λ e. cc e), ((λ e. cc e), ((λ e. cc e), tt))) refl refl refl

selectors-match_example :
    let r = quiet_reconciler (Unit {0}) in
    let spec =
      (build_streaming_deployment r instance_a stream_pipeline
        (some stream_source)
        "cars-deploy").spec in
    (lookup "app" spec.selector ≡ some "pipeline-stream"
      → lookup "app" spec.pod_labels ≡ some "pipeline-stream")
    × (lookup "app" (desired_service instance_a "detector" 0 web_port).spec.selector
          ≡ some "pipeline-stream"
        → lookup "app" spec.pod_labels ≡ some "pipeline-stream")
selectors-match_example =
    selectors-match (quiet_reconciler (Unit {0})) instance_a stream_pipeline (some stream_source)
      "cars-deploy" "detector" 0 web_port "app" "pipeline-stream"

effective-stream_env_example :
    let r = quiet_reconciler (Unit {0}) in
    effective "RTSP_URL" (stream_env r instance_a (some stream_source) filter_one)
    ≡ or
        (effective "RTSP_URL" (filter_env r instance_a filter_one))
        (effective "RTSP_URL" (rtsp_vars (rtsp_of (some stream_source))))
effective-stream_env_example =
    effective-stream_env (quiet_reconciler (Unit {0})) instance_a (some stream_source) filter_one
      "RTSP_URL"

service_name-injective_example : ◌≡◌ {A = String} "detector" "detector" × ◌≡◌ {A = ℕ} 1 1
service_name-injective_example = service_name-injective instance_a "detector" "detector" 1 1 refl

-- The Services are the world.
abbrev found : String → String → Option Service → Result Service
found name ns none = err (api not_found "no such service")
found name ns (some s) = ok (record s { name = name; namespace = ns })

abbrev store_cluster : Cluster Store
store_cluster =
    let k = quiet_cluster Store in
    record k {
      get_service = λ name ns w. (found name ns (w name ns), w);
      create_service = λ s w. (ok tt, put s.name s.namespace s w);
      patch_service = λ base s w. (ok tt, put base.name base.namespace s w);
    }

abbrev store_reconciler : Reconciler Store
store_reconciler = let r = quiet_reconciler Store in record r { kube = store_cluster }

abbrev same_store : Store → Store
same_store w = w

found-named :
    (name ns : String) (o : Option Service) (s : Service)
    → found name ns o ≡ ok s
    → (s.name ≡ name) × (s.namespace ≡ ns)
found-named name ns none s e = cc e
found-named name ns (some t) s e = (cc e, cc e)

memory-IsStore : IsStore store_reconciler same_store
memory-IsStore = record {
  get_named = λ name ns w s e. found-named name ns (w name ns) s e;
  get_keeps = λ name ns w. refl;
  create_puts = λ s w h. refl;
  patch_puts = λ base s w h. refl;
  reference_same = λ pi s t e. record { name = cc e; namespace = cc e; labels = cc e; spec = cc e };
}

abbrev same_order : Groups → Groups
same_order groups = groups

some-injective : {p q : List ServicePort} → some p ≡ some q → p ≡ q
some-injective h = cc h

visits : IsIteration (group_ports (web_port ∷ []) []) (same_order (group_ports (web_port ∷ []) []))
unfolding group_ports lookup insert
visits filter ports = (
  λ there. elim there [
    | inl e ↦
        let name : "detector" ≡ filter = ap (λ (x : String × List ServicePort). x.0) e in
        let same : web_port ∷ [] ≡ ports = ap (λ (x : String × List ServicePort). x.1) e in
        rw ((eq_iff "detector" filter).1 name) (ap some same)
    | inr bad ↦ absurd bad
  ],
  λ e. elim (Bool-cases (str_eq "detector" filter)) [
    | inr other ↦ let bad = rw (other) at e in cc bad
    | inl name ↦
        let same : web_port ∷ [] ≡ ports = some-injective (rw (name) at e) in
        inl (λ i. ((eq_iff "detector" filter).0 name i, same i))
  ],
)

ensure_filter_services-refines_example :
    let empty : Store = λ n m. none in
    let after =
      (ensure_filter_services store_reconciler same_order instance_a stream_pipeline empty).1 in
    ((e : Entry) → IsExposed (web_port ∷ []) e → IsServed instance_a (same_store after) e)
    × ((n m : String)
        → ((e : Entry) → IsExposed (web_port ∷ []) e → service_name instance_a e.filter e.index ≢ n)
        → same_store after n m ≡ none)
unfolding ensure_filter_services group_ports insert lookup
ensure_filter_services-refines_example =
    ensure_filter_services-refines store_reconciler same_store memory-IsStore instance_a same_order
      stream_pipeline (λ n m. none) visits refl

-- A cluster with no Deployment that counts those that are created.
abbrev counting_cluster : Cluster ℕ
counting_cluster = let k = quiet_cluster ℕ in record k { create_deployment = λ d w. (ok tt, w + 1) }

abbrev counting_reconciler : Reconciler ℕ
counting_reconciler = let r = quiet_reconciler ℕ in record r { kube = counting_cluster }

abbrev IsCounted : ℕ → Type 0
IsCounted n = 0 < n

counting-IsPassKept : IsPassKept counting_reconciler IsCounted
counting-IsPassKept = record {
  reads = record { by_now = λ w p. p; by_get = λ n s w p. p; by_pods = λ n k v w p. p };
  services = record { by_get = λ n s w p. p; by_create = λ s w p. p; by_patch = λ b s w p. p };
  deletions = record {
    by_deployment = λ n s w p. p;
    by_list = λ n k v w p. p;
    by_service = λ s w p. p;
  };
  by_status = λ pi w p. p;
}

-- It is complete since 9, and its Deployment is gone.
abbrev complete_stream : PipelineInstance
complete_stream = record finished_instance { finalizers = streaming_finalizer ∷ [] }

abbrev no_format : ℤ → String
no_format d = ""

reconcile_streaming-creates_example :
    let out =
      reconcile_streaming counting_reconciler no_format same_order complete_stream
        (some stream_pipeline)
        (some stream_source)
        0 in
    (out.1.status.start_time ≡ some 5) × (0 < out.2)
reconcile_streaming-creates_example =
    reconcile_streaming-creates counting_reconciler IsCounted counting-IsPassKept no_format
      same_order 5 complete_stream stream_pipeline (some stream_source) 0
      (api not_found "no deployment")
      (build_streaming_deployment counting_reconciler (init_streaming complete_stream)
        stream_pipeline (some stream_source) (deployment_name_of complete_stream))
      refl refl refl refl refl refl (λ u. omega arith)

reconcile_streaming-HasStarted_example :
    HasStarted counting_reconciler no_format same_order 5
      (reconcile_streaming counting_reconciler no_format same_order complete_stream
        (some stream_pipeline)
        (some stream_source)
        0).1
reconcile_streaming-HasStarted_example =
    reconcile_streaming-HasStarted counting_reconciler no_format same_order 5 complete_stream
      (some stream_pipeline) (some stream_source) 0 refl
