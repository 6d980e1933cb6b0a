-- ===== src/Build/Job/Agreement.antt =====
-- The claimer's configuration (`loadConfig`, cmd/claimer/main.go) in the environment that `buildJob`
-- (internal/controller/pipelineinstance_controller_batch.go) gives it.
use text.Mathlib.TextLemmas.{append-eq-nil_iff}
use openfilter_pipelines_con.Base.{
  ◌≡◌, ◌≢◌, ◌∙◌, refl, sym, ap, subst, true, false, Bool, Option, none, some, List, String, str_eq,
  Dict, arith, eq_iff, if◌then◌else◌,
}
use openfilter_pipelines_con.Go.{ok}
use openfilter_pipelines_con.Api.{
  PipelineInstance, BucketSource, RtspSource, get_queue_stream, get_queue_group,
}
use openfilter_pipelines_con.Kube.{EnvVar, EnvValue, plain, field_ref, secret_key_ref}
use openfilter_pipelines_con.Pipeline.{Pipeline}
use openfilter_pipelines_con.Reconciler.{Reconciler}
use openfilter_pipelines_con.Claimer.Config.{
  Config, getenv, get_env_or_default, read_config, load_config,
}
use openfilter_pipelines_con.Claimer.Config.Required.{load_config-read_config}
use openfilter_pipelines_con.Build.Env.Effective.{effective}
use openfilter_pipelines_con.Build.Job.{
  or_default, format_bool, ref_name, bucket_vars, secret_vars, claimer_env,
}

-- `resolve` is what the kubelet makes of a value: a field of the pod, a key of a Secret, or a text.
abbrev pub resolved : (EnvValue → String) → Option EnvValue → String
resolved resolve none = ""
resolved resolve (some value) = resolve value

-- The environment of a process that has these variables and no others.
abbrev pub IsEnvironment : (EnvValue → String) → List EnvVar → Dict String → Type 0
IsEnvironment resolve vars e =
    (name : String) → getenv e name ≡ resolved resolve (effective name vars)

-- No text of these variables refers to another variable, which the kubelet would expand.
abbrev pub IsPlain : (EnvValue → String) → List EnvVar → Type 0
IsPlain resolve vars =
    (name t : String) → effective name vars ≡ some (plain t) → resolve (plain t) ≡ t

-- A key of the bucket's secret, if it has one.
abbrev secret_value : (EnvValue → String) → String → String → String
secret_value resolve secret key =
    if str_eq secret "" then "" else resolve (secret_key_ref secret key)

or_default-ne-empty : (s d : String) → d ≢ "" → or_default s d ≢ ""
or_default-ne-empty s d h = ground (arith, eq_iff s "")

or_default_twice : (s d : String) → or_default (or_default s d) d ≡ or_default s d
or_default_twice s d = ground (arith, eq_iff s "", eq_iff d "")

abbrev HasRequired : Config → Type 0
HasRequired cfg = (cfg.stream ≢ "") × (cfg.group ≢ "") × (cfg.s3_bucket ≢ "")

-- A flag survives being printed and compared.
format_bool-true : (b : Bool) → str_eq (or_default (format_bool b) "false") "true" ≡ b
format_bool-true true = refl
format_bool-true false = refl

module _ (e : Dict String) where
  get_env_or_default_lem :
      (key s fallback : String)
      → getenv e key ≡ s
      → get_env_or_default e key fallback ≡ or_default s fallback
  unfolding get_env_or_default
  get_env_or_default_lem key s fallback h = rw (h) refl

module _ {W : Type 0} (resolve : EnvValue → String) (r : Reconciler W) (pi : PipelineInstance)
    (p : Pipeline) (b : BucketSource) where
  -- What the claimer is meant to be told.
  abbrev pub claimer_config : Config
  claimer_config =
      let credentials = or_default r.valkey_ns_secret_name "valkey-ns-credentials" in
      let secret = ref_name b.credentials_secret in
      record {
        valkey_url = or_default r.valkey_addr "localhost:6379";
        valkey_username = resolve (secret_key_ref credentials "valkey-username");
        valkey_password = resolve (secret_key_ref credentials "valkey-password");
        stream = get_queue_stream pi;
        group = get_queue_group pi;
        consumer_name = or_default (resolve (field_ref "metadata.name")) "claimer";
        pod_name = resolve (field_ref "metadata.name");
        pod_namespace = resolve (field_ref "metadata.namespace");
        s3_bucket = b.name;
        s3_endpoint = b.endpoint;
        s3_region = b.region;
        s3_access_key = secret_value resolve secret "accessKeyId";
        s3_secret_key = secret_value resolve secret "secretAccessKey";
        s3_use_path_style = b.use_path_style;
        s3_skip_tls = b.insecure_skip_tls_verify;
        video_input_path = or_default p.video_input_path "/ws/input.mp4";
      }

  abbrev vars : Option RtspSource → List EnvVar
  vars rtsp = claimer_env r pi p (record { bucket = some b; rtsp = rtsp })

  queue_names : (get_queue_stream pi ≢ "") × (get_queue_group pi ≢ "")
  unfolding get_queue_stream get_queue_group
  queue_names = (
    (λ e. let bad = ((append-eq-nil_iff {p = "ns:"}).0 e).0 in cc bad),
    λ e. let bad = ((append-eq-nil_iff {p = "cg:"}).0 e).0 in cc bad,
  )

  module _ (rtsp : Option RtspSource) (e : Dict String) (written : IsPlain resolve (vars rtsp))
      (get : IsEnvironment resolve (vars rtsp) e) where
    given :
        (name : String) (v : EnvValue)
        → effective name (vars rtsp) ≡ some v
        → getenv e name ≡ resolve v
    given name v h = get name ∙ ap (resolved resolve) h

    says : (name t : String) → effective name (vars rtsp) ≡ some (plain t) → getenv e name ≡ t
    says name t h = given name (plain t) h ∙ written name t h

    defaulted :
        (name s d : String) → getenv e name ≡ s → get_env_or_default e name d ≡ or_default s d
    unfolding get_env_or_default
    defaulted name s d h = rw (h) refl

    flag :
        (name : String) (c : Bool)
        → getenv e name ≡ format_bool c
        → str_eq (get_env_or_default e name "false") "true" ≡ c
    flag name c h =
        ap (λ (t : String). str_eq t "true") (defaulted name _ "false" h) ∙ format_bool-true c

    keys :
        (getenv e "S3_ACCESS_KEY_ID"
          ≡ secret_value resolve (ref_name b.credentials_secret) "accessKeyId")
        × (getenv e "S3_SECRET_ACCESS_KEY"
            ≡ secret_value resolve (ref_name b.credentials_secret) "secretAccessKey")
    unfolding claimer_env bucket_vars secret_vars
    keys = ground (arith, get "S3_ACCESS_KEY_ID", get "S3_SECRET_ACCESS_KEY")

    -- The variables of the pod and of the queue, and those of the file.
    read_config-vars : read_config e ≡ claimer_config
    unfolding claimer_env bucket_vars secret_vars
    read_config-vars =
        let credentials = or_default r.valkey_ns_secret_name "valkey-ns-credentials" in
        let pod = given "POD_NAME" (field_ref "metadata.name") (ground arith) in
        let consumer = given "CONSUMER_NAME" (field_ref "metadata.name") (ground arith) in
        let ns = given "POD_NAMESPACE" (field_ref "metadata.namespace") (ground arith) in
        let user =
          given "VALKEY_USERNAME" (secret_key_ref credentials "valkey-username") (ground arith) in
        let password =
          given "VALKEY_PASSWORD" (secret_key_ref credentials "valkey-password") (ground arith) in
        let stream = says "STREAM" (get_queue_stream pi) (ground arith) in
        let group = says "GROUP" (get_queue_group pi) (ground arith) in
        let url = says "VALKEY_URL" r.valkey_addr (ground arith) in
        let bucket = says "S3_BUCKET" b.name (ground arith) in
        let endpoint = says "S3_ENDPOINT" b.endpoint (ground arith) in
        let region = says "S3_REGION" b.region (ground arith) in
        let style = says "S3_USE_PATH_STYLE" (format_bool b.use_path_style) (ground arith) in
        let tls =
          says "S3_INSECURE_SKIP_TLS_VERIFY" (format_bool b.insecure_skip_tls_verify)
            (ground arith) in
        let video = or_default p.video_input_path "/ws/input.mp4" in
        let path = says "VIDEO_INPUT_PATH" video (ground arith) in
        λ i. record {
          valkey_url = defaulted "VALKEY_URL" r.valkey_addr "localhost:6379" url i;
          valkey_username = user i;
          valkey_password = password i;
          stream = stream i;
          group = group i;
          consumer_name = defaulted "CONSUMER_NAME" _ "claimer" consumer i;
          pod_name = pod i;
          pod_namespace = ns i;
          s3_bucket = bucket i;
          s3_endpoint = endpoint i;
          s3_region = region i;
          s3_access_key = keys.0 i;
          s3_secret_key = keys.1 i;
          s3_use_path_style = flag "S3_USE_PATH_STYLE" b.use_path_style style i;
          s3_skip_tls = flag "S3_INSECURE_SKIP_TLS_VERIFY" b.insecure_skip_tls_verify tls i;
          video_input_path =
              (defaulted "VIDEO_INPUT_PATH" video "/ws/input.mp4" path
                  ∙ or_default_twice p.video_input_path "/ws/input.mp4")
                i;
        }

    -- The kubelet starts the claimer of a Job with the variables that buildJob gives it and no others, and no
    -- text among them refers to another variable; the source has a bucket with a name. Then the
    -- claimer accepts its configuration, and each setting is the one that the instance, the pipeline,
    -- the source and the controller have for it.
    pub load_config-claimer_env : b.name ≢ "" → load_config e ≡ ok claimer_config
    load_config-claimer_env named =
        let (streamed, grouped) = queue_names in
        load_config-read_config e
          (subst HasRequired (sym read_config-vars) (streamed, grouped, named))
        ∙ ap ok read_config-vars
