-- ===== src/Claimer/Config.antt =====
-- What the claimer reads from its environment, and where it finds the bucket (`loadConfig`,
-- `getEnvOrDefault`, `createMinIOClient` in cmd/claimer/main.go).
pub mod Required
use openfilter_pipelines_con.Base.{Bool, ◌||◌, String, str_eq, if◌then◌else◌, Dict, lookup, or_else}
use openfilter_pipelines_con.Go.{Result, ok, err, message}
use openfilter_pipelines_con.Reconciler.Storage.{split_endpoint}

pub record Config : Type 0 where
  pub valkey_url : String
  pub valkey_username : String
  pub valkey_password : String
  pub stream : String
  pub group : String
  pub consumer_name : String
  pub pod_name : String
  pub pod_namespace : String
  pub s3_bucket : String
  pub s3_endpoint : String
  pub s3_region : String
  pub s3_access_key : String
  pub s3_secret_key : String
  pub s3_use_path_style : Bool
  pub s3_skip_tls : Bool
  pub video_input_path : String

-- `os.Getenv`: the empty text for a variable that is not set.
unfoldable pub getenv : Dict String → String → String
getenv env key = or_else (lookup key env) ""

unfoldable pub get_env_or_default : Dict String → String → String → String
unfolding getenv
get_env_or_default env key fallback =
    if str_eq (getenv env key) "" then fallback else getenv env key

abbrev pub read_config : Dict String → Config
read_config env = record {
  valkey_url = get_env_or_default env "VALKEY_URL" "localhost:6379";
  valkey_username = getenv env "VALKEY_USERNAME";
  valkey_password = getenv env "VALKEY_PASSWORD";
  stream = getenv env "STREAM";
  group = getenv env "GROUP";
  consumer_name = get_env_or_default env "CONSUMER_NAME" "claimer";
  pod_name = getenv env "POD_NAME";
  pod_namespace = getenv env "POD_NAMESPACE";
  s3_bucket = getenv env "S3_BUCKET";
  s3_endpoint = getenv env "S3_ENDPOINT";
  s3_region = getenv env "S3_REGION";
  s3_access_key = getenv env "S3_ACCESS_KEY_ID";
  s3_secret_key = getenv env "S3_SECRET_ACCESS_KEY";
  s3_use_path_style = str_eq (get_env_or_default env "S3_USE_PATH_STYLE" "false") "true";
  s3_skip_tls = str_eq (get_env_or_default env "S3_INSECURE_SKIP_TLS_VERIFY" "false") "true";
  video_input_path = get_env_or_default env "VIDEO_INPUT_PATH" "/ws/input.mp4";
}

unfoldable pub load_config : Dict String → Result Config
unfolding get_env_or_default getenv
load_config env =
    let cfg = read_config env in
    if str_eq cfg.stream ""
    then err (message "STREAM is required")
    else if str_eq cfg.group ""
    then err (message "GROUP is required")
    else if str_eq cfg.s3_bucket ""
    then err (message "S3_BUCKET is required")
    else if str_eq cfg.video_input_path ""
    then err (message "VIDEO_INPUT_PATH is required")
    else ok cfg

-- The endpoint, the encryption and the keys that `createMinIOClient` gives to `minio.New`.
pub record MinioOptions : Type 0 where
  pub endpoint : String
  pub secure : Bool
  pub access_key : String
  pub secret_key : String
  pub region : String
  pub insecure_skip_tls_verify : Bool

unfoldable pub minio_options : Config → MinioOptions
minio_options cfg =
    let endpoint = split_endpoint cfg.s3_endpoint in
    let anonymous = str_eq cfg.s3_access_key "" || str_eq cfg.s3_secret_key "" in
    record {
      endpoint = endpoint.0;
      secure = endpoint.1;
      access_key = if anonymous then "" else cfg.s3_access_key;
      secret_key = if anonymous then "" else cfg.s3_secret_key;
      region = cfg.s3_region;
      insecure_skip_tls_verify = cfg.s3_skip_tls;
    }
