-- ===== src/Claimer/Run.antt =====
-- The run of the claimer (`run`, `createValkeyClient`, `waitForValkey`, `sleepWithContext` and
-- `downloadFile` in cmd/claimer/main.go). The Valkey client, MinIO, the file system and the timer are
-- parameters; each loop runs on fuel, one unit for each attempt. Logs are left out.
pub mod Progress
pub mod Downloaded
use openfilter_pipelines_con.Base.{
  ℕ, zero, suc, ◌*◌, ◌==◌, Bool, true, false, Option, none, some, List, [], ◌∷◌, String, Dict,
  if◌then◌else◌,
}
use openfilter_pipelines_con.Go.{Op, Result, ok, err, Error, wrapped, wrapping}
use openfilter_pipelines_con.Queue.{XMessage}
use openfilter_pipelines_con.Claimer.Backoff.{
  ExponentialBackoff, new_exponential_backoff, next, second,
}
use openfilter_pipelines_con.Claimer.Config.{Config, MinioOptions, load_config, minio_options}
use openfilter_pipelines_con.Claimer.Claim.{Message, is_retryable_valkey_error, claim_message}

-- What `valkey.NewClient` is given.
pub record ClientOption : Type 0 where
  pub init_address : List String
  pub disable_cache : Bool
  pub username : String
  pub password : String

unfoldable pub client_option : Config → ClientOption
client_option cfg = record {
  init_address = cfg.valkey_url ∷ [];
  disable_cache = true;
  username = cfg.valkey_username;
  password = cfg.valkey_password;
}

-- The libraries that the claimer calls: `C`, `M`, `O` and `F` are an open client of Valkey, one of
-- MinIO, an object that is being read and a file that is being written. `wait` is the `select` on the
-- timer and the context, and `make_parent` is `os.MkdirAll` of the directory of a path.
pub record Machine (W C M O F : Type 0) : Type 0 where
  pub new_client : ClientOption → Op W C
  pub close_client : C → W → W
  pub ping : C → Op W (Unit {0})
  pub read_group : C → String → String → String → Op W (Dict (List XMessage))
  pub cancelled : W → Option Error
  pub wait : ℕ → Op W (Unit {0})
  pub new_minio : MinioOptions → Op W M
  pub make_parent : String → Op W (Unit {0})
  pub get_object : M → String → String → Op W O
  pub create_file : String → Op W F
  pub copy : F → O → Op W (Unit {0})
  pub close_file : F → W → W
  pub close_object : O → W → W

module _ {W C M O F : Type 0} (m : Machine W C M O F) where
  -- A delay of zero does not wait.
  unfoldable pub sleep_with_context : ℕ → Op W (Unit {0})
  sleep_with_context d w = if d == 0 then (ok tt, w) else m.wait d w

  -- What follows a failed attempt: none if there is another one. `final` is how the error is returned.
  pub stop_for : (Error → Error) → Option Error → Error → Option Error
  stop_for final (some e) failure = some e
  stop_for final none failure =
      if is_retryable_valkey_error failure then none else some (final failure)

  -- The retry loop, none if the fuel runs out.
  unfoldable pub retry :
      {A : Type 0} → Op W A → (Error → Error) → ℕ → ExponentialBackoff → W → Option (Result A × W)
  unfolding sleep_with_context stop_for
  retry op final zero b w = none
  retry op final (suc fuel) b w =
      let tried = op w in
      elim tried.0 [
        | ok a ↦ some (ok a, tried.1)
        | err e ↦ elim (stop_for final (m.cancelled tried.1) e) [
          | some failure ↦ some (err failure, tried.1)
          | none ↦
              let slept = sleep_with_context (next b).0 tried.1 in
              elim slept.0 [
                | err stopped ↦ some (err stopped, slept.1)
                | ok _ ↦ retry op final fuel (next b).1 slept.1
              ]
        ]
      ]

  unfoldable pub create_valkey_client : Config → Op W C
  create_valkey_client cfg =
      wrapping "failed to create Valkey client" (m.new_client (client_option cfg))

  abbrev same : Error → Error
  same e = e

  unfoldable pub wait_for_valkey : ℕ → C → W → Option (Result (Unit {0}) × W)
  wait_for_valkey fuel client w =
      retry (m.ping client) same fuel (new_exponential_backoff (30 * second)) w

  -- The object and the file are closed on every path.
  pub write_object : O → String → Op W (Unit {0})
  write_object object path w =
      let file = wrapping "failed to create file" (m.create_file path) w in
      elim file.0 [
        | err e ↦ (err e, m.close_object object file.1)
        | ok f ↦
            let written = wrapping "failed to write file" (m.copy f object) file.1 in
            (written.0, m.close_object object (m.close_file f written.1))
      ]

  unfoldable pub download_file : M → String → String → String → Op W (Unit {0})
  unfolding write_object
  download_file client bucket key path w =
      let made = wrapping "failed to create directory" (m.make_parent path) w in
      elim made.0 [
        | err e ↦ (err e, made.1)
        | ok _ ↦
            let object =
              wrapping "failed to get object from S3" (m.get_object client bucket key) made.1 in
            elim object.0 [ err e ↦ (err e, object.1) | ok o ↦ write_object o path object.1 ]
      ]

  -- What `run` does with the claimed message.
  pub fetch_file : Config → Message → Op W (Unit {0})
  unfolding download_file
  fetch_file cfg msg w =
      let client =
        wrapping "failed to create MinIO client"
          (wrapping "failed to create MinIO client" (m.new_minio (minio_options cfg))) w in
      elim client.0 [
        | err e ↦ (err e, client.1)
        | ok c ↦
            wrapping "failed to download file"
              (download_file c cfg.s3_bucket msg.file cfg.video_input_path) client.1
      ]

  -- The client is closed when the run ends, also with an error.
  pub closed : C → Op W (Unit {0}) → W → Option (Result (Unit {0}) × W)
  closed client rest w = let out = rest w in some (out.0, m.close_client client out.1)

  abbrev Claimed : Type 0
  Claimed = Option (Result (Message × String) × W)

  pub after_claim : Config → C → Claimed → Option (Result (Unit {0}) × W)
  unfolding fetch_file closed
  after_claim cfg client none = none
  after_claim cfg client (some (err e, w)) =
      closed client (λ u. (err (wrapped "failed to claim message" e), u)) w
  after_claim cfg client (some (ok (msg, id), w)) = closed client (fetch_file cfg msg) w

  pub after_ping : ℕ → Config → C → Option (Result (Unit {0}) × W) → Option (Result (Unit {0}) × W)
  unfolding after_claim
  after_ping fuel cfg client none = none
  after_ping fuel cfg client (some (err e, w)) =
      closed client (λ u. (err (wrapped "failed to connect to Valkey" e), u)) w
  after_ping fuel cfg client (some (ok _, w)) =
      after_claim cfg client
        (claim_message (m.read_group client) m.cancelled sleep_with_context fuel cfg w)

  pub after_client : ℕ → Config → Option (Result C × W) → Option (Result (Unit {0}) × W)
  unfolding after_ping
  after_client fuel cfg none = none
  after_client fuel cfg (some (err e, w)) = some (err e, w)
  after_client fuel cfg (some (ok client, w)) =
      after_ping fuel cfg client (wait_for_valkey fuel client w)

  pub with_config : ℕ → Result Config → W → Option (Result (Unit {0}) × W)
  unfolding after_client
  with_config fuel (err e) w = some (err (wrapped "failed to load config" e), w)
  with_config fuel (ok cfg) w = after_client fuel cfg (
      retry (create_valkey_client cfg) (wrapped "failed to create Valkey client") fuel
        (new_exponential_backoff (30 * second)) w)

  unfoldable pub run : ℕ → Dict String → W → Option (Result (Unit {0}) × W)
  unfolding with_config
  run fuel env w = with_config fuel (load_config env) w
