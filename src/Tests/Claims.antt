-- ===== src/Tests/Claims.antt =====
-- The claimer at a concrete environment and a server that is down for a while.
use openfilter_pipelines_con.Base.{
  ℕ, zero, suc, ◌<◌, ◌≡◌, ◌↔◌, true, none, List, [], ◌∷◌, String, Dict, is_some, lookup, arith,
}
use openfilter_pipelines_con.Go.{Op, ok, err, Error, net, is_ok}
use openfilter_pipelines_con.Queue.{XMessage, value_of}
use openfilter_pipelines_con.Claimer.Config.{Config, load_config}
use openfilter_pipelines_con.Claimer.Config.Required.{IsConfigured, load_config_iff}
use openfilter_pipelines_con.Claimer.Claim.{
  claim_message_once, claim_message, first_entry, parse_message, attempts_of,
}
use openfilter_pipelines_con.Claimer.Claim.Recovery.{IsRecovering, claim_message-some}

abbrev environment : Dict String
environment = ("STREAM", "ns:a:pi:0:work") ∷ ("GROUP", "cg:0") ∷ ("S3_BUCKET", "videos") ∷ []

load_config_iff_example : (is_ok (load_config environment) ≡ true) ↔ IsConfigured environment
load_config_iff_example = load_config_iff environment

abbrev settings : Config
settings = record {
  valkey_url = "valkey:6379";
  valkey_username = "";
  valkey_password = "";
  stream = "work";
  group = "cg:0";
  consumer_name = "pod-1";
  pod_name = "pod-1";
  pod_namespace = "team-a";
  s3_bucket = "videos";
  s3_endpoint = "";
  s3_region = "";
  s3_access_key = "";
  s3_secret_key = "";
  s3_use_path_style = true;
  s3_skip_tls = true;
  video_input_path = "/ws/input.mp4";
}

abbrev item : XMessage
item = record { id = "1-0"; values = ("file", "a.mp4") ∷ [] }

-- The world is the number of requests that still fail.
abbrev reading : String → String → String → Op ℕ (Dict (List XMessage))
reading group consumer stream zero = (ok (("work", item ∷ []) ∷ []), zero)
reading group consumer stream (suc n) = (err (net "connection refused"), n)

abbrev waiting : ℕ → Op ℕ (Unit {0})
waiting d w = (ok tt, w)

failure_of :
    (w : ℕ) (e : Error)
    → (claim_message_once reading (λ w. none) waiting settings w).0 ≡ err e
    → (claim_message_once reading (λ w. none) waiting settings w).1 < w
unfolding claim_message_once lookup first_entry parse_message attempts_of value_of
failure_of zero e h = cc h
failure_of (suc n) e h = omega arith

recovering : IsRecovering reading (λ w. none) waiting settings (λ w. w)
recovering = record { failure = λ w e h retried. failure_of w e h; rest = λ d w. omega arith }

claim_message-some_example : is_some (claim_message reading (λ w. none) waiting 3 settings 2) ≡ true
claim_message-some_example =
    claim_message-some reading (λ w. none) waiting settings (λ w. w) recovering 3 2 (omega arith)
