-- ===== src/Tests/Machines.antt =====
-- The run of the claimer on a machine in memory.
use openfilter_pipelines_con.Base.{
  ℕ, zero, suc, ◌<◌, ◌≡◌, refl, true, false, Bool, none, [], ◌∷◌, String, Dict, is_some, lookup,
  arith, ◌≤◌, eq_iff,
}
use openfilter_pipelines_con.Go.{Op, ok, err, Error, net}
use openfilter_pipelines_con.Queue.{XMessage, value_of}
use openfilter_pipelines_con.Claimer.Config.{Config, load_config, get_env_or_default, getenv}
use openfilter_pipelines_con.Claimer.Claim.{
  claim_message_once, first_entry, parse_message, attempts_of,
}
use openfilter_pipelines_con.Claimer.Run.{Machine, sleep_with_context, create_valkey_client, run}
use openfilter_pipelines_con.Claimer.Run.Progress.{IsRecoveringMachine, run-some}
use openfilter_pipelines_con.Claimer.Run.Downloaded.{IsCopying, IsFetched, run-IsFetched}

abbrev Nothing : Type 0
Nothing = Unit {0}

abbrev item : XMessage
item = record { id = "1-0"; values = ("file", "a.mp4") ∷ [] }

abbrev environment : Dict String
environment = ("STREAM", "work") ∷ ("GROUP", "cg:0") ∷ ("S3_BUCKET", "videos") ∷ []

abbrev settings : Config
settings = record {
  valkey_url = "localhost:6379";
  valkey_username = "";
  valkey_password = "";
  stream = "work";
  group = "cg:0";
  consumer_name = "claimer";
  pod_name = "";
  pod_namespace = "";
  s3_bucket = "videos";
  s3_endpoint = "";
  s3_region = "";
  s3_access_key = "";
  s3_secret_key = "";
  s3_use_path_style = false;
  s3_skip_tls = false;
  video_input_path = "/ws/input.mp4";
}

-- Each request that is counted fails until the count is zero.
abbrev counted : {A : Type 0} → A → Op ℕ A
counted a zero = (ok a, zero)
counted a (suc n) = (err (net "connection refused"), n)

abbrev flaky : Machine ℕ Nothing Nothing Nothing Nothing
flaky = record {
  new_client = λ option. counted tt;
  close_client = λ c w. w;
  ping = λ c. counted tt;
  read_group = λ c group consumer stream. counted ((stream, item ∷ []) ∷ []);
  cancelled = λ w. none;
  wait = λ d w. (ok tt, w);
  new_minio = λ options w. (ok tt, w);
  make_parent = λ path w. (ok tt, w);
  get_object = λ c bucket key w. (ok tt, w);
  create_file = λ path w. (ok tt, w);
  copy = λ f o w. (ok tt, w);
  close_file = λ f w. w;
  close_object = λ o w. w;
}

abbrev outages : ℕ → ℕ
outages n = n

counted-falls :
    {A : Type 0} (a : A) (w : ℕ) (e : Error) → (counted a w).0 ≡ err e → (counted a w).1 < w
counted-falls a zero e h = cc h
counted-falls a (suc n) e h = omega arith

counted-adds_none : {A : Type 0} (a : A) (w : ℕ) → (counted a w).1 ≤ w
counted-adds_none a zero = omega arith
counted-adds_none a (suc n) = omega arith

connect-falls :
    (cfg : Config) (w : ℕ) (e : Error)
    → (create_valkey_client flaky cfg w).0 ≡ err e
    → (create_valkey_client flaky cfg w).1 < w
unfolding create_valkey_client
connect-falls cfg zero e h = cc h
connect-falls cfg (suc n) e h = omega arith

connect-adds_none : (cfg : Config) (w : ℕ) → (create_valkey_client flaky cfg w).1 ≤ w
unfolding create_valkey_client
connect-adds_none cfg zero = omega arith
connect-adds_none cfg (suc n) = omega arith

claim-falls :
    (cfg : Config) (w : ℕ) (e : Error)
    → let once =
        claim_message_once (flaky.read_group tt) flaky.cancelled (sleep_with_context flaky) cfg in
      (once w).0 ≡ err e → (once w).1 < w
unfolding claim_message_once lookup first_entry parse_message attempts_of value_of
claim-falls cfg zero e h = let bad = rw ((eq_iff cfg.stream cfg.stream).1 refl) at h in cc bad
claim-falls cfg (suc n) e h = omega arith

rest-calm : (d w : ℕ) → (sleep_with_context flaky d w).1 ≤ w
unfolding sleep_with_context
rest-calm d w = ground arith

flaky-IsRecovering : IsRecoveringMachine flaky outages
flaky-IsRecovering = record {
  connects = λ cfg. record {
    failure = λ w e h retried. connect-falls cfg w e h;
    adds_none = λ w. connect-adds_none cfg w;
  };
  pings = λ client. record {
    failure = λ w e h retried. counted-falls tt w e h;
    adds_none = λ w. counted-adds_none tt w;
  };
  claims =
      λ client cfg. record { failure = λ w e h retried. claim-falls cfg w e h; rest = rest-calm };
  calm = λ d w. omega arith;
}

run-some_example : is_some (run flaky 3 environment 2) ≡ true
run-some_example = run-some flaky outages flaky-IsRecovering 3 environment 2 (omega arith)

-- The world says whether something was copied.
abbrev steady : Machine Bool Nothing Nothing Nothing Nothing
steady = record {
  new_client = λ option w. (ok tt, w);
  close_client = λ c w. w;
  ping = λ c w. (ok tt, w);
  read_group = λ c group consumer stream w. (ok ((stream, item ∷ []) ∷ []), w);
  cancelled = λ w. none;
  wait = λ d w. (ok tt, w);
  new_minio = λ options w. (ok tt, w);
  make_parent = λ path w. (ok tt, w);
  get_object = λ c bucket key w. (ok tt, w);
  create_file = λ path w. (ok tt, w);
  copy = λ f o w. (ok tt, true);
  close_file = λ f w. w;
  close_object = λ o w. w;
}

abbrev IsDone : String → String → String → Bool → Type 0
IsDone bucket key path w = w ≡ true

steady-IsCopying : IsCopying steady IsDone
steady-IsCopying = record {
  copies = λ c b k p u v w o f got made good. refl;
  file_keeps = λ b k p f w done. done;
  object_keeps = λ b k p o w done. done;
  client_keeps = λ b k p c w done. done;
}

run-IsFetched_example : IsFetched steady IsDone 1 settings (run steady 1 environment false)
unfolding load_config get_env_or_default getenv lookup
run-IsFetched_example =
    run-IsFetched steady IsDone steady-IsCopying 1 environment settings false refl
