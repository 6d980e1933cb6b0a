-- ===== src/Claimer/Config/Required.antt =====
-- Which variables the claimer needs (`loadConfig` in cmd/claimer/main.go).
use openfilter_pipelines_con.Base.{
  ◌≡◌, ◌≢◌, ◌↔◌, refl, true, false, String, str_eq, Dict, arith, eq_iff, Bool-cases, inl, inr,
}
use openfilter_pipelines_con.Go.{ok, is_ok}
use openfilter_pipelines_con.Claimer.Config.{getenv, get_env_or_default, read_config, load_config}

-- The three variables without a default are set.
abbrev pub IsConfigured : Dict String → Type 0
IsConfigured env =
    (getenv env "STREAM" ≢ "") × (getenv env "GROUP" ≢ "") × (getenv env "S3_BUCKET" ≢ "")

video_path-ne-empty :
    (env : Dict String) (key : String)
    → str_eq (get_env_or_default env key "/ws/input.mp4") "" ≡ false
unfolding get_env_or_default
video_path-ne-empty env key = elim (Bool-cases (str_eq (getenv env key) "")) [
  | inl unset ↦ rw (get_env_or_default, unset) refl
  | inr given ↦ rw (get_env_or_default, given) given
]

-- The configuration is accepted exactly if the stream, the group and the bucket are set; no other
-- variable is required, the path of the video included.
pub load_config_iff : (env : Dict String) → (is_ok (load_config env) ≡ true) ↔ IsConfigured env
unfolding load_config
load_config_iff env = ground (
  arith,
  eq_iff (getenv env "STREAM") "",
  eq_iff (getenv env "GROUP") "",
  eq_iff (getenv env "S3_BUCKET") "",
  video_path-ne-empty env "VIDEO_INPUT_PATH",
)

-- Then every variable is read as it stands.
pub load_config-read_config :
    (env : Dict String) → IsConfigured env → load_config env ≡ ok (read_config env)
unfolding load_config
load_config-read_config env h = ground (
  arith,
  eq_iff (getenv env "STREAM") "",
  eq_iff (getenv env "GROUP") "",
  eq_iff (getenv env "S3_BUCKET") "",
  video_path-ne-empty env "VIDEO_INPUT_PATH",
)
