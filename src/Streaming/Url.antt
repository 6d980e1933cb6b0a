-- ===== src/Streaming/Url.antt =====
-- `normalizeRTSPComponents`, `buildRTSPURL` and `buildRTSPURLWithCredentials`
-- (internal/controller/pipelineinstance_controller_streaming.go).
pub mod Components
use Prim.Native.Char.{code}
use Prim.Native.String
use openfilter_pipelines_con.Base.{
  ℤ, pos, eqb_ℤ, Bool, true, false, ◌||◌, String, str_eq, List, [], ◌∷◌, ◌==◌, ◌≡◌, refl, none,
  if◌then◌else◌,
}
use openfilter_pipelines_con.Go.{concat}
use openfilter_pipelines_con.Go.Strconv.{itoa}
use openfilter_pipelines_con.Api.{RtspSource}

-- `strings.HasPrefix(path, "/")`
abbrev pub has_slash : String → Bool
has_slash String.[] = false
has_slash (String.◌∷◌ c s) = code c == b'/'

abbrev pub default_port : ℤ → ℤ
default_port port = if eqb_ℤ port (pos 0) then pos 554 else port

abbrev pub slashed : String → String
slashed path = if str_eq path "" || has_slash path then path else String.◌++◌ "/" path

unfoldable pub normalize_rtsp_components : RtspSource → String × ℤ × String
normalize_rtsp_components rtsp = (rtsp.host, default_port rtsp.port, slashed rtsp.path)

-- `rtsp://host:port/path`
unfoldable pub build_rtsp_url : RtspSource → String
unfolding normalize_rtsp_components
build_rtsp_url rtsp =
    let (host, port, path) = normalize_rtsp_components rtsp in
    concat ("rtsp://" ∷ host ∷ ":" ∷ itoa port ∷ path ∷ [])

-- The same with references that the kubelet expands.
unfoldable pub build_rtsp_url_with_credentials : RtspSource → String
unfolding normalize_rtsp_components
build_rtsp_url_with_credentials rtsp =
    let (host, port, path) = normalize_rtsp_components rtsp in
    concat ("rtsp://$(_RTSP_USERNAME):$(_RTSP_PASSWORD)@" ∷ host ∷ ":" ∷ itoa port ∷ path ∷ [])

abbrev camera : RtspSource
camera = record {
  host = "cam";
  port = pos 0;
  path = "live";
  credentials_secret = none;
  idle_timeout = none;
}

build_rtsp_url_test : build_rtsp_url camera ≡ "rtsp://cam:554/live"
unfolding build_rtsp_url itoa
build_rtsp_url_test = refl
