-- ===== src/Main.antt =====
-- The helpers of the manager's flags (cmd/main.go): `validateTelemetryFlags` and
-- `parseNodeSelectorLabels`, with what they use of `strings`.
pub mod Labels
pub mod Telemetry
pub mod Settings
use Prim.Native.Char.{Char, code}
use Prim.Native.String
use openfilter_pipelines_con.Base.{
  ℕ, ltb, leb, ◌==◌, Bool, true, false, not, ◌&&◌, ◌||◌, Option, none, some, List, [], ◌∷◌, String,
  str_eq, Dict, insert, is_empty, if◌then◌else◌, ◌≡◌, refl,
}
use openfilter_pipelines_con.Go.{Result, ok, err, message, concat}

-- Set together, or empty together.
unfoldable pub validate_telemetry_flags : (String → String) → String → String → Result (Unit {0})
validate_telemetry_flags quote type endpoint =
    let failure = message (
      concat (
        "--telemetry-exporter-type and --telemetry-exporter-otlp-endpoint must both be set "
        ∷ "together to enable tracing injection, or both must be empty to disable it "
        ∷ "(got type="
        ∷ quote type
        ∷ ", endpoint="
        ∷ quote endpoint
        ∷ ")"
        ∷ [])) in
    if str_eq type ""
    then if str_eq endpoint "" then ok tt else err failure
    else if str_eq endpoint ""
    then err failure
    else ok tt

-- `unicode.IsSpace`
abbrev pub is_space : Char → Bool
is_space c =
    let n = code c in
    leb 9 n && leb n 13
    || n == 32
    || n == 133
    || n == 160
    || n == 5760
    || leb 8192 n && leb n 8202
    || n == 8232
    || n == 8233
    || n == 8239
    || n == 8287
    || n == 12288

unfoldable pub trim_left : String → String
trim_left String.[] = String.[]
trim_left (String.◌∷◌ c s) = let rest = trim_left s in if is_space c then rest else String.◌∷◌ c s

-- The text without the spaces at its end.
unfoldable pub trim_right : String → String
trim_right String.[] = String.[]
trim_right (String.◌∷◌ c s) =
    let rest = trim_right s in if is_space c && str_eq rest "" then String.[] else String.◌∷◌ c rest

-- `strings.TrimSpace`
unfoldable pub trim_space : String → String
unfolding trim_left trim_right
trim_space s = trim_right (trim_left s)

-- The text before the first separator, and what follows it if there is one.
unfoldable pub cut : Char → String → String × Option String
cut d String.[] = ("", none)
cut d (String.◌∷◌ c s) =
    let (first, rest) = cut d s in
    if code c == code d then ("", some s) else (String.◌∷◌ c first, rest)

abbrev pub onto_first : Char → List String → List String
onto_first x [] = String.◌∷◌ x "" ∷ []
onto_first x (part ∷ parts) = String.◌∷◌ x part ∷ parts

-- `strings.Split`, at one character.
unfoldable pub split : Char → String → List String
split d String.[] = "" ∷ []
split d (String.◌∷◌ c s) =
    let parts = split d s in if code c == code d then "" ∷ parts else onto_first c parts

-- `k=v` with a key is a label; any other part is skipped.
unfoldable pub add_pair : String × Option String → Dict String → Dict String
add_pair (key, none) result = result
add_pair (key, some value) result = if str_eq key "" then result else insert key value result

unfoldable pub add_pairs : List String → Dict String → Dict String
unfolding add_pair
add_pairs [] result = result
add_pairs (part ∷ parts) result = add_pairs parts (add_pair (cut "=" (trim_space part)) result)

-- A nil map and an empty one are the same here.
unfoldable pub parse_node_selector_labels : String → Dict String
unfolding add_pairs
parse_node_selector_labels s = if str_eq s "" then [] else add_pairs (split "," s) []

parse_test :
    parse_node_selector_labels "gpu=yes, zone = eu=1,,=x,plain"
    ≡ ("gpu", "yes") ∷ ("zone ", " eu=1") ∷ []
unfolding parse_node_selector_labels split cut trim_space trim_left trim_right insert
parse_test = refl
