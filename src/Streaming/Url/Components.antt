-- ===== src/Streaming/Url/Components.antt =====
-- What an RTSP URL (`buildRTSPURL`,
-- internal/controller/pipelineinstance_controller_streaming.go) says of its source.
use Prim.Native.Char.{Char, code}
use Prim.Native.String
use Prim.Native.String.append
use text.Mathlib.TextLemmas.{append_cancel_left, append-nil}
use text.Mathlib.TextEquality.{Char-path}
use openfilter_pipelines_con.Base.{
  ℕ, Bool, true, false, ℤ, pos, ◌≡◌, refl, sym, ap, ◌∙◌, String, str_eq, eq_iff, [], ◌∷◌, arith,
  inl, inr, ◌⊎◌, Bool-cases, ◌==◌, if◌then◌else◌,
}
use openfilter_pipelines_con.Go.{concat}
use openfilter_pipelines_con.Go.Texts.{HasNo, split_at, separated-ne}
use openfilter_pipelines_con.Go.Strconv.{itoa}
use openfilter_pipelines_con.Go.Strconv.Digits.{itoa-HasNo, itoa-injective}
use openfilter_pipelines_con.Api.{RtspSource}
use openfilter_pipelines_con.Streaming.Url.{
  default_port, slashed, normalize_rtsp_components, build_rtsp_url, build_rtsp_url_with_credentials,
}

abbrev slash : Char
slash = "/"

abbrev pub colon : Char
colon = ":"

-- A path is empty or begins with a slash.
abbrev IsPath : String → Type 0
IsPath path = (path ≡ "") ⊎ ((rest : String) × (path ≡ String.◌∷◌ slash rest))

slashed-IsPath : (path : String) → IsPath (slashed path)
slashed-IsPath String.[] = inl refl
slashed-IsPath (String.◌∷◌ c s) = elim (Bool-cases (str_eq (String.◌∷◌ c s) "")) [
  | inl empty ↦ let bad = (eq_iff (String.◌∷◌ c s) "").0 empty in cc bad
  | inr full ↦ elim (Bool-cases (code c == b'/')) [
    | inl e ↦ rw (full, e) (inr (s, ap (λ d. String.◌∷◌ d s) (Char-path c slash (ground arith))))
    | inr e ↦
        rw (full, e)
          (inr (
            String.◌∷◌ c s,
            append.cons slash "" (String.◌∷◌ c s) ∙ ap (String.◌∷◌ slash) (append.nil _),
          ))
  ]
]

-- A number in front of a path can be told from it.
split_number :
    (n m : ℕ) (a b : String)
    → IsPath a
    → IsPath b
    → String.◌++◌ (itoa (pos n)) a ≡ String.◌++◌ (itoa (pos m)) b
    → (n ≡ m) × (a ≡ b)
split_number n m a b (inl x) (inl y) e = (
  itoa-injective n m (
      sym (append-nil (itoa (pos n)))
      ∙ ap (String.◌++◌ (itoa (pos n))) (sym x)
      ∙ e
      ∙ ap (String.◌++◌ (itoa (pos m))) y
      ∙ append-nil (itoa (pos m))),
  x ∙ sym y,
)
split_number n m a b (inl x) (inr (t, y)) e = absurd (
    separated-ne slash (itoa (pos m)) t (itoa (pos n)) (itoa-HasNo slash n (inl (omega arith))) (
      sym (append-nil (itoa (pos n)))
      ∙ ap (String.◌++◌ (itoa (pos n))) (sym x)
      ∙ e
      ∙ ap (String.◌++◌ (itoa (pos m))) y))
split_number n m a b (inr (s, x)) (inl y) e = absurd (
    separated-ne slash (itoa (pos n)) s (itoa (pos m)) (itoa-HasNo slash m (inl (omega arith))) (
      sym (append-nil (itoa (pos m)))
      ∙ ap (String.◌++◌ (itoa (pos m))) (sym y)
      ∙ sym e
      ∙ ap (String.◌++◌ (itoa (pos n))) x))
split_number n m a b (inr (s, x)) (inr (t, y)) e =
    let (same, rests) =
      split_at slash (itoa (pos n)) (itoa (pos m)) s t (itoa-HasNo slash n (inl (omega arith)))
        (itoa-HasNo slash m (inl (omega arith)))
        (ap (String.◌++◌ (itoa (pos n))) (sym x) ∙ e ∙ ap (String.◌++◌ (itoa (pos m))) y) in
    (itoa-injective n m same, x ∙ ap (String.◌∷◌ slash) rests ∙ sym y)

-- The port that a natural number stands for.
number_of : ℕ → ℕ
number_of n = if n == 0 then 554 else n

default_port-pos : (n : ℕ) → default_port (pos n) ≡ pos (number_of n)
unfolding number_of
default_port-pos n = ground arith

abbrev behind_host : RtspSource → ℕ → String
behind_host a n = String.◌++◌ (itoa (pos (number_of n))) (slashed a.path)

-- What stands in front of the host.
abbrev scheme : Bool → String
scheme false = "rtsp://"
scheme true = "rtsp://$(_RTSP_USERNAME):$(_RTSP_PASSWORD)@"

-- The URL that a source with or without credentials gets.
abbrev pub url_of : Bool → RtspSource → String
url_of false = build_rtsp_url
url_of true = build_rtsp_url_with_credentials

url_parts :
    (c : Bool) (a : RtspSource) (n : ℕ)
    → a.port ≡ pos n
    → url_of c a ≡ String.◌++◌ (scheme c) (String.◌++◌ a.host (String.◌∷◌ colon (behind_host a n)))
unfolding build_rtsp_url build_rtsp_url_with_credentials
url_parts c a n e =
    let path = slashed a.path in
    shape c
    ∙ ap (λ (z : ℤ). concat (scheme c ∷ a.host ∷ ":" ∷ itoa z ∷ path ∷ []))
        (ap default_port e ∙ default_port-pos n)
    ∙ ap (λ t. String.◌++◌ (scheme c) (String.◌++◌ a.host t))
        (ap (λ t. String.◌++◌ ":" (String.◌++◌ (itoa (pos (number_of n))) t)) (append-nil path)
          ∙ append.cons colon "" (behind_host a n)
          ∙ ap (String.◌∷◌ colon) (append.nil (behind_host a n)))
  where
    shape :
        (c : Bool)
        → url_of c a
          ≡ concat (scheme c ∷ a.host ∷ ":" ∷ itoa (default_port a.port) ∷ slashed a.path ∷ [])
    shape false = refl
    shape true = refl

-- Of two sources whose hosts hold no colon and whose ports are not negative: if their URLs are the
-- same, with or without the references to credentials, they have the same host, the same port once 0
-- is replaced by 554, and the same path once a missing slash is put in front.
pub build_rtsp_url-injective :
    (c : Bool) (a b : RtspSource) (n m : ℕ)
    → HasNo colon a.host
    → HasNo colon b.host
    → a.port ≡ pos n
    → b.port ≡ pos m
    → url_of c a ≡ url_of c b
    → normalize_rtsp_components a ≡ normalize_rtsp_components b
unfolding normalize_rtsp_components
build_rtsp_url-injective c a b n m ha hb pa pb e =
    let cut =
      append_cancel_left (scheme c) _ _ (sym (url_parts c a n pa) ∙ e ∙ url_parts c b m pb) in
    let (hosts, rests) = split_at colon a.host b.host _ _ ha hb cut in
    let (ports, paths) =
      split_number (number_of n) (number_of m) (slashed a.path) (slashed b.path)
        (slashed-IsPath a.path) (slashed-IsPath b.path) rests in
    let same : default_port a.port ≡ default_port b.port =
      ap default_port pa
      ∙ default_port-pos n
      ∙ ap pos ports
      ∙ sym (default_port-pos m)
      ∙ ap default_port (sym pb) in
    λ i. (hosts i, same i, paths i)
