-- ===== src/Tracing/Endpoint.antt =====
-- The address of the exporter (`InitTracerProvider`, internal/tracing/tracing.go): a URL is cut down
-- to its host and port.
use Prim.Native.Char.{Char, code}
use Prim.Native.String
use Prim.Native.String.append
use text.Mathlib.TextEquality.{Char-path}
use text.Mathlib.TextLemmas.{append-nil, append_assoc, nil≢cons}
use openfilter_pipelines_con.Base.{
  ◌≡◌, ◌≢◌, refl, sym, ap, ◌∙◌, ◌⊎◌, inl, inr, Option, none, some, String, or_else, ◌==◌, arith,
  Bool-cases, Option-cases, if◌then◌else◌,
}
use openfilter_pipelines_con.Go.Texts.{HasNo, separated-ne, split_at}

-- What follows the prefix, if the text has it.
pub strip_prefix : String → String → Option String
strip_prefix String.[] s = some s
strip_prefix (String.◌∷◌ c p) String.[] = none
strip_prefix (String.◌∷◌ c p) (String.◌∷◌ d s) =
    let rest = strip_prefix p s in if code c == code d then rest else none

-- `strings.TrimPrefix`
pub trim_prefix : String → String → String
unfolding strip_prefix
trim_prefix p s = or_else (strip_prefix p s) s

-- `strings.TrimSuffix(s, "/")`
pub trim_slash : String → String
trim_slash String.[] = String.[]
trim_slash (String.◌∷◌ c String.[]) = if code c == b'/' then String.[] else String.◌∷◌ c String.[]
trim_slash (String.◌∷◌ c (String.◌∷◌ d s)) = String.◌∷◌ c (trim_slash (String.◌∷◌ d s))

unfoldable pub otlp_endpoint : String → String
unfolding trim_prefix trim_slash
otlp_endpoint endpoint = trim_slash (trim_prefix "https://" (trim_prefix "http://" endpoint))

otlp_endpoint_test : otlp_endpoint "https://collector:4317/" ≡ "collector:4317"
unfolding otlp_endpoint trim_prefix strip_prefix trim_slash
otlp_endpoint_test = refl

abbrev slash : Char
slash = "/"

strip_prefix-append : (p s : String) → strip_prefix p (String.◌++◌ p s) ≡ some s
unfolding strip_prefix
strip_prefix-append String.[] s = ap some (append.nil s)
strip_prefix-append (String.◌∷◌ c p) s =
    let step : strip_prefix (String.◌∷◌ c p) (String.◌∷◌ c (String.◌++◌ p s)) ≡ some s =
      ground (arith, strip_prefix-append p s) in
    ap (strip_prefix (String.◌∷◌ c p)) (append.cons c p s) ∙ step

append-strip_prefix : (p s t : String) → strip_prefix p s ≡ some t → s ≡ String.◌++◌ p t
unfolding strip_prefix
append-strip_prefix String.[] s t e = let same : s ≡ t = cc e in same ∙ sym (append.nil t)
append-strip_prefix (String.◌∷◌ c p) String.[] t e = cc e
append-strip_prefix (String.◌∷◌ c p) (String.◌∷◌ d s) t e = elim (Bool-cases (code c == code d)) [
  | inl same ↦
      let heads : c ≡ d = Char-path c d (ground arith) in
      let rest = append-strip_prefix p s t (rw (same) at e) in
      ap (λ x. String.◌∷◌ x s) (sym heads) ∙ ap (String.◌∷◌ c) rest ∙ sym (append.cons c p t)
  | inr apart ↦ let bad = rw (apart) at e in cc bad
]

two_slashes :
    (a u : String)
    → String.◌++◌ (String.◌++◌ a "//") u ≡ String.◌++◌ a (String.◌∷◌ slash (String.◌++◌ "/" u))
two_slashes a u = append_assoc a "//" u ∙ ap (String.◌++◌ a) (append.cons slash "/" u)

-- A text with one slash at most, at its end, has no scheme.
no_scheme :
    (a h t : String)
    → HasNo slash h
    → HasNo slash a
    → (t ≡ "") ⊎ (t ≡ "/")
    → strip_prefix (String.◌++◌ a "//") (String.◌++◌ h t) ≡ none
no_scheme a h t free plain_scheme ends =
    elim (Option-cases (strip_prefix (String.◌++◌ a "//") (String.◌++◌ h t))) [
      | inl nothing ↦ nothing
      | inr (u, e) ↦
          let cut = append-strip_prefix _ (String.◌++◌ h t) u e ∙ two_slashes a u in
          elim ends [
            | inl empty ↦ absurd (
                separated-ne slash a (String.◌++◌ "/" u) h free
                  (sym (append-nil h) ∙ ap (String.◌++◌ h) (sym empty) ∙ cut))
            | inr last ↦
                let (same, rests) =
                  split_at slash h a "" (String.◌++◌ "/" u) free plain_scheme
                    (ap (String.◌++◌ h) (sym last) ∙ cut) in
                absurd (nil≢cons (rests ∙ append.cons slash "" u))
          ]
    ]

trim_slash-HasNo : (h : String) → HasNo slash h → trim_slash h ≡ h
unfolding trim_slash
trim_slash-HasNo String.[] free = refl
trim_slash-HasNo (String.◌∷◌ c String.[]) free = elim (Bool-cases (code c == b'/')) [
  | inl e ↦ absurd (free.0 (Char-path c slash (ground arith)))
  | inr e ↦ rw (e) refl
]
trim_slash-HasNo (String.◌∷◌ c (String.◌∷◌ d s)) free =
    ap (String.◌∷◌ c) (trim_slash-HasNo (String.◌∷◌ d s) free.1)

trim_slash-cons :
    (c : Char) (s : String) → s ≢ "" → trim_slash (String.◌∷◌ c s) ≡ String.◌∷◌ c (trim_slash s)
unfolding trim_slash
trim_slash-cons c String.[] h = absurd (h refl)
trim_slash-cons c (String.◌∷◌ d s) h = refl

ends_ne : (h : String) → String.◌++◌ h "/" ≢ ""
ends_ne String.[] e = absurd (nil≢cons (sym (sym (append.nil "/") ∙ e)))
ends_ne (String.◌∷◌ c h) e = absurd (nil≢cons (sym (sym (append.cons c h "/") ∙ e)))

trim_slash-append : (h : String) → HasNo slash h → trim_slash (String.◌++◌ h "/") ≡ h
trim_slash-append String.[] free = unfold trim_slash in ap trim_slash (append.nil "/")
trim_slash-append (String.◌∷◌ c h) free =
    ap trim_slash (append.cons c h "/")
    ∙ trim_slash-cons c (String.◌++◌ h "/") (ends_ne h)
    ∙ ap (String.◌∷◌ c) (trim_slash-append h free.1)

http_free : HasNo slash "http:"
http_free = ((λ e. cc e), ((λ e. cc e), ((λ e. cc e), ((λ e. cc e), ((λ e. cc e), tt)))))

https_free : HasNo slash "https:"
https_free =
    ((λ e. cc e), ((λ e. cc e), ((λ e. cc e), ((λ e. cc e), ((λ e. cc e), ((λ e. cc e), tt))))))

trimmed : (h t : String) → HasNo slash h → (t ≡ "") ⊎ (t ≡ "/") → trim_slash (String.◌++◌ h t) ≡ h
trimmed h t free (inl empty) =
    ap (λ x. trim_slash (String.◌++◌ h x)) empty
    ∙ ap trim_slash (append-nil h)
    ∙ trim_slash-HasNo h free
trimmed h t free (inr last) = ap (λ x. trim_slash (String.◌++◌ h x)) last ∙ trim_slash-append h free

https_not_http : (text : String) → strip_prefix "http://" (String.◌++◌ "https://" text) ≡ none
unfolding strip_prefix
https_not_http text = ap (strip_prefix "http://") (
    append.cons "h" "ttps://" text
    ∙ ap (String.◌∷◌ "h") (
        append.cons "t" "tps://" text
        ∙ ap (String.◌∷◌ "t") (
            append.cons "t" "ps://" text
            ∙ ap (String.◌∷◌ "t")
                (append.cons "p" "s://" text ∙ ap (String.◌∷◌ "p") (append.cons "s" "://" text)))))

-- A bare address, one with a scheme in front of it and one with a slash behind it give the exporter the
-- same address: `http://` or `https://` or neither, and a slash or none, are dropped around a host and
-- port that hold no slash.
pub otlp_endpoint-bare :
    (scheme h t : String)
    → HasNo slash h
    → (scheme ≡ "") ⊎ ((scheme ≡ "http://") ⊎ (scheme ≡ "https://"))
    → (t ≡ "") ⊎ (t ≡ "/")
    → otlp_endpoint (String.◌++◌ scheme (String.◌++◌ h t)) ≡ h
unfolding otlp_endpoint trim_prefix
otlp_endpoint-bare scheme h t free starts ends =
    let text = String.◌++◌ h t in
    let no_http = no_scheme "http:" h t free http_free ends in
    let no_https = no_scheme "https:" h t free https_free ends in
    elim starts [
      | inl bare ↦
          ap (λ x. otlp_endpoint (String.◌++◌ x text)) bare
          ∙ ap otlp_endpoint (append.nil text)
          ∙ rw (no_http, no_https) (trimmed h t free ends)
      | inr (inl http) ↦
          ap (λ x. otlp_endpoint (String.◌++◌ x text)) http
          ∙ rw (strip_prefix-append "http://" text, no_https) (trimmed h t free ends)
      | inr (inr https) ↦
          ap (λ x. otlp_endpoint (String.◌++◌ x text)) https
          ∙ rw (https_not_http text, strip_prefix-append "https://" text) (trimmed h t free ends)
    ]
