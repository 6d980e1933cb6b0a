-- ===== src/Streaming/Services/Names.antt =====
-- The names of the Services (`ensureFilterServices`,
-- internal/controller/pipelineinstance_controller_streaming.go).
use Prim.Native.Char.{Char}
use Prim.Native.String
use Prim.Native.String.append
use text.Mathlib.TextLemmas.{append_cancel_left, append-nil}
use openfilter_pipelines_con.Base.{ℕ, ◌≡◌, ap, sym, ◌∙◌, String, pos, arith, inl}
use openfilter_pipelines_con.Go.Texts.{split_at_last}
use openfilter_pipelines_con.Go.Strconv.{itoa}
use openfilter_pipelines_con.Go.Strconv.Digits.{itoa-HasNo, itoa-injective}
use openfilter_pipelines_con.Api.{PipelineInstance}
use openfilter_pipelines_con.Streaming.Services.{service_name}

abbrev dash : Char
dash = "-"

abbrev tail : String → String → String
tail f s = String.◌++◌ f (String.◌∷◌ dash s)

service_name-tail :
    (pi : PipelineInstance) (f : String) (i : ℕ)
    → service_name pi f i ≡ String.◌++◌ pi.name (String.◌++◌ "-" (tail f (itoa (pos i))))
unfolding service_name
service_name-tail pi f i =
    let s = itoa (pos i) in
    ap (λ t. String.◌++◌ pi.name (String.◌++◌ "-" (String.◌++◌ f t)))
      (ap (String.◌++◌ "-") (append-nil s)
        ∙ append.cons dash "" s
        ∙ ap (String.◌∷◌ dash) (append.nil s))

-- The Services of one instance have different names for different filters or different indices.
pub service_name-injective :
    (pi : PipelineInstance) (f g : String) (i j : ℕ)
    → service_name pi f i ≡ service_name pi g j
    → (f ≡ g) × (i ≡ j)
service_name-injective pi f g i j e =
    let cut : tail f (itoa (pos i)) ≡ tail g (itoa (pos j)) = append_cancel_left "-" _ _ (
      append_cancel_left pi.name _ _
        (sym (service_name-tail pi f i) ∙ e ∙ service_name-tail pi g j)) in
    let (same, indices) =
      split_at_last dash f g (itoa (pos i)) (itoa (pos j)) (itoa-HasNo dash i (inl (omega arith)))
        (itoa-HasNo dash j (inl (omega arith))) cut in
    (same, itoa-injective i j indices)
