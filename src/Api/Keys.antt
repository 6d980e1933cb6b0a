-- ===== src/Api/Keys.antt =====
-- Two instances share no queue key, and the work stream of one is the dead letter queue of none.
use Prim.Native.Char.{Char}
use Prim.Native.String
use Prim.Native.String.append
use text.Mathlib.TextLemmas.{append_cancel_left}
use openfilter_pipelines_con.Base.{◌≡◌, ◌≢◌, sym, ◌∙◌, ap, String, [], ◌∷◌}
use openfilter_pipelines_con.Go.{concat}
use openfilter_pipelines_con.Go.Texts.{HasNo, split_at}
use openfilter_pipelines_con.Api.{PipelineInstance, get_queue_stream, get_queue_dlq}

abbrev pub colon : Char
colon = ":"

-- No colon stands in the text, as in a namespace (a DNS label) and in a UID.
abbrev pub HasNoColon : String → Type 0
HasNoColon = HasNo colon

-- The key of an instance, with any suffix behind a colon.
abbrev key : String → String → String → String
key n u s = concat ("ns:" ∷ n ∷ ":pi:" ∷ u ∷ String.◌∷◌ colon s ∷ [])

key-injective :
    (n u m v s t : String)
    → HasNoColon n
    → HasNoColon m
    → HasNoColon u
    → HasNoColon v
    → key n u s ≡ key m v t
    → (n ≡ m) × (u ≡ v) × (String.◌++◌ s "" ≡ String.◌++◌ t "")
key-injective n u m v s t hn hm hu hv e =
    let tail = λ (x y : String). concat (":pi:" ∷ x ∷ String.◌∷◌ colon y ∷ []) in
    let e' : String.◌++◌ n (tail u s) ≡ String.◌++◌ m (tail v t) = append_cancel_left "ns:" _ _ e in
    let front = λ (x y : String). append.cons colon "pi:" (concat (x ∷ String.◌∷◌ colon y ∷ [])) in
    let (same_ns, rests) =
      split_at colon n m _ _ hn hm
        (sym (ap (String.◌++◌ n) (front u s)) ∙ e' ∙ ap (String.◌++◌ m) (front v t)) in
    let back = λ (y : String). append.cons colon y "" in
    let (same_uid, ends) = split_at colon u v _ _ hu hv (
      sym (ap (String.◌++◌ u) (back s))
      ∙ append_cancel_left "pi:" _ _ rests
      ∙ ap (String.◌++◌ v) (back t)) in
    (same_ns, same_uid, ends)

-- Instances with the same work stream have the same namespace and UID, and no work stream is the
-- dead letter queue of an instance. Namespaces and UIDs hold no colon.
pub queue_keys-disjoint :
    (a b : PipelineInstance)
    → HasNoColon a.namespace
    → HasNoColon b.namespace
    → HasNoColon a.uid
    → HasNoColon b.uid
    → (get_queue_stream a ≡ get_queue_stream b → (a.namespace ≡ b.namespace) × (a.uid ≡ b.uid))
      × (get_queue_stream a ≢ get_queue_dlq b)
unfolding get_queue_stream get_queue_dlq
queue_keys-disjoint a b na nb ua ub = (
  λ e. let (n, u, _) = key-injective _ _ _ _ "work" "work" na nb ua ub e in (n, u),
  λ e. let (_, _, s) = key-injective _ _ _ _ "work" "dlq" na nb ua ub e in cc s,
)
