-- ===== src/Queue/Client/Scope.antt =====
-- The key pattern of the user that `EnsureACLUser` makes (internal/queue/valkey.go) and the queue keys
-- of the instances (api/v1alpha1/pipelineinstance_types.go).
use Prim.Native.String
use Prim.Native.String.append
use text.Mathlib.TextLemmas.{append_cancel_left, append_assoc}
use openfilter_pipelines_con.Base.{◌≡◌, sym, ◌∙◌, ap, String, [], ◌∷◌, ◌↔◌}
use openfilter_pipelines_con.Go.{concat}
use openfilter_pipelines_con.Api.{PipelineInstance, get_queue_stream, get_queue_dlq}
use openfilter_pipelines_con.Go.Texts.{split_at}
use openfilter_pipelines_con.Api.Keys.{HasNoColon, colon}
use openfilter_pipelines_con.Queue.Client.{key_pattern}

-- What all keys of a namespace begin with.
abbrev pub scope : String → String
scope namespace = concat ("ns:" ∷ namespace ∷ ":" ∷ [])

-- A key that begins so.
abbrev pub Begins : String → String → Type 0
Begins start key = (rest : String) × (key ≡ String.◌++◌ start rest)

scope_assoc :
    (n rest : String)
    → String.◌++◌ (scope n) rest ≡ String.◌++◌ "ns:" (String.◌++◌ n (String.◌++◌ ":" rest))
scope_assoc n rest =
    append_assoc "ns:" (String.◌++◌ n ":") rest ∙ ap (String.◌++◌ "ns:") (append_assoc n ":" rest)

colon_first : (s : String) → String.◌++◌ ":" s ≡ String.◌∷◌ colon s
colon_first s = cc (append.cons colon "" s, append.nil s)

Begins-iff :
    (n m s : String)
    → HasNoColon n
    → HasNoColon m
    → Begins (scope n) (String.◌++◌ "ns:" (String.◌++◌ m (String.◌++◌ ":" s))) ↔ (m ≡ n)
Begins-iff n m s hn hm = (
  λ b.
      let ends = append_cancel_left "ns:" _ _ (b.1 ∙ scope_assoc n b.0) in
      let cut =
        sym (ap (String.◌++◌ m) (colon_first s)) ∙ ends ∙ ap (String.◌++◌ n) (colon_first b.0) in
      (split_at colon m n s b.0 hm hn cut).0,
  λ same. (
    s,
    ap (λ x. String.◌++◌ "ns:" (String.◌++◌ x (String.◌++◌ ":" s))) same ∙ sym (scope_assoc n s),
  ),
)

-- The pattern allows the keys that begin with the scope of the namespace, and the work stream and the
-- dead letter queue of an instance begin with it exactly if they are in that namespace. Namespaces
-- hold no colon.
pub key_pattern-scope :
    (namespace : String) (pi : PipelineInstance)
    → HasNoColon namespace
    → HasNoColon pi.namespace
    → (key_pattern namespace ≡ concat ("~" ∷ scope namespace ∷ "*" ∷ []))
      × (Begins (scope namespace) (get_queue_stream pi) ↔ (pi.namespace ≡ namespace))
      × (Begins (scope namespace) (get_queue_dlq pi) ↔ (pi.namespace ≡ namespace))
unfolding key_pattern get_queue_stream get_queue_dlq
key_pattern-scope namespace pi hn hp =
    let key = λ (s : String). append_assoc ":" "pi:" (concat (pi.uid ∷ s ∷ [])) in
    let iff =
      λ (s : String). Begins-iff namespace pi.namespace (concat ("pi:" ∷ pi.uid ∷ s ∷ [])) hn hp in
    (
      append_assoc "~" "ns:" (String.◌++◌ namespace ":*")
          ∙ ap (String.◌++◌ "~") (sym (scope_assoc namespace "*")),
      rw (key ":work") (iff ":work"),
      rw (key ":dlq") (iff ":dlq"),
    )
