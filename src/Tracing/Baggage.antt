-- ===== src/Tracing/Baggage.antt =====
-- Which members of the baggage reach a span (`stampBaggageOnSpan`,
-- internal/controller/pipelineinstance_controller.go).
use openfilter_pipelines_con.Base.{
  ◌≡◌, ap, sym, ◌∙◌, ◌↔◌, inl, inr, true, List, [], ◌∷◌, String, Bool-cases,
}
use openfilter_pipelines_con.Streaming.Services.Entries.{IsIn}
use openfilter_pipelines_con.Tracing.{
  KeyValue, Value, text, is_allowed, baggage_span_allowlist, stamp_baggage,
}

text-injective : {a b : String} → text a ≡ text b → a ≡ b
text-injective h = cc h

-- A span gets a member of the baggage as an attribute exactly if the member is there and its key is on
-- the allowlist; no other attribute is set.
pub stamp_baggage_iff :
    (members : List (String × String)) (key : String) (value : Value)
    → IsIn (key, value) (stamp_baggage members) ↔ (
        (s : String) × (value ≡ text s)
        × IsIn (key, s) members
        × (is_allowed baggage_span_allowlist key ≡ true))
unfolding stamp_baggage
stamp_baggage_iff [] key value = (λ h. absurd h, λ h. h.2)
stamp_baggage_iff ((k, v) ∷ members) key value =
    let (there, back) = stamp_baggage_iff members key value in
    elim (Bool-cases (is_allowed baggage_span_allowlist k)) [
      | inl on ↦ rw (on) (
        λ h. elim h [
          | inl same ↦
              let keys : k ≡ key = ap (λ (x : KeyValue). x.0) same in
              (
                v,
                sym (ap (λ (x : KeyValue). x.1) same),
                inl (ap (λ x. (x, v)) keys),
                ap (is_allowed baggage_span_allowlist) (sym keys) ∙ on,
              )
          | inr later ↦ let (s, e, i, a) = there later in (s, e, inr i, a)
        ],
        λ (s, e, i, a). elim i [
          | inl same ↦
              inl (λ j. ((same j).0, (ap text (ap (λ (x : String × String). x.1) same) ∙ sym e) j))
          | inr later ↦ inr (back (s, e, later, a))
        ],
      )
      | inr off ↦ rw (off) (
        λ h. let (s, e, i, a) = there h in (s, e, inr i, a),
        λ (s, e, i, a). elim i [
          | inl same ↦
              let bad : is_allowed baggage_span_allowlist k ≡ true =
                ap (λ (x : String × String). is_allowed baggage_span_allowlist x.0) same ∙ a in
              cc (off, bad)
          | inr later ↦ back (s, e, later, a)
        ],
      )
    ]
