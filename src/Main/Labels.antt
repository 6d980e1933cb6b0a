-- ===== src/Main/Labels.antt =====
-- The labels for GPU nodes (`parseNodeSelectorLabels`, cmd/main.go) are read as they are written.
use Prim.Native.Char.{Char, code}
use Prim.Native.String
use Prim.Native.String.append
use text.Mathlib.TextEquality.{Char-path}
use text.Mathlib.TextLemmas.{nil≢cons}
use openfilter_pipelines_con.Base.{
  ◌≡◌, ◌≢◌, refl, sym, ap, ◌∙◌, inl, inr, false, some, List, [], ◌∷◌, String, str_eq, eq_iff, Dict,
  insert, All, ◌==◌, arith, Bool-cases,
}
use openfilter_pipelines_con.Go.Texts.{HasNo}
use openfilter_pipelines_con.Main.{
  trim_space, cut, split, add_pair, add_pairs, parse_node_selector_labels,
}

abbrev comma : Char
comma = ","

abbrev equals : Char
equals = "="

-- `key=value`
abbrev pub label_text : String × String → String
label_text (key, value) = String.◌++◌ key (String.◌∷◌ equals value)

-- The labels, with commas between them.
pub print_labels : List (String × String) → String
print_labels [] = ""
print_labels (label ∷ []) = label_text label
print_labels (label ∷ next ∷ labels) =
    String.◌++◌ (label_text label) (String.◌∷◌ comma (print_labels (next ∷ labels)))

-- A key that is there, no separator where it would be read as one, and no space at the ends.
pub record IsClean (label : String × String) : Type 0 where
  pub has_key : label.0 ≢ ""
  pub no_equals : HasNo equals label.0
  pub no_comma : HasNo comma (label_text label)
  pub no_space : trim_space (label_text label) ≡ label_text label

-- A map that is filled one by one.
abbrev pub insert_all : List (String × String) → Dict String → Dict String
insert_all [] result = result
insert_all ((key, value) ∷ labels) result = insert_all labels (insert key value result)

apart : (c d : Char) → c ≢ d → (code c == code d) ≡ false
apart c d h = elim (Bool-cases (code c == code d)) [
  | inl same ↦ absurd (h (Char-path c d (ground arith)))
  | inr other ↦ other
]

cut-append :
    (d : Char) (k v : String) → HasNo d k → cut d (String.◌++◌ k (String.◌∷◌ d v)) ≡ (k, some v)
unfolding cut
cut-append d String.[] v h = ap (cut d) (append.nil (String.◌∷◌ d v)) ∙ ground arith
cut-append d (String.◌∷◌ c k) v h =
    let ih = cut-append d k v h.1 in
    let step : cut d (String.◌∷◌ c (String.◌++◌ k (String.◌∷◌ d v))) ≡ (String.◌∷◌ c k, some v) =
      rw (cut, apart c d h.0, ih) refl in
    ap (cut d) (append.cons c k (String.◌∷◌ d v)) ∙ step

split-HasNo : (d : Char) (s : String) → HasNo d s → split d s ≡ s ∷ []
unfolding split
split-HasNo d String.[] h = refl
split-HasNo d (String.◌∷◌ c s) h = rw (apart c d h.0, split-HasNo d s h.1) refl

split-append :
    (d : Char) (s t : String) → HasNo d s → split d (String.◌++◌ s (String.◌∷◌ d t)) ≡ s ∷ split d t
unfolding split
split-append d String.[] t h = ap (split d) (append.nil (String.◌∷◌ d t)) ∙ ground arith
split-append d (String.◌∷◌ c s) t h =
    let step : split d (String.◌∷◌ c (String.◌++◌ s (String.◌∷◌ d t)))
        ≡ String.◌∷◌ c s ∷ split d t =
      rw (apart c d h.0, split-append d s t h.1) refl in
    ap (split d) (append.cons c s (String.◌∷◌ d t)) ∙ step

add_pair-clean :
    (label : String × String) (result : Dict String)
    → IsClean label
    → add_pair (cut equals (trim_space (label_text label))) result ≡ insert label.0 label.1 result
unfolding add_pair
add_pair-clean (key, value) result h =
    let named : str_eq key "" ≡ false = ground (arith, eq_iff key "", h.has_key) in
    rw (h.no_space, cut-append equals key value h.no_equals, named) refl

add_pairs-print :
    (label : String × String) (labels : List (String × String)) (result : Dict String)
    → All IsClean (label ∷ labels)
    → add_pairs (split comma (print_labels (label ∷ labels))) result
      ≡ insert_all (label ∷ labels) result
unfolding add_pairs print_labels
add_pairs-print label [] result h =
    rw (split-HasNo comma (label_text label) h.0.no_comma) (add_pair-clean label result h.0)
add_pairs-print label (next ∷ labels) result h =
    let rest = print_labels (next ∷ labels) in
    ap (λ parts. add_pairs parts result) (split-append comma (label_text label) rest h.0.no_comma)
    ∙ ap (add_pairs (split comma rest)) (add_pair-clean label result h.0)
    ∙ add_pairs-print next labels (insert label.0 label.1 result) h.1

joined_ne : (s t : String) (c : Char) → String.◌++◌ s (String.◌∷◌ c t) ≢ ""
joined_ne String.[] t c e = nil≢cons (sym e ∙ append.nil (String.◌∷◌ c t))
joined_ne (String.◌∷◌ d s) t c e = nil≢cons (sym e ∙ append.cons d s (String.◌∷◌ c t))

print_labels-ne :
    (label : String × String) (labels : List (String × String)) → print_labels (label ∷ labels) ≢ ""
unfolding print_labels
print_labels-ne label [] = joined_ne label.0 label.1 equals
print_labels-ne label (next ∷ labels) =
    joined_ne (label_text label) (print_labels (next ∷ labels)) comma

-- Labels that are written as `key=value` with commas between them are read as the map that holds them,
-- where a later one of the same key counts. No key is empty or holds `=`, none of them holds a
-- comma, and none begins or ends with a space.
pub parse_node_selector_labels-print :
    (labels : List (String × String))
    → All IsClean labels
    → parse_node_selector_labels (print_labels labels) ≡ insert_all labels []
unfolding parse_node_selector_labels print_labels
parse_node_selector_labels-print [] h = refl
parse_node_selector_labels-print (label ∷ labels) h =
    let text = print_labels (label ∷ labels) in
    let full : str_eq text "" ≡ false =
      ground (arith, eq_iff text "", print_labels-ne label labels) in
    rw (full) (add_pairs-print label labels [] h)
