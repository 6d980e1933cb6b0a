-- ===== src/Build/Labels/Whitelist.antt =====
-- Which labels of an instance reach its pods.
use openfilter_pipelines_con.Base.{
  ◌≡◌, refl, Bool, false, ◌||◌, ◌&&◌, Option, none, some, List, [], ◌∷◌, String, str_eq, eq_iff,
  Dict, lookup, lookup-insert, is_some, arith, if◌then◌else◌,
}
use openfilter_pipelines_con.Api.{PipelineInstance}
use openfilter_pipelines_con.Build.Labels.{
  propagated_labels, copy_label, copy_labels, merge_labels_from_cr,
}

abbrev pub is_listed : String → List String → Bool
is_listed key [] = false
is_listed key (k ∷ ks) = str_eq k key || is_listed key ks

lookup-copy_label :
    (key j : String) (o : Option String) (labels : Dict String)
    → lookup j (copy_label key o labels)
      ≡ (if str_eq key j && is_some o then o else lookup j labels)
unfolding copy_label
lookup-copy_label key j none labels = ground arith
lookup-copy_label key j (some v) labels = ground (arith, lookup-insert key j v labels)

lookup-copy_labels :
    (keys : List String) (cr labels : Dict String) (j : String)
    → lookup j (copy_labels keys cr labels)
      ≡ (if is_listed j keys && is_some (lookup j cr) then lookup j cr else lookup j labels)
unfolding copy_labels
lookup-copy_labels [] cr labels j = refl
lookup-copy_labels (key ∷ keys) cr labels j = ground (
  arith,
  eq_iff key j,
  lookup-copy_labels keys cr (copy_label key (lookup key cr) labels) j,
  lookup-copy_label key j (lookup key cr) labels,
)

-- A label is taken from the instance exactly if it is whitelisted and the instance has it; any other
-- label is that of the base.
pub lookup-merge_labels_from_cr :
    (base : Dict String) (pi : PipelineInstance) (j : String)
    → lookup j (merge_labels_from_cr base pi) ≡ (
        if is_listed j propagated_labels && is_some (lookup j pi.labels)
        then lookup j pi.labels
        else lookup j base)
unfolding merge_labels_from_cr
lookup-merge_labels_from_cr base pi j = lookup-copy_labels propagated_labels pi.labels base j
