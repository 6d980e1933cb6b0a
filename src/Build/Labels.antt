-- ===== src/Build/Labels.antt =====
-- `mergeLabelsFromCR` and `buildPodLabels` (internal/controller/pipelineinstance_controller_batch.go).
pub mod Whitelist
use openfilter_pipelines_con.Base.{Option, none, some, List, [], ◌∷◌, String, Dict, lookup, insert}
use openfilter_pipelines_con.Api.{PipelineInstance}

-- `propagatedLabels`
abbrev pub propagated_labels : List String
propagated_labels =
    "plainsight.ai/pipeline-instance-id" ∷ "plainsight.ai/organization-id"
    ∷ "plainsight.ai/project-id" ∷ []

-- `if val, ok := cr[key]; ok { labels[key] = val }`
pub copy_label : String → Option String → Dict String → Dict String
copy_label key none labels = labels
copy_label key (some value) labels = insert key value labels

-- The loop over the whitelisted keys.
pub copy_labels : List String → Dict String → Dict String → Dict String
unfolding copy_label
copy_labels [] cr labels = labels
copy_labels (key ∷ keys) cr labels = copy_labels keys cr (copy_label key (lookup key cr) labels)

unfoldable pub merge_labels_from_cr : Dict String → PipelineInstance → Dict String
unfolding copy_labels
merge_labels_from_cr base pi = copy_labels propagated_labels pi.labels base

unfoldable pub build_pod_labels : String → PipelineInstance → Dict String
unfolding merge_labels_from_cr
build_pod_labels instance_id pi =
    merge_labels_from_cr
      (("filter.plainsight.ai/instance", instance_id)
        ∷ ("filter.plainsight.ai/pipelineinstance", pi.name)
        ∷ [])
      pi
