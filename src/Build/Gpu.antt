-- ===== src/Build/Gpu.antt =====
-- `containerResourcesRequireGPU` and `requiresGPU`
-- (internal/controller/pipelineinstance_controller_batch.go), and the node selector that they decide.
use openfilter_pipelines_con.Base.{
  ℤ, pos, ltb_ℤ, Bool, false, ◌||◌, ◌&&◌, not, Option, none, some, List, [], ◌∷◌, String, Dict,
  lookup, is_empty, if◌then◌else◌,
}
use openfilter_pipelines_con.Kube.{ResourceRequirements, Container}
use openfilter_pipelines_con.Reconciler.{Reconciler}

-- `q.Sign() > 0`, of a quantity that is there.
abbrev is_positive : Option ℤ → Bool
is_positive none = false
is_positive (some n) = ltb_ℤ (pos 0) n

unfoldable pub container_resources_require_gpu : ResourceRequirements → Bool
container_resources_require_gpu resources =
    is_positive (lookup "nvidia.com/gpu" resources.limits)
    || is_positive (lookup "nvidia.com/gpu" resources.requests)

unfoldable pub requires_gpu : List Container → Bool
requires_gpu [] = false
requires_gpu (c ∷ cs) = container_resources_require_gpu c.resources || requires_gpu cs

-- The configured labels if a container asks for a GPU, and none otherwise.
unfoldable pub node_selector : {W : Type 0} → Reconciler W → List Container → Dict String
node_selector r containers =
    if not (is_empty r.gpu_node_selector_labels) && requires_gpu containers
    then r.gpu_node_selector_labels
    else []
