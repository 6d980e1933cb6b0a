-- ===== src/Streaming/Services.antt =====
-- `ensureFilterServices` and `deleteFilterServices`
-- (internal/controller/pipelineinstance_controller_streaming.go): a Service for each port that a
-- pipeline exposes. `order` is the order in which Go iterates over the map of the groups.
pub mod Names
pub mod Groups
pub mod Entries
pub mod Exposed
pub mod Served
pub mod Refinement
pub mod Kept
use openfilter_pipelines_con.Base.{
  ℕ, suc, ℤ, pos, Option, none, some, List, [], ◌∷◌, ◌++◌, String, str_eq, Dict, lookup, insert,
  or_else, if◌then◌else◌, is_empty,
}
use openfilter_pipelines_con.Go.{
  Op, Result, ok, err, wrapped, concat, is_not_found, wrapping, ◌>>=◌,
}
use openfilter_pipelines_con.Go.Strconv.{itoa}
use openfilter_pipelines_con.Api.{PipelineInstance}
use openfilter_pipelines_con.Pipeline.{ServicePort, Pipeline}
use openfilter_pipelines_con.Kube.{Service}
use openfilter_pipelines_con.Reconciler.{Reconciler}
use openfilter_pipelines_con.Streaming.Deployment.{stream_selector_labels}

abbrev pub Groups : Type 0
Groups = Dict (List ServicePort)

-- The ports of each filter, in their order in the pipeline.
unfoldable pub group_ports : List ServicePort → Groups → Groups
group_ports [] groups = groups
group_ports (s ∷ ports) groups =
    group_ports ports (insert s.name (or_else (lookup s.name groups) [] ++ (s ∷ [])) groups)

-- `<instance>-<filter>-<index>`
unfoldable pub service_name : PipelineInstance → String → ℕ → String
service_name pi filter index = concat (pi.name ∷ "-" ∷ filter ∷ "-" ∷ itoa (pos index) ∷ [])

unfoldable pub desired_service : PipelineInstance → String → ℕ → ServicePort → Service
desired_service pi filter index port = record {
  name = service_name pi filter index;
  namespace = pi.namespace;
  labels = ("app", "pipeline-stream") ∷ ("pipelineinstance", pi.name) ∷ ("filter", filter) ∷ [];
  spec = record {
    selector = stream_selector_labels pi;
    ports =
        record {
          name = filter;
          port = port.port;
          target_port = or_else port.target_port port.port;
          protocol = if str_eq port.protocol "" then "TCP" else port.protocol;
        }
        ∷ [];
    type = "ClusterIP";
  };
}

module _ {W : Type 0} (r : Reconciler W) where
  pub create_service : String → Result Service → Op W (Unit {0})
  create_service name (err e) w =
      (err (wrapped (concat ("failed to set controller reference on service " ∷ name ∷ [])) e), w)
  create_service name (ok s) w =
      wrapping (concat ("failed to create service " ∷ name ∷ [])) (r.kube.create_service s) w

  pub ensure_service : PipelineInstance → String → ℕ → ServicePort → Op W (Unit {0})
  unfolding create_service
  ensure_service pi filter index port w =
      let name = service_name pi filter index in
      let desired = desired_service pi filter index port in
      let got = r.kube.get_service name pi.namespace w in
      elim got.0 [
        | ok found ↦
            wrapping (concat ("failed to update service " ∷ name ∷ []))
              (r.kube.patch_service found
                (record found { labels = desired.labels; spec = desired.spec }))
              got.1
        | err e ↦
            if is_not_found e
            then create_service name (r.set_service_reference pi desired) got.1
            else (err (wrapped (concat ("failed to get service " ∷ name ∷ [])) e), got.1)
      ]

  -- The ports of one filter, from an index on.
  pub ensure_ports : PipelineInstance → String → ℕ → List ServicePort → Op W (Unit {0})
  unfolding ensure_service
  ensure_ports pi filter index [] w = (ok tt, w)
  ensure_ports pi filter index (port ∷ ports) w =
      (ensure_service pi filter index port >>= λ _. ensure_ports pi filter (suc index) ports) w

  pub ensure_groups : PipelineInstance → Groups → Op W (Unit {0})
  unfolding ensure_ports
  ensure_groups pi [] w = (ok tt, w)
  ensure_groups pi ((filter, ports) ∷ groups) w =
      (ensure_ports pi filter 0 ports >>= λ _. ensure_groups pi groups) w

  unfoldable pub ensure_filter_services :
      (Groups → Groups) → PipelineInstance → Pipeline → Op W (Unit {0})
  unfolding ensure_groups
  ensure_filter_services order pi p w =
      if is_empty p.services
      then (ok tt, w)
      else ensure_groups pi (order (group_ports p.services [])) w

  unfoldable pub delete_services : List Service → Op W (Unit {0})
  delete_services [] w = (ok tt, w)
  delete_services (s ∷ services) w =
      let gone = r.kube.delete_service s w in
      elim gone.0 [
        | ok _ ↦ delete_services services gone.1
        | err e ↦
            if is_not_found e
            then delete_services services gone.1
            else (err (wrapped (concat ("failed to delete service " ∷ s.name ∷ [])) e), gone.1)
      ]

  -- Those that carry the instance's label, also when the pipeline is gone.
  unfoldable pub delete_filter_services : PipelineInstance → Op W (Unit {0})
  unfolding delete_services
  delete_filter_services pi w =
      (wrapping "failed to list services"
            (r.kube.list_services pi.namespace "pipelineinstance" pi.name)
          >>= delete_services)
        w
