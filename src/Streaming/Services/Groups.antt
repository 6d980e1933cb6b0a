-- ===== src/Streaming/Services/Groups.antt =====
-- The groups of `ensureFilterServices` (internal/controller/pipelineinstance_controller_streaming.go):
-- a filter's group holds its ports in the order of the pipeline.
use mathlib.Core.List.{append-nil, append_assoc}
use openfilter_pipelines_con.Base.{
  ◌≡◌, List, [], ◌∷◌, ◌++◌, String, str_eq, lookup, insert, lookup-insert, or_else, arith, eq_iff,
  if◌then◌else◌,
}
use openfilter_pipelines_con.Pipeline.{ServicePort}
use openfilter_pipelines_con.Streaming.Services.{Groups, group_ports}

-- The ports that name the filter, in their order.
abbrev pub ports_of : String → List ServicePort → List ServicePort
ports_of filter [] = []
ports_of filter (s ∷ ports) =
    let rest = ports_of filter ports in if str_eq s.name filter then s ∷ rest else rest

-- What the loop adds to a group.
group_ports-lookup :
    (filter : String) (ports : List ServicePort) (groups : Groups)
    → or_else (lookup filter (group_ports ports groups)) []
      ≡ or_else (lookup filter groups) [] ++ ports_of filter ports
unfolding group_ports
group_ports-lookup filter [] groups = ground (arith, append-nil (or_else (lookup filter groups) []))
group_ports-lookup filter (s ∷ ports) groups =
    let former = or_else (lookup s.name groups) [] in
    let next = insert s.name (former ++ (s ∷ [])) groups in
    ground (
      arith,
      group_ports-lookup filter ports next,
      lookup-insert s.name filter (former ++ (s ∷ [])) groups,
      eq_iff s.name filter,
      append_assoc former (s ∷ []) (ports_of filter ports),
    )

-- A filter's group has its ports, and no group is there for a filter without ports.
pub lookup-group_ports :
    (filter : String) (ports : List ServicePort)
    → or_else (lookup filter (group_ports ports [])) [] ≡ ports_of filter ports
unfolding lookup
lookup-group_ports filter ports = group_ports-lookup filter ports []
