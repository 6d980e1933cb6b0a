-- ===== src/Streaming/Services/Entries.antt =====
-- The loops of `ensureFilterServices` (internal/controller/pipelineinstance_controller_streaming.go)
-- as one loop over the Services that they make.
use mathlib.Core.Path.{fun_ext}
use openfilter_pipelines_con.Base.{
  ℕ, zero, suc, ◌≡◌, refl, sym, ◌∙◌, ap, ◌⊎◌, inl, inr, ◌↔◌, Option, none, some, List, [], ◌∷◌,
  ◌++◌, String, lookup,
}
use openfilter_pipelines_con.Go.{Op, ok, ◌>>=◌, Result-cases, bind-ok, bind-err, bind_assoc}
use openfilter_pipelines_con.Api.{PipelineInstance}
use openfilter_pipelines_con.Pipeline.{ServicePort}
use openfilter_pipelines_con.Reconciler.{Reconciler}
use openfilter_pipelines_con.Streaming.Services.{
  Groups, ensure_service, ensure_ports, ensure_groups,
}
use openfilter_pipelines_con.Streaming.Services.Groups.{ports_of}

-- A Service to make: its filter, its index, its port.
pub record Entry : Type 0 where
  pub filter : String
  pub index : ℕ
  pub port : ServicePort

abbrev pub nth : ℕ → List ServicePort → Option ServicePort
nth n [] = none
nth zero (p ∷ ports) = some p
nth (suc n) (p ∷ ports) = nth n ports

abbrev pub IsIn : {A : Type 0} → A → List A → Type 0
IsIn x [] = ⊥
IsIn x (y ∷ ys) = (y ≡ x) ⊎ IsIn x ys

abbrev pub entry : String → ℕ → ServicePort → Entry
entry filter index port = record { filter = filter; index = index; port = port }

unfoldable pub port_entries : String → ℕ → List ServicePort → List Entry
port_entries filter index [] = []
port_entries filter index (p ∷ ports) = entry filter index p ∷ port_entries filter (suc index) ports

unfoldable pub group_entries : Groups → List Entry
unfolding port_entries
group_entries [] = []
group_entries ((filter, ports) ∷ groups) = port_entries filter 0 ports ++ group_entries groups

-- The iteration visits the entries of the map, and nothing else.
abbrev pub IsIteration : Groups → Groups → Type 0
IsIteration groups visited =
    (filter : String) (ports : List ServicePort)
    → IsIn (filter, ports) visited ↔ (lookup filter groups ≡ some ports)

-- The filter has the port at the index, in the order of the pipeline.
abbrev pub IsExposed : List ServicePort → Entry → Type 0
IsExposed services e = nth e.index (ports_of e.filter services) ≡ some e.port

module _ {W : Type 0} (r : Reconciler W) (pi : PipelineInstance) where
  unfoldable pub ensure_entries : List Entry → Op W (Unit {0})
  ensure_entries [] w = (ok tt, w)
  ensure_entries (e ∷ es) w =
      (ensure_service r pi e.filter e.index e.port >>= λ _. ensure_entries es) w

  bind_congr :
      (m f g : Op W (Unit {0})) (w : W)
      → ((u : W) → f u ≡ g u)
      → (m >>= λ _. f) w ≡ (m >>= λ _. g) w
  bind_congr m f g w h = elim (Result-cases (m w).0) [
    | inl (a, e) ↦ bind-ok m (λ _. f) w a e ∙ h (m w).1 ∙ sym (bind-ok m (λ _. g) w a e)
    | inr (e, n) ↦ bind-err m (λ _. f) w e n ∙ sym (bind-err m (λ _. g) w e n)
  ]

  ensure_ports-entries :
      (filter : String) (index : ℕ) (ports : List ServicePort) (w : W)
      → ensure_ports r pi filter index ports w ≡ ensure_entries (port_entries filter index ports) w
  unfolding ensure_ports port_entries ensure_entries
  ensure_ports-entries filter index [] w = refl
  ensure_ports-entries filter index (p ∷ ports) w =
      bind_congr (ensure_service r pi filter index p) _ _ w
        (ensure_ports-entries filter (suc index) ports)

  ensure_entries-append :
      (es fs : List Entry) (w : W)
      → ensure_entries (es ++ fs) w ≡ (ensure_entries es >>= λ _. ensure_entries fs) w
  unfolding ensure_entries
  ensure_entries-append [] fs w = refl
  ensure_entries-append (e ∷ es) fs w =
      let m = ensure_service r pi e.filter e.index e.port in
      bind_congr m _ _ w (ensure_entries-append es fs)
      ∙ sym (bind_assoc m (λ _. ensure_entries es) (λ _. ensure_entries fs) w)

  pub ensure_groups-entries :
      (groups : Groups) (w : W)
      → ensure_groups r pi groups w ≡ ensure_entries (group_entries groups) w
  unfolding ensure_groups group_entries ensure_entries
  ensure_groups-entries [] w = refl
  ensure_groups-entries ((filter, ports) ∷ groups) w =
      bind_congr (ensure_ports r pi filter 0 ports) _ _ w (ensure_groups-entries groups)
      ∙ ap (λ (m : Op W (Unit {0})). (m >>= λ _. ensure_entries (group_entries groups)) w)
          (fun_ext (ensure_ports-entries filter 0 ports))
      ∙ sym (ensure_entries-append (port_entries filter 0 ports) (group_entries groups) w)
