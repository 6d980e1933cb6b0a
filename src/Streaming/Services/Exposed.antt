-- ===== src/Streaming/Services/Exposed.antt =====
-- The Services that `ensureFilterServices`
-- (internal/controller/pipelineinstance_controller_streaming.go) goes through are those of the ports
-- that the pipeline exposes.
use openfilter_pipelines_con.Base.{
  ℕ, zero, suc, ◌+◌, ◌≡◌, sym, ap, ◌∙◌, subst, inl, inr, Option, some, List, [], ◌∷◌, ◌++◌, String,
  lookup, or_else, arith, Option-cases, ◌⊎◌,
}
use openfilter_pipelines_con.Pipeline.{ServicePort}
use openfilter_pipelines_con.Streaming.Services.{Groups, group_ports}
use openfilter_pipelines_con.Streaming.Services.Groups.{ports_of, lookup-group_ports}
use openfilter_pipelines_con.Streaming.Services.Entries.{
  Entry, entry, nth, IsIn, port_entries, group_entries, IsIteration, IsExposed,
}

IsIn-left : {A : Type 0} (x : A) (xs ys : List A) → IsIn x xs → IsIn x (xs ++ ys)
IsIn-left x [] ys h = absurd h
IsIn-left x (z ∷ xs) ys (inl e) = inl e
IsIn-left x (z ∷ xs) ys (inr h) = inr (IsIn-left x xs ys h)

IsIn-right : {A : Type 0} (x : A) (xs ys : List A) → IsIn x ys → IsIn x (xs ++ ys)
IsIn-right x [] ys h = h
IsIn-right x (z ∷ xs) ys h = inr (IsIn-right x xs ys h)

IsIn-split : {A : Type 0} (x : A) (xs ys : List A) → IsIn x (xs ++ ys) → IsIn x xs ⊎ IsIn x ys
IsIn-split x [] ys h = inr h
IsIn-split x (z ∷ xs) ys (inl e) = inl (inl e)
IsIn-split x (z ∷ xs) ys (inr h) = elim (IsIn-split x xs ys h) [
  | inl l ↦ inl (inr l)
  | inr g ↦ inr g
]

-- The entry is one of the filter's, from the index on.
abbrev IsNumbered : String → ℕ → List ServicePort → Entry → Type 0
IsNumbered filter index ports e =
    (filter ≡ e.filter) × (k : ℕ) × (e.index ≡ index + k) × (nth k ports ≡ some e.port)

IsNumbered-port_entries :
    (filter : String) (index : ℕ) (ports : List ServicePort) (e : Entry)
    → IsIn e (port_entries filter index ports)
    → IsNumbered filter index ports e
unfolding port_entries
IsNumbered-port_entries filter index [] e h = absurd h
IsNumbered-port_entries filter index (p ∷ ports) e (inl same) = (
  ap (λ (x : Entry). x.filter) same,
  0,
  omega (arith, ap (λ (x : Entry). x.index) same),
  ap (λ (x : Entry). some x.port) same,
)
IsNumbered-port_entries filter index (p ∷ ports) e (inr h) =
    let (f, k, i, found) = IsNumbered-port_entries filter (suc index) ports e h in
    (f, suc k, omega arith, found)

port_entries-IsIn :
    (filter : String) (index k : ℕ) (ports : List ServicePort) (p : ServicePort)
    → nth k ports ≡ some p
    → IsIn (entry filter (index + k) p) (port_entries filter index ports)
unfolding port_entries
port_entries-IsIn filter index k [] p h = cc h
port_entries-IsIn filter index zero (s ∷ ports) p h =
    let same : s ≡ p = cc h in inl (rw (same) (ap (λ i. entry filter i p) (omega arith)))
port_entries-IsIn filter index (suc k) (s ∷ ports) p h =
    let later = port_entries-IsIn filter (suc index) k ports p h in
    inr (
      subst (λ i. IsIn (entry filter i p) (port_entries filter (suc index) ports)) (omega arith)
        later)

-- The visited group of the entry's filter has its port.
abbrev IsVisited : Groups → Entry → Type 0
IsVisited visited e =
    (ports : List ServicePort) × IsIn (e.filter, ports) visited × (nth e.index ports ≡ some e.port)

group_entries-IsVisited :
    (visited : Groups) (e : Entry) → IsIn e (group_entries visited) → IsVisited visited e
unfolding group_entries
group_entries-IsVisited [] e h = absurd h
group_entries-IsVisited ((filter, ports) ∷ groups) e h =
    elim (IsIn-split e (port_entries filter 0 ports) (group_entries groups) h) [
      | inl l ↦
          let (f, k, i, found) = IsNumbered-port_entries filter 0 ports e l in
          let at : k ≡ e.index = omega arith in
          (ports, inl (ap (λ s. (s, ports)) f), sym (ap (λ n. nth n ports) at) ∙ found)
      | inr g ↦
          let (some_ports, there, found) = group_entries-IsVisited groups e g in
          (some_ports, inr there, found)
    ]

IsVisited-group_entries :
    (visited : Groups) (filter : String) (ports : List ServicePort) (i : ℕ) (p : ServicePort)
    → IsIn (filter, ports) visited
    → nth i ports ≡ some p
    → IsIn (entry filter i p) (group_entries visited)
unfolding group_entries
IsVisited-group_entries [] filter ports i p h found = absurd h
IsVisited-group_entries ((g, others) ∷ groups) filter ports i p (inl same) found =
    let f : g ≡ filter = ap (λ (x : String × List ServicePort). x.0) same in
    let os : others ≡ ports = ap (λ (x : String × List ServicePort). x.1) same in
    IsIn-left (entry filter i p) (port_entries g 0 others) (group_entries groups) (
      rw (f, os)
        (subst (λ n. IsIn (entry filter n p) (port_entries filter 0 ports)) (omega arith)
          (port_entries-IsIn filter 0 i ports p found)))
IsVisited-group_entries ((g, others) ∷ groups) filter ports i p (inr h) found =
    IsIn-right (entry filter i p) (port_entries g 0 others) (group_entries groups)
      (IsVisited-group_entries groups filter ports i p h found)

module _ (services : List ServicePort) (visited : Groups)
    (all : IsIteration (group_ports services []) visited) where
  pub IsIn-IsExposed : (e : Entry) → IsIn e (group_entries visited) → IsExposed services e
  IsIn-IsExposed e h =
      let (ports, there, found) = group_entries-IsVisited visited e h in
      let group = (all e.filter ports).0 there in
      let same : ports ≡ ports_of e.filter services =
        sym (ap (λ (o : Option (List ServicePort)). or_else o []) group)
        ∙ lookup-group_ports e.filter services in
      sym (ap (nth e.index) same) ∙ found

  pub IsExposed-IsIn : (e : Entry) → IsExposed services e → IsIn e (group_entries visited)
  IsExposed-IsIn e h =
      let groups = group_ports services [] in
      let listed = lookup-group_ports e.filter services in
      elim (Option-cases (lookup e.filter groups)) [
        | inl gone ↦
            let empty : [] ≡ ports_of e.filter services =
              sym (ap (λ (o : Option (List ServicePort)). or_else o []) gone) ∙ listed in
            let found : nth e.index [] ≡ some e.port = ap (nth e.index) empty ∙ h in cc found
        | inr (ports, group) ↦
            let same : ports ≡ ports_of e.filter services =
              sym (ap (λ (o : Option (List ServicePort)). or_else o []) group) ∙ listed in
            IsVisited-group_entries visited e.filter ports e.index e.port
              ((all e.filter ports).1 group) (ap (nth e.index) same ∙ h)
      ]
