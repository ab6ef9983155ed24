-- ===== src/Core/Planner/Build.antt =====
-- The two loops of `Planner::build` over the registered steps.
use magna.Base.{
  ℕ, ◌≡◌, refl, sym, ap, ap₂, ◌∙◌, ◌↔◌, ◌⊎◌, inl, inr, List, [], ◌∷◌, map, none, some, Memᴰ,
  mem_map, mem_unmap, mem_of_get, IsDistinct, Map, lookup, nat_eq, All, All-get, some_inj, subst,
  Option-cases, lookup_of_mem, mem_of_lookup,
}
use magna.Core.Step.{StepId, ExecutableStep, ok, err, step_not_found}
use magna.Core.Petgraph.{Petgraph}
use magna.Core.Planner.{ExecutionPlan, Planner, link_step, link_steps, add_nodes, empty_plan}
use magna.Core.Optimizer.Passes.{resolve, relink_step, relink_steps}
use magna.Core.Planner.Index.{empty_plan-IsIndexed}
use magna.Core.Planner.Nodes.{ids, Added, add_nodes-Added, index_of}

abbrev pub tagged : {A : Type 0} → List (ExecutableStep A) → Map StepId (ExecutableStep A)
tagged steps = map (λ s. (s.id, s)) steps

abbrev pub HasNode : Map StepId ℕ → StepId → Type 0
HasNode node_map id = (i : ℕ) × (lookup node_map id ≡ some i)

module _ (P : Petgraph) where
  open P use {DiGraph, add_edge}

  -- With every dependency registered, the loop adds the edges that the optimizer's loop adds
  -- under an empty remap.
  link_step-eq :
      (node_map : Map StepId ℕ) (i : ℕ) (deps : List StepId) (g : DiGraph)
      → All (HasNode node_map) deps
      → link_step P node_map i deps g ≡ ok (relink_step P [] node_map i deps g)
  unfolding link_step relink_step resolve lookup
  link_step-eq node_map i [] g h = refl
  link_step-eq node_map i (dep ∷ deps) g ((j, at), h) =
      rw (at, link_step, relink_step) (link_step-eq node_map i deps (add_edge j i g) h)

  -- Otherwise it reports the first dependency that is not.
  link_step-err :
      (node_map : Map StepId ℕ) (i : ℕ) (deps : List StepId) (g : DiGraph)
      → All (HasNode node_map) deps
        ⊎ ((d : StepId) × Memᴰ d deps
            × (lookup node_map d ≡ none)
            × (link_step P node_map i deps g ≡ err (step_not_found d)))
  unfolding link_step
  link_step-err node_map i [] g = inl tt
  link_step-err node_map i (dep ∷ deps) g = elim (Option-cases (lookup node_map dep)) [
    | inl no' ↦ inr (dep, Memᴰ.head refl, no', rw (no', link_step))
    | inr (j, at) ↦ elim (link_step-err node_map i deps (add_edge j i g)) [
      | inl h ↦ inl ((j, at), h)
      | inr (d, m, no', e) ↦ inr (d, Memᴰ.tail m, no', rw (at, link_step) e)
    ]
  ]

module _ (P : Petgraph) {A : Type 0} where
  open P use {DiGraph, node_weights, edges, toposort, new, new_nodes, new_edges}

  abbrev pub AllKnown : Map StepId ℕ → List (ExecutableStep A) → Type 0
  AllKnown node_map steps = All (λ s. All (HasNode node_map) s.dependencies) steps

  -- The second loop of `build`: the edges of every step, or a dependency that is not registered.
  pub link_steps_cases :
      (node_map : Map StepId ℕ) (steps : List (ExecutableStep A)) (g : DiGraph)
      → All (λ s. HasNode node_map s.id) steps
      → AllKnown node_map steps
          × (link_steps P node_map steps g ≡ relink_steps P [] node_map (tagged steps) g)
        ⊎ ((d : StepId) × ((s : ExecutableStep A) × Memᴰ s steps × Memᴰ d s.dependencies)
            × (lookup node_map d ≡ none)
            × (link_steps P node_map steps g ≡ err (step_not_found d)))
  unfolding link_steps relink_steps
  link_steps_cases node_map [] g at = inl (tt, refl)
  link_steps_cases node_map (step ∷ rest) g ((i, here), at) =
      elim (link_step-err P node_map i step.dependencies g) [
        | inr (d, m, no', e) ↦ inr (d, (step, Memᴰ.head refl, m), no', rw (here, link_steps) (rw e))
        | inl known ↦
            let e = link_step-eq P node_map i step.dependencies g known in
            elim (link_steps_cases node_map rest (relink_step P [] node_map i step.dependencies g)
              at) [
                | inl (h, same) ↦ inl ((known, h), rw (here, link_steps, relink_steps) (rw e same))
                | inr (d, (s, n, m), no', e') ↦
                    inr (d, (s, Memᴰ.tail n, m), no', rw (here, link_steps) (rw e e'))
              ]
      ]

  abbrev pub prepared : Planner P A → ExecutionPlan P A
  prepared planner = add_nodes P planner.registered (empty_plan P planner.batch_size)

  pub prepared-Added :
      (planner : Planner P A)
      → IsDistinct (ids planner.registered)
      → Added P (empty_plan P planner.batch_size) planner.registered (prepared planner)
  prepared-Added planner d =
      add_nodes-Added P (empty_plan P planner.batch_size) planner.registered
        (empty_plan-IsIndexed P planner.batch_size) (rw new_nodes d)

  abbrev pub IsRegistered : Planner P A → StepId → Type 0
  IsRegistered planner id = Memᴰ id (ids planner.registered)

  pub registered-HasNode :
      (planner : Planner P A)
      → IsDistinct (ids planner.registered)
      → (id : StepId) → IsRegistered planner id
      → HasNode (prepared planner).node_map id
  registered-HasNode planner d id m =
      let added = prepared-Added planner d in
      let stands : Memᴰ id (node_weights (prepared planner).graph) =
        rw (added.nodes, new_nodes) m in
      let (i, at, e) =
        index_of P (prepared planner) id added.indexed ((added.indexed.planned id).0 stands) in
      (i, at)

  pub HasNode-registered :
      (planner : Planner P A)
      → IsDistinct (ids planner.registered)
      → (id : StepId) → HasNode (prepared planner).node_map id
      → IsRegistered planner id
  HasNode-registered planner d id (i, at) =
      let added = prepared-Added planner d in
      let stands =
        mem_of_get (node_weights (prepared planner).graph) i ((added.indexed.indexed id i).0 at) in
      rw (added.nodes, new_nodes) at stands

  -- The tagged steps are the entries of the plan.
  pub tagged_of_planned :
      (planner : Planner P A)
      → IsDistinct (ids planner.registered)
      → (id : StepId) (step : ExecutableStep A)
      → Memᴰ (id, step) (tagged planner.registered) ↔ Memᴰ (id, step) (prepared planner).steps
  tagged_of_planned planner d id step =
      let added = prepared-Added planner d in
      (
        λ m.
            let (s, n, e) = mem_unmap (λ (s : ExecutableStep A). (s.id, s)) planner.registered m in
            subst (λ entry. Memᴰ entry (prepared planner).steps) (sym e)
              (mem_of_lookup (prepared planner).steps s.id s
                (All-get _ planner.registered added.found n)),
        λ m.
            let has = lookup_of_mem (prepared planner).steps id step added.indexed.keyed m in
            let there : Memᴰ id (ids planner.registered) =
              rw (added.nodes, new_nodes) at ((added.indexed.planned id).1 (step, has)) in
            let (s, n, e) = mem_unmap (λ (s : ExecutableStep A). s.id) planner.registered there in
            let same : s ≡ step = some_inj (
              sym (All-get _ planner.registered added.found n)
              ∙ ap (lookup (prepared planner).steps) (sym e)
              ∙ has) in
            subst (λ entry. Memᴰ entry (tagged planner.registered))
              (ap₂ (λ a b. (a, b)) (sym e) same)
              (mem_map (λ (s : ExecutableStep A). (s.id, s)) planner.registered n),
      )
