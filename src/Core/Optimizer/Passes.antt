-- ===== src/Core/Optimizer/Passes.antt =====
-- crates/magna-core/src/optimizer.rs: the passes that run between planning and execution.
use magna.Base.{
  ℕ, Bool, true, false, ◌&&◌, List, [], ◌∷◌, ◌++◌, map, none, some, nat_eq, contains, Map, lookup,
  insert,
}
use magna.Core.Step.{
  StepId, Result, ok, panic, ◌>>=◌, ExecutableStep, StepFingerprint, fingerprint_eq,
}
use magna.Core.Petgraph.{Petgraph, sorted, cycle}
use magna.Core.Planner.{ExecutionPlan, weight, dependencies_of, remove_step}

-- `*remap.get(id).unwrap_or(id)`
unfoldable pub resolve : Map StepId StepId → StepId → StepId
resolve remap id = elim (lookup remap id) [ none ↦ id | some canonical ↦ canonical ]

-- `deps.iter().all(|dep| placed.contains(dep))`
unfoldable pub all_placed : List StepId → List StepId → Bool
all_placed placed [] = true
all_placed placed (dep ∷ deps) = contains placed dep && all_placed placed deps

module _ {A : Type 0} where
  -- The fingerprint of a step over the steps that stand for its dependencies.
  unfoldable pub remapped_fingerprint : Map StepId StepId → ExecutableStep A → StepFingerprint
  remapped_fingerprint remap step = record {
    type_id = step.fingerprint.type_id;
    dep_ids = map (resolve remap) step.dependencies;
    config_hash = step.fingerprint.config_hash;
  }

  -- The loop of `deduplicate`: the remap, and the steps to remove.
  unfoldable pub find_duplicates :
      Map StepId (ExecutableStep A)
      → Map StepFingerprint StepId
      → Map StepId StepId
      → List StepId
      → List StepId
      → Map StepId StepId × List StepId
  find_duplicates steps seen remap to_remove [] = (remap, to_remove)
  find_duplicates steps seen remap to_remove (id ∷ rest) = elim (lookup steps id) [
    | none ↦ find_duplicates steps seen remap to_remove rest
    | some step ↦ elim (lookup seen (remapped_fingerprint remap step)) [
      | none ↦
          find_duplicates steps (insert (remapped_fingerprint remap step) id seen) remap to_remove
            rest
      | some canonical ↦
          find_duplicates steps seen (insert id canonical remap) (to_remove ++ id ∷ []) rest
    ]
  ]

module _ (P : Petgraph) where
  open P use {DiGraph, add_edge}

  -- The edges into one step after the remap; a dependency that is not in the plan has none.
  unfoldable pub relink_step :
      Map StepId StepId → Map StepId ℕ → ℕ → List StepId → DiGraph → DiGraph
  relink_step remap node_map step_idx [] g = g
  relink_step remap node_map step_idx (dep ∷ deps) g = elim (lookup node_map (resolve remap dep)) [
    | none ↦ relink_step remap node_map step_idx deps g
    | some dep_idx ↦ relink_step remap node_map step_idx deps (add_edge dep_idx step_idx g)
  ]

module _ (P : Petgraph) {A : Type 0} where
  open P use {DiGraph, clear_edges, toposort}

  -- `node_map[&step_id]` panics on a missing key.
  unfoldable pub relink_steps :
      Map StepId StepId → Map StepId ℕ → Map StepId (ExecutableStep A) → DiGraph → Result DiGraph
  relink_steps remap node_map [] g = ok g
  relink_steps remap node_map ((id, step) ∷ rest) g = elim (lookup node_map id) [
    | none ↦ panic
    | some step_idx ↦
        relink_steps remap node_map rest (relink_step P remap node_map step_idx step.dependencies g)
  ]

  -- The hash map of steps is walked in the order in which its keys were inserted.
  unfoldable pub rebuild_edges_after_remap :
      Map StepId StepId → ExecutionPlan P A → Result (ExecutionPlan P A)
  rebuild_edges_after_remap remap plan =
      relink_steps remap plan.node_map plan.steps (clear_edges plan.graph) >>= λ graph.
      ok (record plan { graph = graph })

  unfoldable pub remove_steps : List StepId → ExecutionPlan P A → ExecutionPlan P A
  remove_steps [] plan = plan
  remove_steps (id ∷ ids) plan = remove_steps ids (remove_step P id plan)

  -- `if !remap.is_empty()`
  unfoldable pub relink_remapped :
      Map StepId StepId → ExecutionPlan P A → Result (ExecutionPlan P A)
  relink_remapped [] plan = ok plan
  relink_remapped (entry ∷ remap) plan = rebuild_edges_after_remap (entry ∷ remap) plan

  unfoldable pub deduplicate :
      ExecutionPlan P A → List StepId → Result (ExecutionPlan P A × Map StepId StepId)
  deduplicate plan topo_order =
      let (remap, to_remove) = find_duplicates plan.steps [] [] [] topo_order in
      relink_remapped remap (remove_steps to_remove plan) >>= λ plan'. ok (plan', remap)

  -- `expect` panics on a cycle.
  unfoldable pub topological_sort : ExecutionPlan P A → Result (List StepId)
  topological_sort plan = elim (toposort plan.graph) [
    | sorted order ↦ ok (map (weight P plan.graph) order)
    | cycle node ↦ panic
  ]

  -- The loop of `hoist_unary_steps`: what it adds to `hoisted` and to `deferred`. The set `placed`
  -- grows by each hoisted step.
  unfoldable pub split_unary :
      ExecutionPlan P A
      → List StepId
      → List StepId
      → List StepId
      → List StepId
      → List StepId × List StepId
  unfolding all_placed
  split_unary plan placed hoisted deferred [] = (hoisted, deferred)
  split_unary plan placed hoisted deferred (id ∷ rest) = elim (lookup plan.steps id) [
    | none ↦ split_unary plan placed hoisted deferred rest
    | some step ↦ elim (step.is_unary && all_placed placed (dependencies_of P plan id)) [
      | true ↦ split_unary plan (id ∷ placed) (hoisted ++ id ∷ []) deferred rest
      | false ↦ split_unary plan placed hoisted (deferred ++ id ∷ []) rest
    ]
  ]

  unfoldable pub hoist_unary_steps : ExecutionPlan P A → List StepId → List StepId
  hoist_unary_steps plan order =
      let (hoisted, deferred) = split_unary plan [] [] [] order in hoisted ++ deferred

module _ (P : Petgraph) (A : Type 0) where
  pub record OptimizedPlan : Type 0 where
    pub plan : ExecutionPlan P A
    pub execution_order : List StepId
    pub remap : Map StepId StepId

module _ (P : Petgraph) {A : Type 0} where
  unfoldable pub optimize : ExecutionPlan P A → Result (OptimizedPlan P A)
  optimize plan = do
    order ← topological_sort P plan
    deduplicated ← deduplicate P plan order
    execution_order ← topological_sort P deduplicated.0
    ok (record {
      plan = deduplicated.0;
      execution_order = hoist_unary_steps P deduplicated.0 execution_order;
      remap = deduplicated.1;
    })
