-- ===== src/Core/Planner.antt =====
-- crates/magna-core/src/planner.rs: the plan is the graph of the registered steps.
pub mod Index
pub mod Nodes
pub mod Links
pub mod Wiring
pub mod Orders
pub mod Build
pub mod Outcome
use magna.Base.{
  ℕ, ◌+◌, List, [], ◌∷◌, ◌++◌, map, Option, none, some, nat_eq, length, get_elem?, Map, lookup,
  insert, remove, keys,
}
use magna.Core.Step.{
  StepId, Result, ok, err, panic, plan_cycle, step_not_found, ◌>>=◌, ExecutableStep,
}
use magna.Core.Petgraph.{Petgraph, sorted, cycle}

module _ (P : Petgraph) (A : Type 0) where
  open P use {DiGraph, new, add_node, add_edge, remove_node, node_weights, incoming, toposort}

  -- The step ids are `u32`s; `graph` and `node_map` hold them.
  pub record ExecutionPlan : Type 0 where
    pub graph : DiGraph
    pub node_map : Map StepId ℕ
    pub steps : Map StepId (ExecutableStep A)
    pub batch_size : ℕ

  pub record Planner : Type 0 where
    pub registered : List (ExecutableStep A)
    pub batch_size : ℕ

-- `for idx in node_indices() { node_map.insert(graph[idx], idx) }`
unfoldable pub index_nodes : ℕ → List StepId → Map StepId ℕ → Map StepId ℕ
index_nodes i [] m = m
index_nodes i (w ∷ ws) m = index_nodes (i + 1) ws (insert w i m)

module _ (P : Petgraph) where
  open P use {DiGraph, add_edge, node_weights}

  -- `graph[index]`; no index outside the graph is read.
  abbrev pub weight : DiGraph → ℕ → StepId
  weight g i = elim (get_elem? (node_weights g) i) [ none ↦ 0 | some w ↦ w ]

  -- The edges into one step, or the first dependency that is not registered.
  unfoldable pub link_step : Map StepId ℕ → ℕ → List StepId → DiGraph → Result DiGraph
  link_step node_map step_idx [] g = ok g
  link_step node_map step_idx (dep ∷ deps) g = elim (lookup node_map dep) [
    | none ↦ err (step_not_found dep)
    | some dep_idx ↦ link_step node_map step_idx deps (add_edge dep_idx step_idx g)
  ]

module _ (P : Petgraph) {A : Type 0} where
  open P use {DiGraph, new, add_node, remove_node, node_weights, incoming, toposort}

  unfoldable pub get_step : ExecutionPlan P A → StepId → Option (ExecutableStep A)
  get_step plan id = lookup plan.steps id

  unfoldable pub step_count : ExecutionPlan P A → ℕ
  step_count plan = length plan.steps

  unfoldable pub step_ids : ExecutionPlan P A → List StepId
  step_ids plan = keys plan.steps

  unfoldable pub rebuild_node_map : ExecutionPlan P A → ExecutionPlan P A
  unfolding index_nodes
  rebuild_node_map plan = record plan { node_map = index_nodes 0 (node_weights plan.graph) [] }

  unfoldable pub remove_step : StepId → ExecutionPlan P A → ExecutionPlan P A
  remove_step id plan = elim (lookup plan.node_map id) [
    | none ↦ plan
    | some idx ↦ rebuild_node_map (record plan {
      graph = remove_node idx plan.graph;
      node_map = remove id plan.node_map;
      steps = remove id plan.steps;
    })
  ]

  unfoldable pub dependencies_of : ExecutionPlan P A → StepId → List StepId
  dependencies_of plan id = elim (lookup plan.node_map id) [
    | none ↦ []
    | some idx ↦ map (weight P plan.graph) (incoming plan.graph idx)
  ]

  unfoldable pub new_planner : ℕ → Planner P A
  new_planner batch_size = record { registered = []; batch_size = batch_size }

  unfoldable pub register : ExecutableStep A → Planner P A → Planner P A
  register step planner = record planner { registered = planner.registered ++ step ∷ [] }

  -- The first loop of `build`.
  unfoldable pub add_nodes : List (ExecutableStep A) → ExecutionPlan P A → ExecutionPlan P A
  add_nodes [] plan = plan
  add_nodes (step ∷ rest) plan = add_nodes rest (record plan {
    graph = add_node step.id plan.graph;
    node_map = insert step.id (length (node_weights plan.graph)) plan.node_map;
    steps = insert step.id step plan.steps;
  })

  -- The second loop of `build`; `node_map[&step_id]` panics on a missing key.
  unfoldable pub link_steps : Map StepId ℕ → List (ExecutableStep A) → DiGraph → Result DiGraph
  link_steps node_map [] g = ok g
  link_steps node_map (step ∷ rest) g = elim (lookup node_map step.id) [
    | none ↦ panic
    | some step_idx ↦ link_step P node_map step_idx step.dependencies g >>= link_steps node_map rest
  ]

  -- The last part of `build`: a cycle is reported by the id of one of its steps.
  unfoldable pub check_acyclic : ExecutionPlan P A → Result (ExecutionPlan P A)
  check_acyclic plan = elim (toposort plan.graph) [
    | sorted order ↦ ok plan
    | cycle node ↦ elim (get_elem? (node_weights plan.graph) node) [
      | none ↦ panic
      | some id ↦ err (plan_cycle (id ∷ []))
    ]
  ]

  abbrev pub empty_plan : ℕ → ExecutionPlan P A
  empty_plan batch_size = record { graph = new; node_map = []; steps = []; batch_size = batch_size }

  unfoldable pub build : Planner P A → Result (ExecutionPlan P A)
  build planner = do
    let plan = add_nodes planner.registered (empty_plan planner.batch_size)
    graph ← link_steps plan.node_map planner.registered plan.graph
    check_acyclic (record plan { graph = graph })
