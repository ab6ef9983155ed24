-- ===== src/Core/Planner/Nodes.antt =====
-- What adding and removing nodes does to an indexed plan.
use magna.Base.{
  ℕ, ◌≡◌, refl, sym, ◌∙◌, ◌↔◌, ◌≢◌, inl, inr, false, List, [], ◌∷◌, ◌++◌, map, none, some, Memᴰ,
  mem_cast, IsDistinct, IsDistinct-middle, lookup, remove, keys, lookup-insert, lookup-remove,
  nat_eq, ◌==◌, Bool-cases, eq_of_beq, beq_refl, beq_of_ne, ne_of_beq, append_assoc, append-nil,
  All, get_elem?, get_of_mem, remove-IsDistinct,
}
use magna.Core.Step.{StepId, ExecutableStep}
use magna.Core.Petgraph.{Petgraph}
use magna.Core.Planner.{ExecutionPlan, rebuild_node_map, remove_step, add_nodes}
use magna.Core.Planner.Index.{IsIndexed, IsPlanned, add_one, add_one-IsIndexed, index_nodes_lem}

abbrev pub ids : {A : Type 0} → List (ExecutableStep A) → List StepId
ids steps = map (λ s. s.id) steps

module _ (P : Petgraph) {A : Type 0} where
  open P use {
    node_weights, edges, add_node, add_node_nodes, add_node_edges, remove_node, remove_node_nodes,
  }

  -- `after` is `before` with the steps added.
  pub record Added (before : ExecutionPlan P A) (steps : List (ExecutableStep A))
      (after : ExecutionPlan P A) : Type 0 where
    pub indexed : IsIndexed P after
    pub nodes : node_weights after.graph ≡ node_weights before.graph ++ ids steps
    pub same_edges : edges after.graph ≡ edges before.graph
    pub same_size : after.batch_size ≡ before.batch_size
    pub kept :
        (id : StepId) (s : ExecutableStep A)
        → lookup before.steps id ≡ some s
        → lookup after.steps id ≡ some s
    pub found : All (λ s. lookup after.steps s.id ≡ some s) steps

  add_one-kept :
      (step : ExecutableStep A) (plan : ExecutionPlan P A)
      → IsIndexed P plan
      → ¬ Memᴰ step.id (node_weights plan.graph)
      → (id : StepId) (s : ExecutableStep A) → lookup plan.steps id ≡ some s
      → lookup (add_one P step plan).steps id ≡ some s
  add_one-kept step plan ix new id s h =
      let other : (step.id == id) ≡ false =
        beq_of_ne step.id id (λ p. new (mem_cast (sym p) ((ix.planned id).1 (s, h)))) in
      rw (lookup-insert, other) h

  pub add_nodes-Added :
      (plan : ExecutionPlan P A) (steps : List (ExecutableStep A))
      → IsIndexed P plan
      → IsDistinct (node_weights plan.graph ++ ids steps)
      → Added plan steps (add_nodes P steps plan)
  unfolding add_nodes
  add_nodes-Added plan [] ix d = record {
    indexed = ix;
    nodes = sym (append-nil _);
    same_edges = refl;
    same_size = refl;
    kept = λ id s h. h;
    found = tt;
  }
  add_nodes-Added plan (step ∷ rest) ix d =
      let new = IsDistinct-middle (node_weights plan.graph) step.id (ids rest) d in
      let shape = append_assoc (node_weights plan.graph) (step.id ∷ []) (ids rest) in
      let r =
        add_nodes-Added (add_one P step plan) rest (add_one-IsIndexed P step plan ix new)
          (rw (add_node_nodes, shape) d) in
      record {
        indexed = r.indexed;
        nodes = r.nodes ∙ rw add_node_nodes shape;
        same_edges = r.same_edges ∙ add_node_edges step.id plan.graph;
        same_size = r.same_size;
        kept = λ id s h. r.kept id s (add_one-kept step plan ix new id s h);
        found = (r.kept step.id step (rw (lookup-insert, beq_refl step.id)), r.found);
      }

  pub index_of :
      (plan : ExecutionPlan P A) (id : StepId)
      → IsIndexed P plan
      → IsPlanned P plan id
      → (i : ℕ) × (lookup plan.node_map id ≡ some i)
        × (get_elem? (node_weights plan.graph) i ≡ some id)
  index_of plan id ix has =
      let (i, e) = get_of_mem (node_weights plan.graph) ((ix.planned id).1 has) in
      (i, (ix.indexed id i).1 e, e)

  rebuild_node_map-IsIndexed :
      (plan : ExecutionPlan P A)
      → IsDistinct (node_weights plan.graph)
      → ((id : StepId) → Memᴰ id (node_weights plan.graph) ↔ IsPlanned P plan id)
      → IsDistinct (keys plan.steps)
      → ((id : StepId) (s : ExecutableStep A) → lookup plan.steps id ≡ some s → s.id ≡ id)
      → IsIndexed P (rebuild_node_map P plan)
  unfolding rebuild_node_map
  rebuild_node_map-IsIndexed plan distinct planned keyed named = record {
    distinct = distinct;
    indexed = index_nodes_lem (node_weights plan.graph) distinct;
    planned = planned;
    keyed = keyed;
    named = named;
  }

  -- A removed entry of the steps.
  remove-planned :
      (plan : ExecutionPlan P A) (id a : StepId)
      → IsIndexed P plan
      → (Memᴰ a (node_weights plan.graph) × (a ≢ id))
        ↔ ((s : ExecutableStep A) × (lookup (remove id plan.steps) a ≡ some s))
  remove-planned plan id a ix = elim (Bool-cases (id == a)) [
    | inl same ↦
        rw (lookup-remove, same) (λ m. absurd (m.1 (sym (eq_of_beq id a same))), λ h. cc h.1)
    | inr other ↦
        rw (lookup-remove, other)
          (λ m. (ix.planned a).0 m.0, λ h. ((ix.planned a).1 h, λ p. ne_of_beq id a other (sym p)))
  ]

  remove-named :
      (plan : ExecutionPlan P A) (id a : StepId) (s : ExecutableStep A)
      → IsIndexed P plan
      → lookup (remove id plan.steps) a ≡ some s
      → s.id ≡ a
  remove-named plan id a s ix h = elim (Bool-cases (id == a)) [
    | inl same ↦ let e : none ≡ some s = rw (lookup-remove, same) at h in cc
    | inr other ↦ ix.named a s (rw (lookup-remove, other) at h)
  ]

  -- Removing a planned step from an indexed plan leaves an indexed plan: the graph, the node map and
  -- the steps agree again. The steps lose that entry only, and the batch size stays.
  pub remove_step-IsIndexed :
      (plan : ExecutionPlan P A) (id : StepId)
      → IsIndexed P plan
      → IsPlanned P plan id
      → IsIndexed P (remove_step P id plan)
        × ((remove_step P id plan).steps ≡ remove id plan.steps)
        × ((remove_step P id plan).batch_size ≡ plan.batch_size)
  unfolding remove_step
  remove_step-IsIndexed plan id ix has =
      let (i, at, weighs) = index_of plan id ix has in
      let (distinct, nodes) = remove_node_nodes plan.graph i id ix.distinct weighs in
      rw (at, remove_step)
        (
          rebuild_node_map-IsIndexed
              (record plan {
                graph = remove_node i plan.graph;
                node_map = remove id plan.node_map;
                steps = remove id plan.steps;
              })
              distinct
              (λ a. (
                λ m. (remove-planned plan id a ix).0 ((nodes a).0 m),
                λ h. (nodes a).1 ((remove-planned plan id a ix).1 h),
              ))
              (remove-IsDistinct id plan.steps ix.keyed) (λ a s. remove-named plan id a s ix),
          unfold rebuild_node_map in refl,
          unfold rebuild_node_map in refl,
        )
