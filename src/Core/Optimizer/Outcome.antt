-- ===== src/Core/Optimizer/Outcome.antt =====
-- What `optimize` makes of a plan that the planner built.
use magna.Base.{
  ℕ, ◌≡◌, sym, ap, ◌∙◌, List, [], map, some_inj, Memᴰ, mem_unmap, Map, lookup, nat_eq, All-get,
  All-of, subst,
}
use magna.Core.Step.{StepId, ExecutableStep, ok}
use magna.Core.Petgraph.{Petgraph, sorted}
use magna.Core.Planner.{ExecutionPlan, Planner, weight}
use magna.Core.Planner.Index.{IsPlanned}
use magna.Core.Planner.Orders.{IsPlan, IsIdOrder, ids_of_order, IsOrderOf-ids, index}
use magna.Core.Planner.Outcome.{Built}
use magna.Core.Optimizer.Passes.{
  resolve, topological_sort, hoist_unary_steps, OptimizedPlan, optimize,
}
use magna.Core.Optimizer.Hoist.{hoist-IsTopological, hoist-members}
use magna.Core.Optimizer.Dedup.{IsClosed, Merged, deduplicate-Merged}

module _ (P : Petgraph) {A : Type 0} where
  open P use {toposort, toposort_sorted, toposort_complete}

  pub Built-IsClosed :
      (planner : Planner P A) (plan : ExecutionPlan P A) → Built P planner plan → IsClosed P [] plan
  unfolding resolve lookup
  Built-IsClosed planner plan b id step at dep m =
      let (s, n, e) =
        mem_unmap (λ (s : ExecutableStep A). s.id) planner.registered
          ((b.planned id).0 (step, at)) in
      let own : s ≡ step =
        some_inj
          (sym (All-get _ planner.registered b.found n) ∙ ap (lookup plan.steps) (sym e) ∙ at) in
      (b.planned dep).1 (
        All-get _ s.dependencies (All-get _ planner.registered b.known n)
          (subst (λ (t : ExecutableStep A). Memᴰ dep t.dependencies) (sym own) m))

  topological_sort_lem :
      (remap : Map StepId StepId) (plan : ExecutionPlan P A) (order : List ℕ)
      → IsPlan P remap plan
      → toposort plan.graph ≡ sorted order
      → (topological_sort P plan ≡ ok (map (weight P plan.graph) order))
        × IsIdOrder P plan (map (weight P plan.graph) order)
  unfolding topological_sort
  topological_sort_lem remap plan order h e = (
    rw (e, topological_sort),
    ids_of_order P plan h.indexed order (toposort_sorted plan.graph order e),
  )

  hoist-IsIdOrder :
      (plan : ExecutionPlan P A) (order : List StepId)
      → IsIdOrder P plan order
      → IsIdOrder P plan (hoist_unary_steps P plan order)
  hoist-IsIdOrder plan order o =
      let planned = All-of (IsPlanned P plan) order (λ id m. (o.complete id).0 m) in
      let (distinct, same) = hoist-members P plan order planned o.distinct in
      record {
        complete =
            λ id. (λ m. (o.complete id).0 ((same id).0 m), λ h. (same id).1 ((o.complete id).1 h));
        distinct = distinct;
        forward = (hoist-IsTopological P plan order planned o.forward).0;
      }

  -- The optimized plan merges twins of the plan, and its execution order is one of its own orders.
  pub record IsOptimized (plan : ExecutionPlan P A) (out : OptimizedPlan P A) : Type 0 where
    pub merged : Merged P plan out.remap out.plan
    pub ordered : IsIdOrder P out.plan out.execution_order

  -- For a plan that `build` made, `optimize` does not panic. Its plan keeps the steps that are not
  -- remapped, each remapped step has the fingerprint of the kept step that stands for it, no two
  -- kept steps share one, and the execution order has each kept step once, behind all that it
  -- depends on.
  pub optimize-IsOptimized :
      (planner : Planner P A) (plan : ExecutionPlan P A)
      → Built P planner plan
      → (out : OptimizedPlan P A) × (optimize P plan ≡ ok out) × IsOptimized plan out
  unfolding optimize
  optimize-IsOptimized planner plan b =
      let (first, o) = topological_sort_lem [] plan b.order b.valid b.ordered in
      let (after, remap, e, m) =
        deduplicate-Merged P plan (map (weight P plan.graph) b.order) b.valid
          (Built-IsClosed planner plan b) o in
      let (order, sorts) =
        toposort_complete after.graph (map (index after) m.order)
          (IsOrderOf-ids P remap after m.valid m.order m.ordered) in
      let (second, o') = topological_sort_lem remap after order m.valid sorts in
      (
        record {
          plan = after;
          execution_order = hoist_unary_steps P after (map (weight P after.graph) order);
          remap = remap;
        },
        rw (first, e, second, optimize),
        record {
          merged = m;
          ordered = hoist-IsIdOrder after (map (weight P after.graph) order) o';
        },
      )
