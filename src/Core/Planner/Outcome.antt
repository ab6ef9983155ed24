-- ===== src/Core/Planner/Outcome.antt =====
-- What `Planner::build` accepts, what plan it makes of it, and what it reports otherwise.
use magna.Base.{
  get_of_lt, ℕ, ◌≡◌, refl, sym, ap, ◌∙◌, ◌↔◌, ◌⊎◌, inl, inr, List, [], ◌∷◌, map, some, Memᴰ,
  mem_cast, mem_map, mem_unmap, IsDistinct, lookup, nat_eq, All, All-get, All-of, All-mono,
  some_inj, subst, mem_of_lookup, lookup_of_mem,
}
use magna.Core.Step.{StepId, ExecutableStep, ok, err, plan_cycle, step_not_found}
use magna.Core.Order.{IsTopological, IsTopological-weaken}
use magna.Core.Petgraph.{Petgraph, sorted, cycle, Sorted}
use magna.Core.Planner.{ExecutionPlan, Planner, check_acyclic, build, weight}
use magna.Core.Optimizer.Passes.{resolve, relink_steps}
use magna.Core.Planner.Index.{IsPlanned, DependsOn}
use magna.Core.Planner.Nodes.{ids, index_of}
use magna.Core.Planner.Wiring.{Relinked, relink_steps-Relinked}
use magna.Core.Planner.Orders.{IsPlan, IsPlan-IsWired, IsIdOrder, IsOrderOf-ids, ids_of_order}
use magna.Core.Planner.Build.{
  tagged, HasNode, AllKnown, link_steps_cases, prepared, prepared-Added, IsRegistered,
  registered-HasNode, HasNode-registered, tagged_of_planned,
}

resolve-nil : (id : StepId) → resolve [] id ≡ id
unfolding resolve lookup
resolve-nil id = refl

-- The registered step `b` names `a` as a dependency.
pub record StepNeeds {A : Type 0} (steps : List (ExecutableStep A)) (a b : StepId) : Type 0 where
  pub step : ExecutableStep A
  pub registered : Memᴰ step steps
  pub named : step.id ≡ b
  pub listed : Memᴰ a step.dependencies

-- An order of the registered steps in which each stands behind its dependencies.
pub record IsSchedule {A : Type 0} (steps : List (ExecutableStep A)) (order : List StepId)
    : Type 0 where
  pub complete : (id : StepId) → Memᴰ id order ↔ Memᴰ id (ids steps)
  pub distinct : IsDistinct order
  pub forward : IsTopological (StepNeeds steps) [] order

module _ (P : Petgraph) {A : Type 0} where
  open P use {
    DiGraph, node_weights, edges, toposort, new, new_nodes, new_edges, toposort_sorted,
    toposort_cycle, toposort_complete,
  }

  -- The plan is that of the registered steps.
  pub record Built (planner : Planner P A) (plan : ExecutionPlan P A) : Type 0 where
    pub valid : IsPlan P [] plan
    pub planned : (id : StepId) → IsPlanned P plan id ↔ IsRegistered P planner id
    pub found : All (λ s. lookup plan.steps s.id ≡ some s) planner.registered
    pub known : All (λ s. All (IsRegistered P planner) s.dependencies) planner.registered
    pub same_size : plan.batch_size ≡ planner.batch_size
    pub order : List ℕ
    pub ordered : toposort plan.graph ≡ sorted order

  nodes_of :
      (planner : Planner P A)
      → IsDistinct (ids planner.registered)
      → (id : StepId) (step : ExecutableStep A) → Memᴰ (id, step) (tagged planner.registered)
      → HasNode (prepared P planner).node_map id
  nodes_of planner d id step m =
      let added = prepared-Added P planner d in
      let has =
        lookup_of_mem (prepared P planner).steps id step added.indexed.keyed
          ((tagged_of_planned P planner d id step).0 m) in
      let (i, at, _) = index_of P (prepared P planner) id added.indexed (step, has) in (i, at)

  -- The plan before the check for cycles, with the graph that the second loop makes.
  module _ (planner : Planner P A) (d : IsDistinct (ids planner.registered)) (graph : DiGraph)
      (linked : relink_steps P []
          (prepared P planner).node_map
          (tagged planner.registered)
          (prepared P planner).graph
        ≡ ok graph) where
    abbrev linked_plan : ExecutionPlan P A
    linked_plan = record (prepared P planner) { graph = graph }

    graph-Relinked :
        Relinked P []
          (prepared P planner).node_map
          (prepared P planner).graph
          (tagged planner.registered)
          graph
    graph-Relinked =
        let (after, e, r) =
          relink_steps-Relinked P [] (prepared P planner).node_map (tagged planner.registered)
            (prepared P planner).graph (nodes_of planner d) in
        let ok_inj : ok after ≡ ok graph = sym e ∙ linked in
        subst
          (Relinked P [] (prepared P planner).node_map (prepared P planner).graph
            (tagged planner.registered))
          (cc) r

    linked-IsPlan : IsPlan P [] linked_plan
    linked-IsPlan =
        let r = graph-Relinked in
        let added = prepared-Added P planner d in
        let ix = added.indexed in
        record {
          indexed = record {
            distinct = rw r.nodes ix.distinct;
            indexed = rw r.nodes ix.indexed;
            planned = rw r.nodes ix.planned;
            keyed = ix.keyed;
            named = ix.named;
          };
          links = λ a b. (
            λ m. elim (r.sound a b m) [
              | inl old ↦ elim (rw (added.same_edges, new_edges) at old) [ ]
              | inr l ↦ record {
                id = l.id;
                step = l.step;
                among = (tagged_of_planned P planner d l.id l.step).0 l.among;
                at = l.at;
                from = l.from;
              }
            ],
            λ l. r.adds a b (record {
              id = l.id;
              step = l.step;
              among = (tagged_of_planned P planner d l.id l.step).1 l.among;
              at = l.at;
              from = l.from;
            }),
          );
        }

    present : (id : StepId) → IsRegistered P planner id → IsPlanned P linked_plan id
    present id m =
        let (s, n, e) = mem_unmap (λ (s : ExecutableStep A). s.id) planner.registered m in
        (s, rw e (All-get _ planner.registered (prepared-Added P planner d).found n))

    IsRegistered-of : (id : StepId) → IsPlanned P linked_plan id → IsRegistered P planner id
    IsRegistered-of id h =
        let added = prepared-Added P planner d in
        rw (added.nodes, new_nodes) at ((added.indexed.planned id).1 h)

    -- The graph's dependencies are those that the registered steps name.
    depends_iff :
        AllKnown P (prepared P planner).node_map planner.registered
        → (a b : StepId) → IsRegistered P planner b
        → DependsOn P linked_plan a b ↔ StepNeeds planner.registered a b
    depends_iff known a b m =
        let (s, has) = present b m in
        let wired = IsPlan-IsWired P [] linked_plan linked-IsPlan b s has a in
        let (s', n, e) =
          mem_unmap (λ (s : ExecutableStep A). (s.id, s)) planner.registered
            ((tagged_of_planned P planner d b s).1
              (mem_of_lookup (prepared P planner).steps b s has)) in
        let same : s ≡ s' = ap (λ q. q.1) e in
        (
          λ dep.
              let needs = (wired.0 dep).0 in
              record {
                step = s';
                registered = n;
                named = sym (ap (λ q. q.0) e);
                listed =
                    subst (λ (t : ExecutableStep A). Memᴰ a t.dependencies) same
                      (mem_cast (sym (resolve-nil needs.dep) ∙ needs.resolved) needs.listed);
              },
          λ needs.
              let own : needs.step ≡ s = some_inj (
                sym
                  (All-get _ planner.registered (prepared-Added P planner d).found needs.registered)
                ∙ ap (lookup (prepared P planner).steps) needs.named
                ∙ has) in
              wired.1 (
                record {
                  dep = a;
                  listed = subst (λ (t : ExecutableStep A). Memᴰ a t.dependencies) own needs.listed;
                  resolved = resolve-nil a;
                },
                present a (
                    HasNode-registered P planner d a (
                      All-get _ needs.step.dependencies
                        (All-get _ planner.registered known needs.registered) needs.listed)),
              ),
        )

    schedule-IsIdOrder :
        AllKnown P (prepared P planner).node_map planner.registered
        → (order : List StepId) → IsSchedule planner.registered order
        → IsIdOrder P linked_plan order
    schedule-IsIdOrder known order sch = record {
      complete = λ id. (
        λ m. present id ((sch.complete id).0 m),
        λ h. (sch.complete id).1 (IsRegistered-of id h),
      );
      distinct = sch.distinct;
      forward =
          IsTopological-weaken (StepNeeds planner.registered) (DependsOn P linked_plan) [] order
            (λ a b m dep. (depends_iff known a b ((sch.complete b).0 m)).0 dep) sch.forward;
    }

    IsIdOrder-IsSchedule :
        AllKnown P (prepared P planner).node_map planner.registered
        → (order : List StepId) → IsIdOrder P linked_plan order
        → IsSchedule planner.registered order
    IsIdOrder-IsSchedule known order o = record {
      complete = λ id.
          (λ m. IsRegistered-of id ((o.complete id).0 m), λ h. (o.complete id).1 (present id h));
      distinct = o.distinct;
      forward =
          IsTopological-weaken (DependsOn P linked_plan) (StepNeeds planner.registered) [] order
            (λ a b m dep. (depends_iff known a b (IsRegistered-of b ((o.complete b).0 m))).1 dep)
            o.forward;
    }

  module _ (planner : Planner P A) where
    -- The three ways in which `build` ends.
    abbrev pub Accepted : Type 0
    Accepted =
        (plan : ExecutionPlan P A) × (build P planner ≡ ok plan)
        × Built planner plan
        × ((order : List StepId) × IsSchedule planner.registered order)

    abbrev pub MissesStep : Type 0
    MissesStep =
        (id : StepId) × (build P planner ≡ err (step_not_found id))
        × ¬ IsRegistered P planner id
        × ((s : ExecutableStep A) × Memᴰ s planner.registered × Memᴰ id s.dependencies)

    abbrev pub HasCycle : Type 0
    HasCycle =
        (id : StepId) × (build P planner ≡ err (plan_cycle (id ∷ [])))
        × All (λ s. All (IsRegistered P planner) s.dependencies) planner.registered
        × ¬ ((order : List StepId) × IsSchedule planner.registered order)

  known_ids :
      (planner : Planner P A)
      → IsDistinct (ids planner.registered)
      → AllKnown P (prepared P planner).node_map planner.registered
      → All (λ s. All (IsRegistered P planner) s.dependencies) planner.registered
  known_ids planner d known =
      All-mono _ _ planner.registered
        (λ s h. All-mono _ _ s.dependencies (λ id. HasNode-registered P planner d id) h) known

  -- The check for cycles of a linked plan.
  checked :
      (planner : Planner P A) (d : IsDistinct (ids planner.registered)) (graph : DiGraph)
      (linked : relink_steps P []
          (prepared P planner).node_map
          (tagged planner.registered)
          (prepared P planner).graph
        ≡ ok graph)
      → AllKnown P (prepared P planner).node_map planner.registered
      → build P planner ≡ check_acyclic P (linked_plan planner d graph linked)
      → (t : Sorted) → toposort graph ≡ t
      → Accepted planner ⊎ HasCycle planner
  unfolding check_acyclic
  checked planner d graph linked known e (sorted order) topo =
      let valid = linked-IsPlan planner d graph linked in
      let plan = linked_plan planner d graph linked in
      let ordered = ids_of_order P plan valid.indexed order (toposort_sorted graph order topo) in
      inl (
        plan,
        e ∙ rw (topo, check_acyclic),
        record {
          valid = valid;
          planned =
              λ id. (IsRegistered-of planner d graph linked id, present planner d graph linked id);
          found = (prepared-Added P planner d).found;
          known = known_ids planner d known;
          same_size = (prepared-Added P planner d).same_size;
          order = order;
          ordered = topo;
        },
        (map (weight P graph) order, IsIdOrder-IsSchedule planner d graph linked known _ ordered),
      )
  checked planner d graph linked known e (cycle node) topo =
      let valid = linked-IsPlan planner d graph linked in
      let plan = linked_plan planner d graph linked in
      let (id, named) = get_of_lt (node_weights graph) node (toposort_cycle graph node topo) in
      inr (
        id,
        e ∙ rw (topo, named, check_acyclic),
        known_ids planner d known,
        λ (order, sch).
            let o = schedule-IsIdOrder planner d graph linked known order sch in
            let (other, found) =
              toposort_complete graph _ (IsOrderOf-ids P [] plan valid order o) in
            let clash : sorted other ≡ cycle node = sym found ∙ topo in cc clash,
      )

  -- For steps with distinct ids, `build` never panics and ends in one of three ways. It returns the
  -- plan of these steps, whose graph holds exactly their dependencies, and then the steps have an
  -- order with each behind its dependencies; or it names an id that a step depends on and that is
  -- not registered; or all dependencies are registered, no such order exists, and it reports a cycle.
  pub build_cases :
      (planner : Planner P A)
      → IsDistinct (ids planner.registered)
      → Accepted planner ⊎ MissesStep planner ⊎ HasCycle planner
  unfolding build
  build_cases planner d =
      elim (link_steps_cases P (prepared P planner).node_map planner.registered
        (prepared P planner).graph
        (All-of _ planner.registered (λ s m.
          registered-HasNode P planner d s.id
            (mem_map (λ (t : ExecutableStep A). t.id) planner.registered m)))) [
              | inl (known, same) ↦
                  let (graph, linked, _) =
                    relink_steps-Relinked P [] (prepared P planner).node_map
                      (tagged planner.registered) (prepared P planner).graph (nodes_of planner d) in
                  elim (checked planner d graph linked known (rw (same ∙ linked, build))
                    (toposort graph) refl) [ inl a ↦ inl a | inr c ↦ inr (inr c) ]
              | inr (id, (s, n, m), missing, e) ↦ inr (
                  inl (
                    id,
                    rw (e, build),
                    λ there.
                        let (i, at) = registered-HasNode P planner d id there in cc (missing, at),
                    (s, n, m),
                  ))
            ]
