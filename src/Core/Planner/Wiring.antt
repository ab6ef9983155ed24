-- ===== src/Core/Planner/Wiring.antt =====
-- A plan is wired when its graph says of each step what the step's own dependency list says.
use magna.Base.{
  ℕ, ◌≡◌, refl, sym, ap, ◌∙◌, ◌↔◌, ◌⊎◌, inl, inr, List, [], ◌∷◌, map, some, Memᴰ, mem_cast, mem_map,
  mem_unmap, mem_of_get, some_inj, Map, lookup, nat_eq, subst, get_elem?, lookup_of_mem,
  mem_of_lookup,
}
use magna.Core.Step.{StepId, ExecutableStep, ok}
use magna.Core.Petgraph.{Petgraph}
use magna.Core.Planner.{ExecutionPlan, dependencies_of, weight}
use magna.Core.Optimizer.Passes.{resolve, relink_step, relink_steps}
use magna.Core.Planner.Index.{IsIndexed, IsPlanned, DependsOn}
use magna.Core.Planner.Nodes.{index_of}
use magna.Core.Planner.Links.{
  Link, relink_step-nodes, relink_step-edges_sound, relink_step-keeps, relink_step-adds,
}

module _ (P : Petgraph) {A : Type 0} (remap : Map StepId StepId) (node_map : Map StepId ℕ) where
  open P use {DiGraph, node_weights, edges}

  -- `after` has the nodes of `before`, and an edge more for each link.
  pub record Relinked (before : DiGraph) (steps : Map StepId (ExecutableStep A)) (after : DiGraph)
      : Type 0 where
    pub nodes : node_weights after ≡ node_weights before
    pub sound :
        (a b : ℕ)
        → Memᴰ (a, b) (edges after)
        → Memᴰ (a, b) (edges before) ⊎ Link remap node_map steps a b
    pub keeps : (a b : ℕ) → Memᴰ (a, b) (edges before) → Memᴰ (a, b) (edges after)
    pub adds : (a b : ℕ) → Link remap node_map steps a b → Memᴰ (a, b) (edges after)

  Link-tail :
      (entry : StepId × ExecutableStep A) (rest : Map StepId (ExecutableStep A)) (a b : ℕ)
      → Link remap node_map rest a b
      → Link remap node_map (entry ∷ rest) a b
  Link-tail entry rest a b l = record {
    id = l.id;
    step = l.step;
    among = Memᴰ.tail l.among;
    at = l.at;
    from = l.from;
  }

  -- One more round of the loop.
  Relinked-cons :
      (id : StepId) (step : ExecutableStep A) (rest : Map StepId (ExecutableStep A)) (i : ℕ)
      (before after : DiGraph)
      → lookup node_map id ≡ some i
      → Relinked (relink_step P remap node_map i step.dependencies before) rest after
      → Relinked before ((id, step) ∷ rest) after
  Relinked-cons id step rest i before after at r = record {
    nodes = r.nodes ∙ relink_step-nodes P remap node_map i step.dependencies before;
    sound = λ a b m. elim (r.sound a b m) [
      | inl old ↦
          elim (relink_step-edges_sound P remap node_map i step.dependencies before a b old) [
            | inl older ↦ inl older
            | inr (p, l) ↦ inr (record {
              id = id;
              step = step;
              among = Memᴰ.head refl;
              at = at ∙ ap some (sym p);
              from = l;
            })
          ]
      | inr l ↦ inr (Link-tail (id, step) rest a b l)
    ];
    keeps =
        λ a b m. r.keeps a b (relink_step-keeps P remap node_map i step.dependencies before a b m);
    adds = λ a b l. added a b l l.among;
  }
    where
      added :
          (a b : ℕ) (l : Link remap node_map ((id, step) ∷ rest) a b)
          → Memᴰ (l.id, l.step) ((id, step) ∷ rest)
          → Memᴰ (a, b) (edges after)
      added a b l (Memᴰ.head p) =
          let same_id : l.id ≡ id = ap (λ q. q.0) p in
          let same_step : l.step ≡ step = ap (λ q. q.1) p in
          let here : i ≡ b = cc (at, l.at, ap (lookup node_map) same_id) in
          let listed : Memᴰ l.from.dep step.dependencies =
            subst (λ (s : ExecutableStep A). Memᴰ l.from.dep s.dependencies) same_step
              l.from.listed in
          subst (λ t. Memᴰ (a, t) (edges after)) here
            (r.keeps a i (
              relink_step-adds P remap node_map i step.dependencies before l.from.dep a listed
                l.from.found))
      added a b l (Memᴰ.tail n) =
          r.adds a b (record { id = l.id; step = l.step; among = n; at = l.at; from = l.from })

  -- The loop ends without a panic where each step has a node.
  pub relink_steps-Relinked :
      (steps : Map StepId (ExecutableStep A)) (before : DiGraph)
      → ((id : StepId) (step : ExecutableStep A)
          → Memᴰ (id, step) steps
          → (i : ℕ) × (lookup node_map id ≡ some i))
      → (after : DiGraph) × (relink_steps P remap node_map steps before ≡ ok after)
        × Relinked before steps after
  unfolding relink_steps
  relink_steps-Relinked [] before at = (
    before,
    refl,
    record {
      nodes = refl;
      sound = λ a b m. inl m;
      keeps = λ a b m. m;
      adds = λ a b l. elim l.among [ ];
    },
  )
  relink_steps-Relinked ((id, step) ∷ rest) before at =
      let (i, here) = at id step (Memᴰ.head refl) in
      let (after, e, r) =
        relink_steps-Relinked rest (relink_step P remap node_map i step.dependencies before)
          (λ j s m. at j s (Memᴰ.tail m)) in
      (after, rw (here, relink_steps) e, Relinked-cons id step rest i before after here r)

-- A dependency of `b` in the graph is what a dependency of the step resolves to, if that is planned.
pub record Needs (remap : Map StepId StepId) (deps : List StepId) (a : StepId) : Type 0 where
  pub dep : StepId
  pub listed : Memᴰ dep deps
  pub resolved : resolve remap dep ≡ a

abbrev pub IsWired : (P : Petgraph) {A : Type 0} → Map StepId StepId → ExecutionPlan P A → Type 0
IsWired P {A} remap plan =
    (id : StepId) (step : ExecutableStep A)
    → lookup plan.steps id ≡ some step
    → (a : StepId) → DependsOn P plan a id ↔ (Needs remap step.dependencies a × IsPlanned P plan a)

module _ (P : Petgraph) {A : Type 0} (remap : Map StepId StepId) (plan : ExecutionPlan P A)
    (ix : IsIndexed P plan) where
  open P use {node_weights, edges, incoming, mem_incoming}

  weight_lem :
      (i a : ℕ) → get_elem? (node_weights plan.graph) i ≡ some a → weight P plan.graph i ≡ a
  weight_lem i a h = rw (h, weight)

  -- A graph whose edges are the links makes the plan a wired one.
  pub IsWired-of_links :
      ((a b : ℕ) → Memᴰ (a, b) (edges plan.graph) ↔ Link remap plan.node_map plan.steps a b)
      → IsWired P remap plan
  unfolding dependencies_of
  IsWired-of_links links id step has a =
      let (i, at, weighs) = index_of P plan id ix (step, has) in
      rw (at, dependencies_of)
        (
          λ m.
              let (j, inc, e) = mem_unmap (weight P plan.graph) (incoming plan.graph i) m in
              from_link i j at e ((links j i).0 ((mem_incoming plan.graph j i).0 inc)),
          λ n. to_edge i at n,
        )
    where
      from_link :
          (i j : ℕ)
          → lookup plan.node_map id ≡ some i
          → a ≡ weight P plan.graph j
          → Link remap plan.node_map plan.steps j i
          → Needs remap step.dependencies a × IsPlanned P plan a
      from_link i j at e l =
          let same_id : l.id ≡ id =
            some_inj (sym ((ix.indexed l.id i).0 l.at) ∙ (ix.indexed id i).0 at) in
          let same_step : l.step ≡ step = some_inj (
            sym (lookup_of_mem plan.steps l.id l.step ix.keyed l.among)
            ∙ ap (lookup plan.steps) same_id
            ∙ has) in
          let stands : get_elem? (node_weights plan.graph) j ≡ some (resolve remap l.from.dep) =
            (ix.indexed (resolve remap l.from.dep) j).0 l.from.found in
          let named : a ≡ resolve remap l.from.dep =
            e ∙ weight_lem j (resolve remap l.from.dep) stands in
          (
            record {
              dep = l.from.dep;
              listed =
                  subst (λ (s : ExecutableStep A). Memᴰ l.from.dep s.dependencies) same_step
                    l.from.listed;
              resolved = sym named;
            },
            (ix.planned a).0 (mem_cast (sym named) (mem_of_get (node_weights plan.graph) j stands)),
          )

      to_edge :
          (i : ℕ)
          → lookup plan.node_map id ≡ some i
          → Needs remap step.dependencies a × IsPlanned P plan a
          → Memᴰ a (map (weight P plan.graph) (incoming plan.graph i))
      to_edge i at (n, planned) =
          let (j, at_j, stands) = index_of P plan a ix planned in
          let l : Link remap plan.node_map plan.steps j i = record {
            id = id;
            step = step;
            among = mem_of_lookup plan.steps id step has;
            at = at;
            from = record { dep = n.dep; listed = n.listed; found = rw n.resolved at_j };
          } in
          mem_cast (weight_lem j a stands) (
            mem_map (weight P plan.graph) (incoming plan.graph i)
              ((mem_incoming plan.graph j i).1 ((links j i).1 l)))
