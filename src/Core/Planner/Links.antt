-- ===== src/Core/Planner/Links.antt =====
-- The edges that the loops over the dependencies add, and what the graph then says of a step.
use magna.Base.{
  ℕ, ◌≡◌, refl, sym, ap, ◌∙◌, ◌⊎◌, inl, inr, List, [], ◌∷◌, some, Memᴰ, mem_left, mem_right,
  mem_split, Map, lookup, nat_eq, Option-cases,
}
use magna.Core.Step.{StepId, ExecutableStep}
use magna.Core.Petgraph.{Petgraph}
use magna.Core.Optimizer.Passes.{resolve, relink_step}

-- An edge into the node `b` of one step from the node that stands for one of its dependencies.
pub record StepLink (remap : Map StepId StepId) (node_map : Map StepId ℕ) (deps : List StepId)
    (a : ℕ) : Type 0 where
  pub dep : StepId
  pub listed : Memᴰ dep deps
  pub found : lookup node_map (resolve remap dep) ≡ some a

-- The same with the step, which stands among `steps`.
pub record Link {A : Type 0} (remap : Map StepId StepId) (node_map : Map StepId ℕ)
    (steps : Map StepId (ExecutableStep A)) (a b : ℕ) : Type 0 where
  pub id : StepId
  pub step : ExecutableStep A
  pub among : Memᴰ (id, step) steps
  pub at : lookup node_map id ≡ some b
  pub from : StepLink remap node_map step.dependencies a

StepLink-tail :
    {remap : Map StepId StepId} {node_map : Map StepId ℕ} {deps : List StepId} {a : ℕ}
    (dep : StepId)
    → StepLink remap node_map deps a
    → StepLink remap node_map (dep ∷ deps) a
StepLink-tail dep l = record { dep = l.dep; listed = Memᴰ.tail l.listed; found = l.found }

module _ (P : Petgraph) (remap : Map StepId StepId) (node_map : Map StepId ℕ) where
  open P use {DiGraph, node_weights, edges, add_edge, add_edge_nodes, add_edge_edges}

  pub relink_step-nodes :
      (idx : ℕ) (deps : List StepId) (g : DiGraph)
      → node_weights (relink_step P remap node_map idx deps g) ≡ node_weights g
  unfolding relink_step
  relink_step-nodes idx [] g = refl
  relink_step-nodes idx (dep ∷ deps) g = elim (Option-cases (lookup node_map (resolve remap dep))) [
    | inl no' ↦ rw (no', relink_step) (relink_step-nodes idx deps g)
    | inr (i, at) ↦
        rw (at, relink_step)
          (relink_step-nodes idx deps (add_edge i idx g) ∙ add_edge_nodes i idx g)
  ]

  pub relink_step-edges_sound :
      (idx : ℕ) (deps : List StepId) (g : DiGraph) (a b : ℕ)
      → Memᴰ (a, b) (edges (relink_step P remap node_map idx deps g))
      → Memᴰ (a, b) (edges g) ⊎ ((b ≡ idx) × StepLink remap node_map deps a)
  unfolding relink_step
  relink_step-edges_sound idx [] g a b m = inl m
  relink_step-edges_sound idx (dep ∷ deps) g a b m =
      elim (Option-cases (lookup node_map (resolve remap dep))) [
        | inl no' ↦ elim (relink_step-edges_sound idx deps g a b (rw (no', relink_step) at m)) [
          | inl old ↦ inl old
          | inr (p, l) ↦ inr (p, StepLink-tail dep l)
        ]
        | inr (i, at) ↦
            elim (relink_step-edges_sound idx deps (add_edge i idx g) a b
              (rw (at, relink_step) at m)) [
                | inl old ↦ elim (mem_split (edges g) ((i, idx) ∷ []) (rw add_edge_edges at old)) [
                  | inl older ↦ inl older
                  | inr (Memᴰ.head p) ↦ inr (
                    ap (λ q. q.1) p,
                    record {
                      dep = dep;
                      listed = Memᴰ.head refl;
                      found = at ∙ ap some (sym (ap (λ q. q.0) p));
                    },
                  )
                  | inr (Memᴰ.tail n) ↦ elim n [ ]
                ]
                | inr (p, l) ↦ inr (p, StepLink-tail dep l)
              ]
      ]

  pub relink_step-keeps :
      (idx : ℕ) (deps : List StepId) (g : DiGraph) (a b : ℕ)
      → Memᴰ (a, b) (edges g)
      → Memᴰ (a, b) (edges (relink_step P remap node_map idx deps g))
  unfolding relink_step
  relink_step-keeps idx [] g a b m = m
  relink_step-keeps idx (dep ∷ deps) g a b m =
      elim (Option-cases (lookup node_map (resolve remap dep))) [
        | inl no' ↦ rw (no', relink_step) (relink_step-keeps idx deps g a b m)
        | inr (i, at) ↦
            rw (at, relink_step)
              (relink_step-keeps idx deps (add_edge i idx g) a b
                (rw add_edge_edges (mem_left (edges g) ((i, idx) ∷ []) m)))
      ]

  pub relink_step-adds :
      (idx : ℕ) (deps : List StepId) (g : DiGraph) (dep a : ℕ)
      → Memᴰ dep deps
      → lookup node_map (resolve remap dep) ≡ some a
      → Memᴰ (a, idx) (edges (relink_step P remap node_map idx deps g))
  unfolding relink_step
  relink_step-adds idx [] g dep a m at = elim m [ ]
  relink_step-adds idx (d ∷ deps) g dep a (Memᴰ.head p) at =
      let at' : lookup node_map (resolve remap d) ≡ some a = rw p at at in
      rw (at', relink_step)
        (relink_step-keeps idx deps (add_edge a idx g) a idx
          (rw add_edge_edges (mem_right (edges g) ((a, idx) ∷ []) (Memᴰ.head refl))))
  relink_step-adds idx (d ∷ deps) g dep a (Memᴰ.tail m) at =
      elim (Option-cases (lookup node_map (resolve remap d))) [
        | inl no' ↦ rw (no', relink_step) (relink_step-adds idx deps g dep a m at)
        | inr (i, at') ↦
            rw (at', relink_step) (relink_step-adds idx deps (add_edge i idx g) dep a m at)
      ]
