-- ===== src/Core/Optimizer/Removal.antt =====
-- What removing the duplicates and linking the rest anew makes of a plan.
use magna.Base.{
  ◌≡◌, refl, sym, ◌∙◌, ◌↔◌, inl, inr, true, List, [], ◌∷◌, some, arith, Memᴰ, IsDistinct, Map,
  lookup, remove, lookup-remove, nat_eq, ◌==◌, Bool-cases, eq_of_beq, lookup_of_mem,
}
use magna.Core.Step.{StepId, ExecutableStep, ok}
use magna.Core.Petgraph.{Petgraph}
use magna.Core.Planner.{ExecutionPlan, remove_step}
use magna.Core.Planner.Index.{IsIndexed, IsPlanned}
use magna.Core.Planner.Nodes.{remove_step-IsIndexed, index_of}
use magna.Core.Planner.Wiring.{relink_steps-Relinked}
use magna.Core.Planner.Orders.{IsPlan}
use magna.Core.Optimizer.Passes.{remove_steps, rebuild_edges_after_remap, relink_remapped}

module _ (P : Petgraph) {A : Type 0} where
  open P use {edges, clear_edges, clear_edges_nodes, clear_edges_edges}

  -- `after` is `before` without the steps `gone`.
  pub record Without (before : ExecutionPlan P A) (gone : List StepId) (after : ExecutionPlan P A)
      : Type 0 where
    pub indexed : IsIndexed P after
    pub same_size : after.batch_size ≡ before.batch_size
    pub kept :
        (id : StepId) (s : ExecutableStep A)
        → (lookup after.steps id ≡ some s) ↔ ((lookup before.steps id ≡ some s) × (¬ Memᴰ id gone))

  lookup-remove_iff :
      (steps : Map StepId (ExecutableStep A)) (x id : StepId) (s : ExecutableStep A)
      → (lookup (remove x steps) id ≡ some s) ↔ ((lookup steps id ≡ some s) × (¬ (id ≡ x)))
  lookup-remove_iff steps x id s = elim (Bool-cases (x == id)) [
    | inl same ↦ rw (lookup-remove, same) (λ h. cc h, λ h. absurd (h.1 (sym (eq_of_beq x id same))))
    | inr other ↦
        rw (lookup-remove, other)
          (
            λ h. (h, λ p. let clash : (x == id) ≡ true = rw p (beq_self x) in cc (other, clash)),
            λ h. h.0,
          )
  ]
    where
      beq_self : (x : StepId) → (x == x) ≡ true
      beq_self x = ground arith

  pub remove_steps-Without :
      (gone : List StepId) (plan : ExecutionPlan P A)
      → IsIndexed P plan
      → IsDistinct gone
      → ((id : StepId) → Memᴰ id gone → IsPlanned P plan id)
      → Without plan gone (remove_steps P gone plan)
  unfolding remove_steps
  remove_steps-Without [] plan ix d planned = record {
    indexed = ix;
    same_size = refl;
    kept = λ id s. (λ h. (h, λ m. elim m [ ]), λ h. h.0);
  }
  remove_steps-Without (x ∷ gone) plan ix d planned =
      let (ix', same, size) = remove_step-IsIndexed P plan x ix (planned x (Memᴰ.head refl)) in
      let r = remove_steps-Without gone (remove_step P x plan) ix' d.1 (λ id m.
        let (s, h) = planned id (Memᴰ.tail m) in
        (s, rw same ((lookup-remove_iff plan.steps x id s).1 (h, λ p. d.0 id m (sym p))))) in
      record {
        indexed = r.indexed;
        same_size = r.same_size ∙ size;
        kept = λ id s. (
          λ h.
              let (h', new) = (r.kept id s).0 h in
              let (old, ne) = (lookup-remove_iff plan.steps x id s).0 (rw same at h') in
              (old, λ m. elim m [ Memᴰ.head p ↦ ne p | Memᴰ.tail n ↦ new n ]),
          λ (h, new). (r.kept id s).1 (
            rw same ((lookup-remove_iff plan.steps x id s).1 (h, λ p. new (Memᴰ.head p))),
            λ m. new (Memᴰ.tail m),
          ),
        );
      }

  -- `after` is `before` with its edges made anew.
  pub record Rebuilt (remap : Map StepId StepId) (before after : ExecutionPlan P A) : Type 0 where
    pub valid : IsPlan P remap after
    pub same_steps : after.steps ≡ before.steps
    pub same_size : after.batch_size ≡ before.batch_size

  rebuild-Rebuilt :
      (remap : Map StepId StepId) (plan : ExecutionPlan P A)
      → IsIndexed P plan
      → (after : ExecutionPlan P A) × (rebuild_edges_after_remap P remap plan ≡ ok after)
        × Rebuilt remap plan after
  unfolding rebuild_edges_after_remap
  rebuild-Rebuilt remap plan ix =
      let (graph, e, r) =
        relink_steps-Relinked P remap plan.node_map plan.steps (clear_edges plan.graph) (λ id s m.
          let has = lookup_of_mem plan.steps id s ix.keyed m in
          let (i, at, _) = index_of P plan id ix (s, has) in (i, at)) in
      let nodes = r.nodes ∙ clear_edges_nodes plan.graph in
      (
        record plan { graph = graph },
        rw (e, rebuild_edges_after_remap),
        record {
          valid = record {
            indexed = record {
              distinct = rw nodes ix.distinct;
              indexed = rw nodes ix.indexed;
              planned = rw nodes ix.planned;
              keyed = ix.keyed;
              named = ix.named;
            };
            links = λ a b. (
              λ m. elim (r.sound a b m) [
                | inl old ↦ elim (rw clear_edges_edges at old) [ ]
                | inr l ↦ l
              ],
              λ l. r.adds a b l,
            );
          };
          same_steps = refl;
          same_size = refl;
        },
      )

  -- With an empty remap there is nothing to remove and the plan stays.
  pub relink_remapped-Rebuilt :
      (remap : Map StepId StepId) (gone : List StepId) (plan : ExecutionPlan P A)
      → IsPlan P [] plan
      → IsIndexed P (remove_steps P gone plan)
      → ((id : StepId) → Memᴰ id gone ↔ ((c : StepId) × (lookup remap id ≡ some c)))
      → (after : ExecutionPlan P A) × (relink_remapped P remap (remove_steps P gone plan)
          ≡ ok after)
        × Rebuilt remap (remove_steps P gone plan) after
  unfolding relink_remapped remove_steps lookup
  relink_remapped-Rebuilt [] [] plan h ix removed =
      (plan, refl, record { valid = h; same_steps = refl; same_size = refl })
  relink_remapped-Rebuilt [] (x ∷ gone) plan h ix removed =
      let (c, e) = (removed x).0 (Memᴰ.head refl) in cc e
  relink_remapped-Rebuilt (entry ∷ remap) gone plan h ix removed =
      rebuild-Rebuilt (entry ∷ remap) (remove_steps P gone plan) ix
