-- ===== src/Core/Executor/Runs/Outcome.antt =====
-- What `Executor::execute` returns for an optimized plan.
use magna.Base.{
  ◌≡◌, refl, sym, ◌∙◌, ◌⊎◌, inl, inr, some, some_inj, List, [], ◌∷◌, ◌++◌, Memᴰ, mem_left,
  mem_right, mem_split, lookup, nat_eq, subst,
}
use magna.Core.Step.{StepId, StepOutput, ExecutableStep, ok, err, execution_error, join_failure}
use magna.Core.Petgraph.{Petgraph}
use magna.Core.Planner.Index.{IsPlanned, DependsOn}
use magna.Core.Planner.Orders.{IsIdOrder}
use magna.Core.Optimizer.Passes.{OptimizedPlan}
use magna.Core.Tiers.Collected.{IsTiered, InTiers, compute_tiers-IsTiered}
use magna.Core.Executor.{Outputs, run_tiers, execute_plan, dep_ids}
use magna.Core.Executor.Runs.{run_step, IsFlagged}
use magna.Core.Executor.Runs.Stable.{run_step-Agree}
use magna.Core.Executor.Runs.Dispatch.{Has, Ran, IsReady, Grown, dispatch-Dispatched}
use magna.Core.Executor.Runs.Await.{Panics, await_all_cases}

module _ (P : Petgraph) {A : Type 0} (out : OptimizedPlan P A) where
  -- Each planned step has the output that it leaves when it runs on its own over these outputs, and
  -- there are no others.
  pub record Executed (outputs : Outputs A) : Type 0 where
    pub each :
        (id : StepId) (step : ExecutableStep A)
        → lookup out.plan.steps id ≡ some step
        → (v : StepOutput A) × (lookup outputs id ≡ some v)
          × (run_step out.remap out.plan.batch_size outputs id step ≡ ok v)
    pub only :
        (id : StepId) (v : StepOutput A) → lookup outputs id ≡ some v → IsPlanned P out.plan id

  -- The steps are flagged, and what a step reads is what it depends on in the graph.
  pub record IsRunnable : Type 0 where
    pub named :
        (id : StepId) (step : ExecutableStep A)
        → lookup out.plan.steps id ≡ some step
        → step.id ≡ id
    pub flagged :
        (id : StepId) (step : ExecutableStep A)
        → lookup out.plan.steps id ≡ some step
        → IsFlagged step
    pub reads :
        (id : StepId) (step : ExecutableStep A)
        → lookup out.plan.steps id ≡ some step
        → (d : StepId) → Memᴰ d (dep_ids out.remap step)
        → DependsOn P out.plan d id

  -- What holds after the tiers with the steps `seen`.
  record Done (seen : List StepId) (o : Outputs A) : Type 0 where
    has : (id : StepId) → Memᴰ id seen → Has o id
    ran :
        (id : StepId) (v : StepOutput A)
        → lookup o id ≡ some v
        → Memᴰ id seen × Ran P out o id (ok v)
    closed : (id : StepId) → Memᴰ id seen → (a : StepId) → DependsOn P out.plan a id → Memᴰ a seen

  module _ (runnable : IsRunnable) where
    Done-IsReady :
        (seen tier : List StepId) (o : Outputs A)
        → Done seen o
        → ((b : StepId) → Memᴰ b tier → (a : StepId) → DependsOn P out.plan a b → Memᴰ a seen)
        → ((b : StepId) → Memᴰ b tier → ¬ Memᴰ b seen)
        → ((b : StepId) → Memᴰ b tier → IsPlanned P out.plan b)
        → IsReady P out o seen tier
    Done-IsReady seen tier o h deps fresh planned = record {
      planned = planned;
      named = runnable.named;
      flagged = runnable.flagged;
      deps = λ id step m at d n. deps id m d (runnable.reads id step at d n);
      fresh = fresh;
      has = h.has;
    }

    Done-append :
        (seen tier : List StepId) (o after : Outputs A) (ready : IsReady P out o seen tier)
        → Done seen o
        → ((b : StepId) → Memᴰ b tier → (a : StepId) → DependsOn P out.plan a b → Memᴰ a seen)
        → Grown P out o seen tier ready after
        → ((id : StepId) → Memᴰ id tier → Has after id)
        → Done (tier ++ seen) after
    Done-append seen tier o after ready h deps g covers = record {
      has = λ id m. elim (mem_split tier seen m) [
        | inl new ↦ covers id new
        | inr old ↦ let (v, e) = h.has id old in (v, sym (g.keeps id old) ∙ e)
      ];
      ran = λ id v e. elim (g.only id v e) [
        | inl old ↦
            let r = (h.ran id v (g.keeps id old ∙ e)).1 in
            (mem_right tier seen old, again id v r (h.closed id old))
        | inr (new, r) ↦ (mem_left tier seen new, again id v r (deps id new))
      ];
      closed = λ id m a d. mem_right tier seen (elim (mem_split tier seen m) [
        | inl new ↦ deps id new a d
        | inr old ↦ h.closed id old a d
      ]);
    }
      where
        again :
            (id : StepId) (v : StepOutput A)
            → Ran P out o id (ok v)
            → ((a : StepId) → DependsOn P out.plan a id → Memᴰ a seen)
            → Ran P out after id (ok v)
        again id v r sub = record {
          step = r.step;
          at = r.at;
          runs =
              sym (
                run_step-Agree out.remap out.plan.batch_size o after id r.step
                  (λ d m. g.keeps d (sub d (runnable.reads id r.step r.at d m))))
              ∙ r.runs;
        }

    run_tiers_cases :
        (tiers : List (List StepId)) (seen : List StepId) (o : Outputs A)
        → Done seen o
        → IsTiered (DependsOn P out.plan) seen tiers
        → ((id : StepId) → InTiers id tiers → IsPlanned P out.plan id)
        → ((all : List StepId) × (after : Outputs A) × (run_tiers P out tiers o ≡ ok after)
            × Done all after
            × ((id : StepId) → Memᴰ id seen ⊎ InTiers id tiers → Memᴰ id all))
          ⊎ (Panics P out × (run_tiers P out tiers o ≡ err (execution_error join_failure)))
    unfolding run_tiers
    run_tiers_cases [] seen o h t planned =
        inl (seen, o, refl, h, λ id c. elim c [ inl m ↦ m | inr (tier, m, _) ↦ elim m [ ] ])
    run_tiers_cases (tier ∷ tiers) seen o h t planned =
        let deps = t.0 in
        let ready =
          Done-IsReady seen tier o h deps t.2 (λ b m. planned b (tier, Memᴰ.head refl, m)) in
        let start : Grown P out o seen tier ready o = record {
          keeps = λ d m. refl;
          only = λ id v e. inl (h.ran id v e).0;
        } in
        let r = dispatch-Dispatched P out o seen tier ready tier o [] (λ id m. m) start tt in
        elim (await_all_cases P out o seen tier ready r.spawned r.after r.grown r.pending) [
          | inr (panics, e) ↦ inr (panics, rw (r.runs, e, run_tiers) refl)
          | inl (after, e, g, has) ↦
              elim (run_tiers_cases tiers (tier ++ seen) after
                (Done-append seen tier o after ready h deps g (λ id m. has id (r.covers id m))) t.3
                (λ id (x, m, n). planned id (x, Memᴰ.tail m, n))) [
                  | inr (panics, e') ↦ inr (panics, rw (r.runs, e, run_tiers) e')
                  | inl (all, last, e', done, whole) ↦ inl (
                    all,
                    last,
                    rw (r.runs, e, run_tiers) e',
                    done,
                    λ id c. whole id (elim c [
                      | inl m ↦ inl (mem_right tier seen m)
                      | inr (x, Memᴰ.head p, n) ↦
                          inl (mem_left tier seen (subst (λ (l : List StepId). Memᴰ id l) p n))
                      | inr (x, Memᴰ.tail m, n) ↦ inr (x, m, n)
                    ]),
                  )
                ]
        ]

    -- All planned steps, in an order of the plan.
    pub execute_plan_cases :
        IsIdOrder P out.plan out.execution_order
        → ((outputs : Outputs A) × (execute_plan P out ≡ ok outputs) × Executed outputs)
          ⊎ (Panics P out × (execute_plan P out ≡ err (execution_error join_failure)))
    unfolding execute_plan lookup
    execute_plan_cases o =
        let (tiers, e, tiered, whole) =
          compute_tiers-IsTiered P out.plan out.execution_order o.distinct o.forward in
        elim (run_tiers_cases tiers [] []
          (record { has = λ id m. elim m [ ]; ran = λ id v q. cc q; closed = λ id m. elim m [ ] })
          tiered (λ id c. (o.complete id).0 ((whole id).0 c))) [
            | inr (panics, q) ↦ inr (panics, rw (e, execute_plan) q)
            | inl (all, outputs, q, done, covers) ↦ inl (
              outputs,
              rw (e, execute_plan) q,
              record {
                each = λ id step at.
                    let listed = covers id (inr ((whole id).1 ((o.complete id).1 (step, at)))) in
                    let (v, found) = done.has id listed in
                    let r = (done.ran id v found).1 in
                    (
                      v,
                      found,
                      subst (λ s. run_step out.remap out.plan.batch_size outputs id s ≡ ok v)
                          (some_inj (sym r.at ∙ at)) r.runs,
                    );
                only = λ id v found. let r = (done.ran id v found).1 in (r.step, r.at);
              },
            )
          ]
