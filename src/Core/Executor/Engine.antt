-- ===== src/Core/Executor/Engine.antt =====
-- The whole engine: registered steps are planned, optimized and executed.
use magna.Base.{
  ◌≡◌, sym, ap, ◌∙◌, ◌⊎◌, inl, inr, some, some_inj, Memᴰ, mem_unmap, mem_cast, IsDistinct, lookup,
  nat_eq, All, All-get, subst, Option-cases,
}
use magna.Core.Step.{StepId, ExecutableStep, ok, err, execution_error, join_failure}
use magna.Core.Petgraph.{Petgraph}
use magna.Core.Planner.{ExecutionPlan, Planner, build}
use magna.Core.Planner.Index.{IsPlanned}
use magna.Core.Planner.Nodes.{ids}
use magna.Core.Planner.Orders.{IsPlan-IsWired}
use magna.Core.Planner.Outcome.{Built, build_cases}
use magna.Core.Optimizer.Passes.{OptimizedPlan, optimize, resolve}
use magna.Core.Optimizer.Outcome.{IsOptimized, optimize-IsOptimized}
use magna.Core.Executor.{Outputs, execute_plan}
use magna.Core.Executor.Runs.{IsFlagged, CanPanic}
use magna.Core.Executor.Runs.Dispatch.{Has}
use magna.Core.Executor.Runs.Outcome.{Executed, IsRunnable, execute_plan_cases}

module _ (P : Petgraph) {A : Type 0} (planner : Planner P A) (plan : ExecutionPlan P A) where
  -- A step of the built plan is a registered one.
  registered_step :
      Built P planner plan
      → (id : StepId) (step : ExecutableStep A) → lookup plan.steps id ≡ some step
      → Memᴰ step planner.registered
  registered_step b id step at =
      let (s, n, e) =
        mem_unmap (λ (s : ExecutableStep A). s.id) planner.registered
          ((b.planned id).0 (step, at)) in
      mem_cast
        (some_inj
          (sym (All-get _ planner.registered b.found n) ∙ ap (lookup plan.steps) (sym e) ∙ at))
        n

  optimized_step :
      (out : OptimizedPlan P A)
      → Built P planner plan
      → IsOptimized P plan out
      → (id : StepId) (step : ExecutableStep A) → lookup out.plan.steps id ≡ some step
      → Memᴰ step planner.registered
  optimized_step out b opt id step at = registered_step b id step ((opt.merged.kept id step).0 at).0

  engine-IsRunnable :
      (out : OptimizedPlan P A)
      → All IsFlagged planner.registered
      → Built P planner plan
      → IsOptimized P plan out
      → IsRunnable P out
  engine-IsRunnable out flagged b opt = record {
    named = opt.merged.valid.indexed.named;
    flagged = λ id step at.
        All-get IsFlagged planner.registered flagged (optimized_step out b opt id step at);
    reads = λ id step at d m.
        let (dep, n, e) = mem_unmap (resolve out.remap) step.dependencies m in
        (IsPlan-IsWired P out.remap out.plan opt.merged.valid id step at d).1 (
          record { dep = dep; listed = n; resolved = sym e },
          subst (IsPlanned P out.plan) (sym e) (opt.merged.closed id step at dep n),
        );
  }

  -- A registered step is planned, or its twin is.
  stands_for :
      (out : OptimizedPlan P A)
      → Built P planner plan
      → IsOptimized P plan out
      → (s : ExecutableStep A) → Memᴰ s planner.registered
      → IsPlanned P out.plan (resolve out.remap s.id)
  unfolding resolve
  stands_for out b opt s m =
      let at = All-get _ planner.registered b.found m in
      elim (Option-cases (lookup out.remap s.id)) [
        | inl own ↦ rw (own, resolve) (s, (opt.merged.kept s.id s).1 (at, own))
        | inr (c, to) ↦ let (_, planned, _) = opt.merged.twins s.id c to in rw (to, resolve) planned
      ]

  pub build-Built :
      IsDistinct (ids planner.registered) → build P planner ≡ ok plan → Built P planner plan
  build-Built d made = elim (build_cases P planner d) [
    | inl (other, e, b, _) ↦
        let ok_inj : ok other ≡ ok plan = sym e ∙ made in subst (Built P planner) (cc) b
    | inr (inl (_, e, _, _)) ↦ cc (e, made)
    | inr (inr (_, e, _, _)) ↦ cc (e, made)
  ]

  -- How a run of the engine ends.
  pub record Answered (out : OptimizedPlan P A) (outputs : Outputs A) : Type 0 where
    pub executed : Executed P out outputs
    -- The output of each registered step is found under the step that stands for it.
    pub answers :
        (s : ExecutableStep A) → Memᴰ s planner.registered → Has outputs (resolve out.remap s.id)

  -- Once `build` accepts registered steps with distinct ids, whose values come with flags, the plan
  -- is optimized without a panic, and its execution returns the outputs of all steps, each what the
  -- step leaves on the outputs of its dependencies; or a task of a registered step panicked, which
  -- is reported as a join error. An output is never missing.
  pub engine_cases :
      IsDistinct (ids planner.registered)
      → All IsFlagged planner.registered
      → build P planner ≡ ok plan
      → (out : OptimizedPlan P A) × (optimize P plan ≡ ok out)
        × (((outputs : Outputs A) × (execute_plan P out ≡ ok outputs) × Answered out outputs)
            ⊎ (((s : ExecutableStep A) × Memᴰ s planner.registered × CanPanic s)
                × (execute_plan P out ≡ err (execution_error join_failure))))
  engine_cases d flagged made =
      let b = build-Built d made in
      let (out, e, opt) = optimize-IsOptimized P planner plan b in
      (
        out,
        e,
        elim (execute_plan_cases P out (engine-IsRunnable out flagged b opt) opt.ordered) [
          | inl (outputs, q, ex) ↦ inl (
            outputs,
            q,
            record {
              executed = ex;
              answers = λ s m.
                  let (step, at) = stands_for out b opt s m in
                  let (v, found, _) = ex.each (resolve out.remap s.id) step at in (v, found);
            },
          )
          | inr (p, q) ↦ inr ((p.step, optimized_step out b opt p.id p.step p.at, p.panics), q)
        ],
      )
