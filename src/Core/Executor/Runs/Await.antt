-- ===== src/Core/Executor/Runs/Await.antt =====
-- The loop over the handles of a tier.
use magna.Base.{
  ◌≡◌, refl, sym, ap, ◌∙◌, ◌⊎◌, inl, inr, some, List, [], ◌∷◌, Memᴰ, lookup, insert,
  lookup-insert_self, nat_eq, All,
}
use magna.Core.Step.{StepId, StepOutput, ExecutableStep, ok, err, execution_error, join_failure}
use magna.Core.Petgraph.{Petgraph}
use magna.Core.Optimizer.Passes.{OptimizedPlan}
use magna.Core.Executor.{Outputs, Handle, settle, await_all}
use magna.Core.Executor.Runs.{CanPanic}
use magna.Core.Executor.Runs.Stable.{run_step_cases}
use magna.Core.Executor.Runs.Dispatch.{
  Has, Has-insert, Ran, IsReady, Grown, Grown-insert, Pending, Covered,
}

-- A planned step whose task can panic.
pub record Panics (P : Petgraph) {A : Type 0} (out : OptimizedPlan P A) : Type 0 where
  pub id : StepId
  pub step : ExecutableStep A
  pub at : lookup out.plan.steps id ≡ some step
  pub panics : CanPanic step

module _ (P : Petgraph) {A : Type 0} (out : OptimizedPlan P A) (o : Outputs A)
    (seen tier : List StepId) (ready : IsReady P out o seen tier) where
  -- The handle's task left an output, or panicked.
  Pending-cases :
      (h : Handle A)
      → Pending P out o seen tier ready h
      → ((v : StepOutput A) × (settle h.is_unary h.result out.plan.batch_size ≡ ok v)
          × Ran P out o h.id (ok v))
        ⊎ (Panics P out
            × (settle h.is_unary h.result out.plan.batch_size ≡ err (execution_error join_failure)))
  Pending-cases h p =
      let r = p.ran in
      elim (run_step_cases out.remap out.plan.batch_size o h.id r.step
        (ready.flagged h.id r.step r.at)
        (λ d m. ready.has d (ready.deps h.id r.step p.listed r.at d m))) [
          | inl (v, e) ↦ inl (v, sym r.runs ∙ e, record { step = r.step; at = r.at; runs = e })
          | inr (panics, e) ↦
              inr (record { id = h.id; step = r.step; at = r.at; panics = panics }, sym r.runs ∙ e)
        ]

  -- Each step with a handle gets its output, unless a task panicked.
  pub await_all_cases :
      (handles : List (Handle A)) (now : Outputs A)
      → Grown P out o seen tier ready now
      → All (Pending P out o seen tier ready) handles
      → ((after : Outputs A) × (await_all handles now out.plan.batch_size ≡ ok after)
          × Grown P out o seen tier ready after
          × ((id : StepId) → Covered P out o seen tier ready now handles id → Has after id))
        ⊎ (Panics P out
            × (await_all handles now out.plan.batch_size ≡ err (execution_error join_failure)))
  unfolding await_all
  await_all_cases [] now g ps =
      inl (now, refl, g, λ id c. elim c [ inl h ↦ h | inr (h, m, e) ↦ elim m [ ] ])
  await_all_cases (h ∷ handles) now g (p, ps) = elim (Pending-cases h p) [
    | inr (panics, e) ↦ inr (panics, rw (e, await_all) refl)
    | inl (v, e, ran) ↦
        elim (await_all_cases handles (insert h.id v now)
          (Grown-insert P out o seen tier ready now h.id v g p.listed ran) ps) [
            | inr (panics, e') ↦ inr (panics, rw (e, await_all) e')
            | inl (after, e', g', has) ↦ inl (
              after,
              rw (e, await_all) e',
              g',
              λ id c. elim c [
                | inl k ↦ has id (inl (Has-insert now h.id id v k))
                | inr (j, Memᴰ.head q, name) ↦
                    let own : h.id ≡ id = sym (ap (λ (x : Handle A). x.id) q) ∙ name in
                    has id (inl (v, rw (← own) (lookup-insert_self h.id v now)))
                | inr (j, Memᴰ.tail m, name) ↦ has id (inr (j, m, name))
              ],
            )
          ]
  ]
