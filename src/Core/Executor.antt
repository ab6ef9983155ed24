-- ===== src/Core/Executor.antt =====
-- crates/magna-core/src/executor.rs: the steps of an optimized plan run tier by tier.
-- A spawned task reads nothing that another one writes, so it stands for its result: the handle
-- holds what the task returns, and the order in which tasks run is not modelled.
pub mod Runs
pub mod Engine
pub mod Propagation
pub mod Skips
use magna.Base.{
  ℕ, ◌+◌, max, Bool, true, false, not, ◌&&◌, ◌||◌, if◌then◌else◌, List, [], ◌∷◌, ◌++◌, map, Option,
  none, some, Map, lookup, insert, nat_eq, ◌==◌, ltb, replicate, length, get_elem?, set,
}
use magna.Core.Flags.{
  StepFlags, flags_none, flags_null, flags_error, is_null, is_error, is_value, join_flags,
}
use magna.Core.Step.{
  StepId, StepOutput, StepInputs, ExecutableStep, FwGraphError, execution_error, missing_output,
  join_failure, Result, ok, err, panic, ◌>>=◌, AnyValue, unit, display,
}
use magna.Core.Petgraph.{Petgraph}
use magna.Core.Planner.{ExecutionPlan, get_step, dependencies_of}
use magna.Core.Optimizer.Passes.{OptimizedPlan, resolve}
use magna.Core.Tiers.{compute_tiers}

-- One item of one dependency: its NULL and ERROR bits join those of the result.
unfoldable pub mark_item : StepFlags → StepFlags → StepFlags
mark_item flag result =
    let marked = if is_null flag then join_flags result flags_null else result in
    if is_error flag then join_flags marked flags_error else marked

-- `for i in 0..batch_size.min(dep_output.flags.len())`
unfoldable pub mark_items : List StepFlags → List StepFlags → List StepFlags
unfolding mark_item
mark_items [] result = result
mark_items (flag ∷ flags) [] = []
mark_items (flag ∷ flags) (r ∷ result) = mark_item flag r ∷ mark_items flags result

-- Whether the loop sets `any_propagated`.
unfoldable pub any_marked : List StepFlags → List StepFlags → Bool
any_marked [] result = false
any_marked (flag ∷ flags) [] = false
any_marked (flag ∷ flags) (r ∷ result) = is_null flag || is_error flag || any_marked flags result

unfoldable pub all_flagged : List StepFlags → Bool
all_flagged [] = true
all_flagged (f ∷ flags) = not (is_value f) && all_flagged flags

abbrev pub Outputs : Type 0 → Type 0
Outputs A = Map StepId (StepOutput A)

-- The handle of a spawned task.
pub record Handle (A : Type 0) : Type 0 where
  pub id : StepId
  pub is_unary : Bool
  pub result : Result (StepOutput A)

module _ {A : Type 0} where
  -- The loop over the dependencies; one without an output is passed over.
  unfoldable pub mark_deps : List StepId → Outputs A → List StepFlags → Bool → List StepFlags × Bool
  mark_deps [] outputs result_flags any_propagated = (result_flags, any_propagated)
  mark_deps (dep ∷ deps) outputs result_flags any_propagated = elim (lookup outputs dep) [
    | none ↦ mark_deps deps outputs result_flags any_propagated
    | some output ↦
        mark_deps deps outputs (mark_items output.flags result_flags)
          (any_propagated || any_marked output.flags result_flags)
  ]

  unfoldable pub skip_output : List StepFlags → Bool → ℕ → Option (StepOutput A)
  skip_output result_flags any_propagated batch_size =
      if any_propagated && all_flagged result_flags
      then some (record { values = replicate batch_size unit; flags = result_flags })
      else none

  unfoldable pub check_propagating_flags : List StepId → Outputs A → ℕ → Option (StepOutput A)
  check_propagating_flags [] outputs batch_size = none
  check_propagating_flags (dep ∷ deps) outputs batch_size =
      let (result_flags, any_propagated) =
        mark_deps (dep ∷ deps) outputs (replicate batch_size flags_none) false in
      skip_output result_flags any_propagated batch_size

  -- `output.flags[0]` panics where there is no flag.
  unfoldable pub broadcast_unary : StepOutput A → ℕ → Result (StepOutput A)
  broadcast_unary output batch_size = elim output.values [
    | [] ↦ ok output
    | v ∷ vs ↦ elim (length vs == 0 && ltb 1 batch_size) [
      | false ↦ ok output
      | true ↦ elim output.flags [
        | [] ↦ panic
        | f ∷ fs ↦ ok (record { values = replicate batch_size v; flags = replicate batch_size f })
      ]
    ]
  ]

  unfoldable pub error_output_batch : FwGraphError → ℕ → StepOutput A
  error_output_batch error batch_size = record {
    values = replicate batch_size (display error);
    flags = replicate batch_size flags_error;
  }

  -- The inputs in the order of the dependencies; a missing one is an error.
  unfoldable pub gather : StepId → List StepId → Outputs A → Result (StepInputs A)
  gather step_id [] outputs = ok []
  gather step_id (dep ∷ deps) outputs = elim (lookup outputs dep) [
    | none ↦ err (execution_error (missing_output step_id dep))
    | some output ↦ gather step_id deps outputs >>= λ rest. ok (output ∷ rest)
  ]

  -- What becomes of the result of a task.
  unfoldable pub settle : Bool → Result (StepOutput A) → ℕ → Result (StepOutput A)
  unfolding broadcast_unary
  settle is_unary (ok output) batch_size =
      if is_unary then broadcast_unary output batch_size else ok output
  settle is_unary (err e) batch_size = ok (error_output_batch e batch_size)
  settle is_unary panic batch_size = err (execution_error join_failure)

  -- `for handle in handles`
  unfoldable pub await_all : List (Handle A) → Outputs A → ℕ → Result (Outputs A)
  await_all [] outputs batch_size = ok outputs
  await_all (h ∷ handles) outputs batch_size = settle h.is_unary h.result batch_size >>= λ output.
      await_all handles (insert h.id output outputs) batch_size

  abbrev pub dep_ids : Map StepId StepId → ExecutableStep A → List StepId
  dep_ids remap step = map (resolve remap) step.dependencies

module _ (P : Petgraph) {A : Type 0} where
  -- `for step_id in tier`: the outputs of skipped steps, and the handles of the spawned ones.
  unfoldable pub dispatch :
      OptimizedPlan P A
      → List StepId
      → Outputs A
      → List (Handle A)
      → Result (Outputs A × List (Handle A))
  dispatch out [] outputs handles = ok (outputs, handles)
  dispatch out (id ∷ tier) outputs handles = elim (get_step P out.plan id) [
    | none ↦ dispatch out tier outputs handles
    | some step ↦
        elim (check_propagating_flags (dep_ids out.remap step) outputs out.plan.batch_size) [
          | some skipped ↦ dispatch out tier (insert id skipped outputs) handles
          | none ↦ gather id (dep_ids out.remap step) outputs >>= λ inputs.
              dispatch out tier outputs (
                handles
                ++ record { id = step.id; is_unary = step.is_unary; result = step.execute inputs }
                  ∷ [])
        ]
  ]

  -- `for tier in tiers`
  unfoldable pub run_tiers : OptimizedPlan P A → List (List StepId) → Outputs A → Result (Outputs A)
  run_tiers out [] outputs = ok outputs
  run_tiers out (tier ∷ tiers) outputs = dispatch out tier outputs [] >>= λ (dispatched, handles).
      await_all handles dispatched out.plan.batch_size >>= λ settled. run_tiers out tiers settled

  unfoldable pub execute_plan : OptimizedPlan P A → Result (Outputs A)
  execute_plan out =
      compute_tiers P out.execution_order out.plan >>= λ tiers. run_tiers out tiers []
