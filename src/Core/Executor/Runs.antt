-- ===== src/Core/Executor/Runs.antt =====
-- What a step leaves: the engine's result for it as a function of the outputs it depends on.
pub mod Stable
pub mod Dispatch
pub mod Await
pub mod Outcome
use magna.Base.{ℕ, Option, none, some, List, [], ◌∷◌, Map, lookup, nat_eq, length, ◌≡◌, ◌≢◌}
use magna.Core.Step.{StepId, StepOutput, StepInputs, ExecutableStep, Result, ok, err, panic, ◌>>=◌}
use magna.Core.Executor.{Outputs, check_propagating_flags, gather, settle, dep_ids}

module _ {A : Type 0} where
  abbrev pub finish :
      Option (StepOutput A) → Result (StepInputs A) → ExecutableStep A → ℕ → Result (StepOutput A)
  finish (some skipped) inputs step batch_size = ok skipped
  finish none inputs step batch_size =
      inputs >>= λ given. settle step.is_unary (step.execute given) batch_size

  -- The step on its own: skipped for its flags, or executed on its inputs.
  abbrev pub run_step :
      Map StepId StepId → ℕ → Outputs A → StepId → ExecutableStep A → Result (StepOutput A)
  run_step remap batch_size outputs id step =
      finish (check_propagating_flags (dep_ids remap step) outputs batch_size)
        (gather id (dep_ids remap step) outputs) step batch_size

  -- Each value that the step returns comes with a flag.
  abbrev pub IsFlagged : ExecutableStep A → Type 0
  IsFlagged step =
      (inputs : StepInputs A) (o : StepOutput A)
      → step.execute inputs ≡ ok o
      → length o.values ≡ length o.flags

  abbrev pub CanPanic : ExecutableStep A → Type 0
  CanPanic step = (inputs : StepInputs A) × (step.execute inputs ≡ panic)
