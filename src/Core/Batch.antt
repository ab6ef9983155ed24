-- ===== src/Core/Batch.antt =====
-- crates/magna-core/src/batch.rs: one load for a batch of parent keys, and the partition of the
-- loaded rows. A step's own values are vectors of rows; `await` on the loader is its result.
pub mod Partition
pub mod Loads
use magna.Base.{
  ℕ, List, [], ◌∷◌, ◌++◌, map, Option, none, some, String, Eq, contains, if◌then◌else◌, Map, lookup,
  insert,
}
use magna.Core.Step.{
  StepId, no_parent_output, execution_error, Result, ok, err, ◌>>=◌, AnyValue, value, StepOutput,
  StepInputs, from_values,
}

pub record BatchStep (K V A : Type 0) : Type 0 where
  pub id : StepId
  pub parent : StepId
  pub key_of : AnyValue A → Option K
  pub load : List K → Result (List V)
  pub group_by : V → K
  pub config_hash : ℕ
  pub label : String

module _ {K : Type 0} ⦃e : Eq K⦄ where
  -- One pass over the keys of the parents, each kept the first time that it is seen.
  unfoldable pub unique_keys : List K → List (Option K) → List K
  unique_keys unique [] = unique
  unique_keys unique (none ∷ rest) = unique_keys unique rest
  unique_keys unique (some k ∷ rest) =
      unique_keys (if contains unique k then unique else unique ++ k ∷ []) rest

module _ {K V : Type 0} ⦃e : Eq K⦄ where
  -- `buckets.entry(k).or_default().push(row)`
  unfoldable pub push_row : (V → K) → Map K (List V) → V → Map K (List V)
  push_row group_by buckets row = elim (lookup buckets (group_by row)) [
    | none ↦ insert (group_by row) (row ∷ []) buckets
    | some rows ↦ insert (group_by row) (rows ++ row ∷ []) buckets
  ]

  unfoldable pub bucket_rows : (V → K) → Map K (List V) → List V → Map K (List V)
  bucket_rows group_by buckets [] = buckets
  bucket_rows group_by buckets (row ∷ rows) =
      bucket_rows group_by (push_row group_by buckets row) rows

  -- The rows that a parent receives; one with no key, or with no row, receives none.
  unfoldable pub bucket_of : Map K (List V) → Option K → List V
  bucket_of buckets none = []
  bucket_of buckets (some k) = elim (lookup buckets k) [ none ↦ [] | some rows ↦ rows ]

  unfoldable pub partition_rows : (V → K) → List V → List (Option K) → List (List V)
  partition_rows group_by rows per_parent =
      let buckets = bucket_rows group_by [] rows in map (bucket_of buckets) per_parent

module _ {K V A : Type 0} ⦃e : Eq K⦄ where
  -- With no key there is no load.
  unfoldable pub load_unique : BatchStep K V A → List (Option K) → List K → Result (List (List V))
  load_unique step per_parent [] = ok (map (λ _. []) per_parent)
  load_unique step per_parent (k ∷ ks) =
      step.load (k ∷ ks) >>= λ rows. ok (partition_rows step.group_by rows per_parent)

  -- `BatchStep::execute`
  unfoldable pub execute : BatchStep K V A → StepInputs A → Result (StepOutput (List V))
  execute step [] = err (execution_error (no_parent_output step.label))
  execute step (parent ∷ _) = do
    let per_parent = map step.key_of parent.values
    children ← load_unique step per_parent (unique_keys [] per_parent)
    ok (from_values (map value children))
