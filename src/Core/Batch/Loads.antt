-- ===== src/Core/Batch/Loads.antt =====
-- A batch step against the code that it replaces, one search of the table for each parent.
use magna.Base.{
  ◌≡◌, refl, ap, ap₂, sym, ◌∙◌, inl, inr, true, List, [], ◌∷◌, map, Option, none, some, arith, Memᴰ,
  Eq, ◌==◌, Bool-cases, if◌then◌else◌, contains, contains_of_mem, eq_of_beq,
}
use magna.Core.Step.{ok, value, StepOutput, StepInputs, from_values}
use magna.Core.Batch.{BatchStep, unique_keys, load_unique, execute}
use magna.Core.Batch.Partition.{rows_for, children_of, partition_rows_lem, unique_keys_lem}

module _ {K V : Type 0} ⦃e : Eq K⦄ where
  -- The rows of a table whose key is asked for.
  unfoldable pub matching : (V → K) → List K → List V → List V
  matching group_by keys [] = []
  matching group_by keys (row ∷ rows) =
      let rest = matching group_by keys rows in
      if contains keys (group_by row) then row ∷ rest else rest

  rows_for-matching :
      (group_by : V → K) (keys : List K) (k : K) (table : List V)
      → Memᴰ k keys
      → rows_for group_by k (matching group_by keys table) ≡ rows_for group_by k table
  unfolding rows_for matching
  rows_for-matching group_by keys k [] m = refl
  rows_for-matching group_by keys k (row ∷ rows) m = elim (Bool-cases (group_by row == k)) [
    | inl same ↦
        let asked : contains keys (group_by row) ≡ true =
          rw (eq_of_beq (group_by row) k same) (contains_of_mem keys k m) in
        ground (arith, rows_for-matching group_by keys k rows m)
    | inr other ↦ ground (arith, rows_for-matching group_by keys k rows m)
  ]

  children_of-matching :
      (group_by : V → K) (keys : List K) (table : List V) (per_parent : List (Option K))
      → ((k : K) → Memᴰ (some k) per_parent → Memᴰ k keys)
      → map (children_of group_by (matching group_by keys table)) per_parent
        ≡ map (children_of group_by table) per_parent
  unfolding children_of
  children_of-matching group_by keys table [] asked = refl
  children_of-matching group_by keys table (none ∷ rest) asked =
      ap (λ t. [] ∷ t)
        (children_of-matching group_by keys table rest (λ k m. asked k (Memᴰ.tail m)))
  children_of-matching group_by keys table (some k ∷ rest) asked =
      ap₂ ◌∷◌ (rows_for-matching group_by keys k table (asked k (Memᴰ.head refl)))
        (children_of-matching group_by keys table rest (λ j m. asked j (Memᴰ.tail m)))

  children_of-keyless :
      (group_by : V → K) (table : List V) (per_parent : List (Option K))
      → ((k : K) → ¬ Memᴰ (some k) per_parent)
      → map (children_of group_by table) per_parent ≡ map (λ _. []) per_parent
  unfolding children_of
  children_of-keyless group_by table [] h = refl
  children_of-keyless group_by table (none ∷ rest) h =
      ap (λ t. [] ∷ t) (children_of-keyless group_by table rest (λ k m. h k (Memᴰ.tail m)))
  children_of-keyless group_by table (some k ∷ rest) h = absurd (h k (Memᴰ.head refl))

module _ {K V A : Type 0} ⦃e : Eq K⦄ where
  load_unique_lem :
      (step : BatchStep K V A) (table : List V) (per_parent : List (Option K)) (unique : List K)
      → ((keys : List K) → step.load keys ≡ ok (matching step.group_by keys table))
      → ((k : K) → Memᴰ (some k) per_parent → Memᴰ k unique)
      → load_unique step per_parent unique ≡ ok (map (children_of step.group_by table) per_parent)
  unfolding load_unique
  load_unique_lem step table per_parent [] loads asked =
      ap ok (sym (children_of-keyless step.group_by table per_parent (λ k m. elim (asked k m) [ ])))
  load_unique_lem step table per_parent (k ∷ ks) loads asked = rw (loads (k ∷ ks)) (
      ap ok (
        partition_rows_lem step.group_by _ per_parent
        ∙ children_of-matching step.group_by (k ∷ ks) table per_parent asked))

  -- With a loader that answers from a table, the step gives to each parent, in the place of the
  -- parent, the rows of the table that have its key, in the table's order, as one search for each
  -- parent would: also to parents that share a key, and the empty list to those with none.
  pub execute-eq-search :
      (step : BatchStep K V A) (table : List V) (parent : StepOutput A) (rest : StepInputs A)
      → ((keys : List K) → step.load keys ≡ ok (matching step.group_by keys table))
      → execute step (parent ∷ rest)
        ≡ ok (
            from_values
              (map value (map (children_of step.group_by table) (map step.key_of parent.values))))
  unfolding execute
  execute-eq-search step table parent rest loads =
      let per_parent = map step.key_of parent.values in
      rw (
        load_unique_lem step table per_parent (unique_keys [] per_parent) loads
          (λ k m. ((unique_keys_lem per_parent).1 k).1 m))
