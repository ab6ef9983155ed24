-- ===== src/Core/Samples.antt =====
-- Runs of the engine on small plans, and the theorems at them.
use magna.Base.{
  ℕ, ◌<◌, ◌≡◌, ◌↔◌, ◌⊎◌, refl, sym, Bool, true, false, not, ◌&&◌, List, [], ◌∷◌, map, Option, none,
  some, arith, Memᴰ, IsDistinct, contains, not_mem_of_contains, Map, lookup, insert, remove, nat_eq,
  mem_cast, All, string_eq,
}
use magna.Core.Flags.{flags_none, flags_null, flags_error, is_null, is_error, is_value, join_flags}
use magna.Core.Step.{
  StepId, StepOutput, ExecutableStep, StepFingerprint, AnyValue, value, unit, ok, err, from_values,
  execution_error, join_failure, fingerprint_eq,
}
use magna.Core.Petgraph.ListGraph.{
  sources, all_in, is_ready, pick, rounds, first_missing, order_nodes, toposort,
}
use magna.Core.Petgraph.ListGraph.Instance.{list_petgraph, remove_at}
use magna.Core.Batch.{BatchStep, execute}
use mathlib.Core.List.{Perm}
use magna.Core.Order.{IsTopological}
use magna.Core.Petgraph.{Petgraph, sorted}
use magna.Core.Tiers.{compute_tiers}
use magna.Core.Tiers.Collected.{IsTiered, InTiers, compute_tiers-IsTiered}
use magna.Core.Planner.Index.{IsIndexed, DependsOn}
use magna.Core.Planner.Orders.{IsIdOrder, ids_of_order}
use magna.Core.Optimizer.Hoist.{hoist-IsTopological}
use magna.Core.Optimizer.Duplicates.{Deduplicated, Deduplicated-nil, find_duplicates-Deduplicated}
use magna.Core.Optimizer.Dedup.{IsClosed, Merged, names-IsTopological, deduplicate-Merged}
use magna.Core.Executor.Skips.{flagged_at, Skipped, check_propagating_flags_cases}
use magna.Core.Batch.Partition.{children_of}
use magna.Core.Batch.Loads.{matching, execute-eq-search}
use magna.Core.Planner.{
  ExecutionPlan, Planner, index_nodes, link_step, rebuild_node_map, remove_step, dependencies_of,
  add_nodes, link_steps, check_acyclic, build,
}
use magna.Core.Planner.Nodes.{ids, remove_step-IsIndexed}
use magna.Core.Planner.Outcome.{Built, Accepted, MissesStep, HasCycle, build_cases}
use magna.Core.Optimizer.Passes.{
  resolve, all_placed, remapped_fingerprint, find_duplicates, relink_step, relink_steps,
  rebuild_edges_after_remap, remove_steps, relink_remapped, deduplicate, topological_sort,
  split_unary, hoist_unary_steps, OptimizedPlan, optimize,
}
use magna.Core.Optimizer.Outcome.{optimize-IsOptimized, IsOptimized, Built-IsClosed}
use magna.Core.Executor.{
  Outputs, mark_item, mark_items, any_marked, all_flagged, mark_deps, skip_output,
  check_propagating_flags, execute_plan,
}
use magna.Core.Executor.Runs.{IsFlagged, CanPanic}
use magna.Core.Executor.Engine.{Answered, engine_cases, build-Built}

all_new : List ℕ → Bool
all_new [] = true
all_new (x ∷ xs) = not (contains xs x) && all_new xs

IsDistinct-of_new : (xs : List ℕ) → all_new xs ≡ true → IsDistinct xs
unfolding all_new
IsDistinct-of_new [] h = tt
IsDistinct-of_new (x ∷ xs) h = (
  λ a m p. not_mem_of_contains xs x (ground arith) (mem_cast (sym p) m),
  IsDistinct-of_new xs (ground arith),
)

-- A step that leaves three times the number `n`.
abbrev sample_step : ℕ → List ℕ → Bool → ℕ → ExecutableStep ℕ
sample_step id dependencies is_unary n = record {
  id = id;
  dependencies = dependencies;
  is_unary = is_unary;
  fingerprint = record { type_id = 7; dep_ids = dependencies; config_hash = n };
  execute = λ inputs. ok (from_values (value n ∷ value n ∷ value n ∷ []));
}

-- Steps 1 and 2 do the same work, and step 3 depends on both.
abbrev sample_steps : List (ExecutableStep ℕ)
sample_steps =
    sample_step 1 [] false 10 ∷ sample_step 2 [] false 10 ∷ sample_step 3 (1 ∷ 2 ∷ []) true 20 ∷ []

abbrev sample_planner : Planner list_petgraph ℕ
sample_planner = record { registered = sample_steps; batch_size = 3 }

sample-IsDistinct : IsDistinct (ids sample_steps)
unfolding all_new
sample-IsDistinct = IsDistinct-of_new (ids sample_steps) refl

abbrev sample_plan : ExecutionPlan list_petgraph ℕ
sample_plan = record {
  graph = record { nodes = 1 ∷ 2 ∷ 3 ∷ []; links = (0, 2) ∷ (1, 2) ∷ [] };
  node_map = (1, 0) ∷ (2, 1) ∷ (3, 2) ∷ [];
  steps =
      (1, sample_step 1 [] false 10)
      ∷ (2, sample_step 2 [] false 10)
      ∷ (3, sample_step 3 (1 ∷ 2 ∷ []) true 20)
      ∷ [];
  batch_size = 3;
}

build-sample : build list_petgraph sample_planner ≡ ok sample_plan
unfolding build add_nodes link_steps link_step check_acyclic lookup insert sources all_in is_ready
    pick rounds first_missing order_nodes toposort
build-sample = refl

-- Step 3 reads step 1 for step 2, and step 2 is gone.
optimize-sample :
    optimize list_petgraph sample_plan
    ≡ ok (record {
      plan = record {
        graph = record { nodes = 1 ∷ 3 ∷ []; links = (0, 1) ∷ (0, 1) ∷ [] };
        node_map = (1, 0) ∷ (3, 1) ∷ [];
        steps = (1, sample_step 1 [] false 10) ∷ (3, sample_step 3 (1 ∷ 2 ∷ []) true 20) ∷ [];
        batch_size = 3;
      };
      execution_order = 1 ∷ 3 ∷ [];
      remap = (2, 1) ∷ [];
    })
unfolding optimize topological_sort deduplicate find_duplicates remapped_fingerprint resolve
    remove_steps remove_step rebuild_node_map index_nodes relink_remapped rebuild_edges_after_remap
    relink_steps relink_step hoist_unary_steps split_unary all_placed dependencies_of lookup insert
    remove remove_at sources all_in is_ready pick rounds first_missing order_nodes toposort
optimize-sample = refl

ok_inj : {B : Type 0} {a b : B} → ok a ≡ ok b → a ≡ b
ok_inj e = cc e

sample_step-IsFlagged :
    (id : ℕ) (dependencies : List ℕ) (is_unary : Bool) (n : ℕ)
    → IsFlagged (sample_step id dependencies is_unary n)
unfolding from_values
sample_step-IsFlagged id dependencies is_unary n inputs o e = rw (← (ok_inj e)) refl

sample-IsFlagged : All IsFlagged sample_steps
sample-IsFlagged = (
  sample_step-IsFlagged 1 [] false 10,
  (sample_step-IsFlagged 2 [] false 10, (sample_step-IsFlagged 3 (1 ∷ 2 ∷ []) true 20, tt)),
)

sample_Built : Built list_petgraph sample_planner sample_plan
sample_Built = build-Built list_petgraph sample_planner sample_plan sample-IsDistinct build-sample

toposort-sample : toposort sample_plan.graph ≡ sorted (0 ∷ 1 ∷ 2 ∷ [])
unfolding sources all_in is_ready pick rounds first_missing order_nodes toposort
toposort-sample = refl

sample_order : IsIdOrder list_petgraph sample_plan (1 ∷ 2 ∷ 3 ∷ [])
sample_order =
    ids_of_order list_petgraph sample_plan sample_Built.valid.indexed (0 ∷ 1 ∷ 2 ∷ [])
      (Petgraph.toposort_sorted list_petgraph sample_plan.graph (0 ∷ 1 ∷ 2 ∷ []) toposort-sample)

sample-IsClosed : IsClosed list_petgraph [] sample_plan
sample-IsClosed = Built-IsClosed list_petgraph sample_planner sample_plan sample_Built

engine_cases_example :
    (out : OptimizedPlan list_petgraph ℕ) × (optimize list_petgraph sample_plan ≡ ok out)
    × (((outputs : Outputs ℕ) × (execute_plan list_petgraph out ≡ ok outputs)
          × Answered list_petgraph sample_planner sample_plan out outputs)
        ⊎ (((s : ExecutableStep ℕ) × Memᴰ s sample_steps × CanPanic s)
            × (execute_plan list_petgraph out ≡ err (execution_error join_failure))))
engine_cases_example =
    engine_cases list_petgraph sample_planner sample_plan sample-IsDistinct sample-IsFlagged
      build-sample

build_cases_example :
    Accepted list_petgraph sample_planner
    ⊎ MissesStep list_petgraph sample_planner
    ⊎ HasCycle list_petgraph sample_planner
build_cases_example = build_cases list_petgraph sample_planner sample-IsDistinct

optimize-IsOptimized_example :
    (out : OptimizedPlan list_petgraph ℕ) × (optimize list_petgraph sample_plan ≡ ok out)
    × IsOptimized list_petgraph sample_plan out
optimize-IsOptimized_example =
    optimize-IsOptimized list_petgraph sample_planner sample_plan sample_Built

deduplicate-Merged_example :
    (after : ExecutionPlan list_petgraph ℕ) × (remap : Map StepId StepId) × (deduplicate
        list_petgraph sample_plan
        (1 ∷ 2 ∷ 3 ∷ [])
      ≡ ok (after, remap))
    × Merged list_petgraph sample_plan remap after
deduplicate-Merged_example =
    deduplicate-Merged list_petgraph sample_plan (1 ∷ 2 ∷ 3 ∷ []) sample_Built.valid sample-IsClosed
      sample_order

hoist-IsTopological_example :
    IsTopological
      (DependsOn list_petgraph sample_plan)
      []
      (hoist_unary_steps list_petgraph sample_plan (1 ∷ 2 ∷ 3 ∷ []))
    × Perm (hoist_unary_steps list_petgraph sample_plan (1 ∷ 2 ∷ 3 ∷ [])) (1 ∷ 2 ∷ 3 ∷ [])
unfolding lookup
hoist-IsTopological_example =
    hoist-IsTopological list_petgraph sample_plan (1 ∷ 2 ∷ 3 ∷ [])
      ((_, refl), ((_, refl), ((_, refl), tt))) sample_order.forward

compute_tiers-IsTiered_example :
    (tiers : List (List StepId)) × (compute_tiers list_petgraph (1 ∷ 2 ∷ 3 ∷ []) sample_plan
      ≡ ok tiers)
    × IsTiered (DependsOn list_petgraph sample_plan) [] tiers
    × ((id : StepId) → InTiers id tiers ↔ Memᴰ id (1 ∷ 2 ∷ 3 ∷ []))
compute_tiers-IsTiered_example =
    compute_tiers-IsTiered list_petgraph sample_plan (1 ∷ 2 ∷ 3 ∷ []) sample-IsDistinct
      sample_order.forward

find_duplicates-Deduplicated_example :
    (seen : Map StepFingerprint StepId) × Deduplicated sample_plan.steps
      (1 ∷ 2 ∷ 3 ∷ [])
      seen
      (find_duplicates sample_plan.steps [] [] [] (1 ∷ 2 ∷ 3 ∷ [])).0
      (find_duplicates sample_plan.steps [] [] [] (1 ∷ 2 ∷ 3 ∷ [])).1
find_duplicates-Deduplicated_example =
    find_duplicates-Deduplicated sample_plan.steps [] (1 ∷ 2 ∷ 3 ∷ []) [] [] []
      (Deduplicated-nil sample_plan.steps) sample-IsDistinct
      (names-IsTopological list_petgraph sample_plan sample_Built.valid sample-IsClosed
        (1 ∷ 2 ∷ 3 ∷ []) sample_order)

remove_step-IsIndexed_example :
    IsIndexed list_petgraph (remove_step list_petgraph 2 sample_plan)
    × ((remove_step list_petgraph 2 sample_plan).steps ≡ remove 2 sample_plan.steps)
    × ((remove_step list_petgraph 2 sample_plan).batch_size ≡ 3)
unfolding lookup
remove_step-IsIndexed_example =
    remove_step-IsIndexed list_petgraph sample_plan 2 sample_Built.valid.indexed (_, refl)

-- Item 0 is NULL in one dependency and item 1 is in error in the other.
abbrev sample_outputs : Outputs ℕ
sample_outputs =
    (1, record { values = value 4 ∷ value 5 ∷ []; flags = flags_null ∷ flags_none ∷ [] })
    ∷ (2, record { values = value 6 ∷ value 7 ∷ []; flags = flags_none ∷ flags_error ∷ [] })
    ∷ []

check_propagating_flags-sample :
    check_propagating_flags (1 ∷ 2 ∷ []) sample_outputs 2
    ≡ some (record { values = unit ∷ unit ∷ []; flags = flags_null ∷ flags_error ∷ [] })
unfolding check_propagating_flags mark_deps mark_items mark_item any_marked all_flagged skip_output
    is_null is_error is_value join_flags lookup
check_propagating_flags-sample = refl

check_propagating_flags_cases_example :
    (((i : ℕ) → i < 2 → flagged_at sample_outputs (1 ∷ 2 ∷ []) i ≡ true)
      × ((o : StepOutput ℕ) × (check_propagating_flags (1 ∷ 2 ∷ []) sample_outputs 2 ≡ some o)
          × Skipped sample_outputs (1 ∷ 2 ∷ []) 2 o))
    ⊎ (((i : ℕ) × (i < 2) × (flagged_at sample_outputs (1 ∷ 2 ∷ []) i ≡ false))
        × (check_propagating_flags (1 ∷ 2 ∷ []) sample_outputs 2 ≡ none))
check_propagating_flags_cases_example =
    check_propagating_flags_cases sample_outputs (1 ∷ 2 ∷ []) 2 (omega arith)

-- Rows are pairs of a foreign key and a value.
abbrev sample_table : List (ℕ × ℕ)
sample_table = (1, 10) ∷ (2, 20) ∷ (1, 11) ∷ []

abbrev row_key : ℕ × ℕ → ℕ
row_key row = row.0

abbrev own_key : AnyValue ℕ → Option ℕ
own_key (value k) = some k
own_key _ = none

abbrev sample_batch : BatchStep ℕ (ℕ × ℕ) ℕ
sample_batch = record {
  id = 2;
  parent = 1;
  key_of = own_key;
  load = λ keys. ok (matching row_key keys sample_table);
  group_by = row_key;
  config_hash = 0;
  label = "children";
}

abbrev sample_parents : StepOutput ℕ
sample_parents = record {
  values = value 1 ∷ unit ∷ value 1 ∷ value 3 ∷ [];
  flags = flags_none ∷ flags_null ∷ flags_none ∷ flags_none ∷ [];
}

execute-eq-search_example :
    execute sample_batch (sample_parents ∷ [])
    ≡ ok (
        from_values
          (map value (map (children_of row_key sample_table) (map own_key sample_parents.values))))
execute-eq-search_example =
    execute-eq-search sample_batch sample_table sample_parents [] (λ keys. refl)
