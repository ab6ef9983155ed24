-- ===== src/Core/Tiers.antt =====
-- crates/magna-core/src/executor.rs: the tiers of an execution order.
pub mod Levels
pub mod Collected
use magna.Base.{
  ℕ, ◌+◌, max, Bool, if◌then◌else◌, List, [], ◌∷◌, ◌++◌, Option, none, some, Map, lookup, insert,
  nat_eq, ltb, replicate, get_elem?, set,
}
use magna.Core.Step.{StepId, Result, ok, panic, ◌>>=◌}
use magna.Core.Petgraph.{Petgraph}
use magna.Core.Planner.{ExecutionPlan, dependencies_of}

-- `deps.iter().filter_map(|d| tier_of.get(d)).max()`
unfoldable pub max_tier_of : Map StepId ℕ → List StepId → Option ℕ
max_tier_of tier_of [] = none
max_tier_of tier_of (d ∷ deps) =
    let rest = max_tier_of tier_of deps in
    elim (lookup tier_of d) [
      | none ↦ rest
      | some t ↦ elim rest [ none ↦ some t | some u ↦ some (max t u) ]
    ]

unfoldable pub tier_for : Map StepId ℕ → List StepId → ℕ
tier_for tier_of [] = 0
tier_for tier_of (d ∷ deps) = elim (max_tier_of tier_of (d ∷ deps)) [ none ↦ 0 | some t ↦ t + 1 ]

-- `tiers[tier].push(step_id)`; an index out of range panics.
unfoldable pub collect_tiers :
    Map StepId ℕ → List StepId → List (List StepId) → Result (List (List StepId))
collect_tiers tier_of [] tiers = ok tiers
collect_tiers tier_of (id ∷ rest) tiers = elim (lookup tier_of id) [
  | none ↦ collect_tiers tier_of rest tiers
  | some t ↦ elim (get_elem? tiers t) [
    | none ↦ panic
    | some tier ↦ collect_tiers tier_of rest (set tiers t (tier ++ id ∷ []))
  ]
]

module _ (P : Petgraph) {A : Type 0} where
  unfoldable pub assign_tiers :
      ExecutionPlan P A → Map StepId ℕ → ℕ → List StepId → Map StepId ℕ × ℕ
  assign_tiers plan tier_of max_tier [] = (tier_of, max_tier)
  assign_tiers plan tier_of max_tier (id ∷ rest) =
      let tier = tier_for tier_of (dependencies_of P plan id) in
      assign_tiers plan (insert id tier tier_of) (if ltb max_tier tier then tier else max_tier) rest

  unfoldable pub compute_tiers : List StepId → ExecutionPlan P A → Result (List (List StepId))
  compute_tiers [] plan = ok []
  compute_tiers (id ∷ order) plan =
      let (tier_of, max_tier) = assign_tiers plan [] 0 (id ∷ order) in
      collect_tiers tier_of (id ∷ order) (replicate (max_tier + 1) [])
