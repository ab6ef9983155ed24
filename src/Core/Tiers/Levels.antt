-- ===== src/Core/Tiers/Levels.antt =====
-- The tiers of an order that respects dependencies: each step stands in a later tier than all that
-- it depends on.
use magna.Base.{
  ℕ, ◌<◌, ◌≤◌, max, ◌≡◌, sym, inl, inr, if◌then◌else◌, List, [], ◌∷◌, ◌++◌, some, arith, Memᴰ,
  mem_cast, mem_left, mem_right, mem_split, mem_last, Map, lookup, insert, lookup-insert,
  lookup-insert_self, nat_eq, ◌==◌, ltb, IsDistinct, IsDistinct-middle, Option-cases, Bool-cases,
  eq_of_beq, beq_of_ne, append_assoc, append-nil, subst,
}
use magna.Core.Step.{StepId}
use magna.Core.Order.{IsTopological, IsTopological-mono}
use magna.Core.Petgraph.{Petgraph}
use magna.Core.Planner.{ExecutionPlan, dependencies_of}
use magna.Core.Planner.Index.{DependsOn}
use magna.Core.Tiers.{max_tier_of, tier_for, assign_tiers}

max_tier_of-bound :
    (tier_of : Map StepId ℕ) (deps : List StepId) (d t : ℕ)
    → Memᴰ d deps
    → lookup tier_of d ≡ some t
    → (m : ℕ) × (max_tier_of tier_of deps ≡ some m) × (t ≤ m)
unfolding max_tier_of
max_tier_of-bound tier_of [] d t m at = elim m [ ]
max_tier_of-bound tier_of (x ∷ deps) d t (Memᴰ.head p) at =
    let at' : lookup tier_of x ≡ some t = rw p at at in
    elim (Option-cases (max_tier_of tier_of deps)) [
      | inl e ↦ (t, rw (at', max_tier_of, e), omega arith)
      | inr (u, e) ↦ (max t u, rw (at', max_tier_of, e), omega arith)
    ]
max_tier_of-bound tier_of (x ∷ deps) d t (Memᴰ.tail m) at =
    let (u, e, le) = max_tier_of-bound tier_of deps d t m at in
    elim (Option-cases (lookup tier_of x)) [
      | inl no' ↦ (u, rw (no', max_tier_of, e), le)
      | inr (v, at') ↦ (max v u, rw (at', max_tier_of, e), omega (arith, le))
    ]

tier_for-after :
    (tier_of : Map StepId ℕ) (deps : List StepId) (d t : ℕ)
    → Memᴰ d deps
    → lookup tier_of d ≡ some t
    → t < tier_for tier_of deps
unfolding tier_for
tier_for-after tier_of [] d t m at = elim m [ ]
tier_for-after tier_of (x ∷ deps) d t m at =
    let (u, e, le) = max_tier_of-bound tier_of (x ∷ deps) d t m at in
    rw (e, tier_for) (omega (arith, le))

-- `id` has a tier, and all that it depends on has a lower one.
pub record HasTier (D : ℕ → ℕ → Type 0) (tier_of : Map StepId ℕ) (max_tier : ℕ) (id : StepId)
    : Type 0 where
  pub tier : ℕ
  pub at : lookup tier_of id ≡ some tier
  pub bound : tier ≤ max_tier
  pub above : (a : StepId) → D a id → (t : ℕ) × (lookup tier_of a ≡ some t) × (t < tier)

module _ (P : Petgraph) {A : Type 0} (plan : ExecutionPlan P A) where
  -- What holds of the map after the steps `done`.
  record Assigned (done : List StepId) (tier_of : Map StepId ℕ) (max_tier : ℕ) : Type 0 where
    has : (id : StepId) → Memᴰ id done → HasTier (DependsOn P plan) tier_of max_tier id
    only : (id t : ℕ) → lookup tier_of id ≡ some t → Memᴰ id done

  module _ (done : List StepId) (tier_of : Map StepId ℕ) (max_tier : ℕ)
      (h : Assigned done tier_of max_tier) (x : StepId) (new : ¬ Memᴰ x done)
      (deps : (a : StepId) → DependsOn P plan a x → Memᴰ a done) where
    abbrev own_tier : ℕ
    own_tier = tier_for tier_of (dependencies_of P plan x)

    abbrev next_map : Map StepId ℕ
    next_map = insert x own_tier tier_of

    abbrev next_max : ℕ
    next_max = if ltb max_tier own_tier then own_tier else max_tier

    next_max-bounds : (max_tier ≤ next_max) × (own_tier ≤ next_max)
    next_max-bounds = ground arith

    same_tier : (b s : ℕ) → lookup tier_of b ≡ some s → lookup next_map b ≡ some s
    same_tier b s at =
        rw (lookup-insert, beq_of_ne x b (λ p. new (mem_cast (sym p) (h.only b s at)))) at

    kept : (b : StepId) → Memᴰ b done → HasTier (DependsOn P plan) next_map next_max b
    kept b n =
        let r = h.has b n in
        record {
          tier = r.tier;
          at = same_tier b r.tier r.at;
          bound = omega (arith, r.bound, next_max-bounds.0);
          above = λ a dep. let (s, at, lt) = r.above a dep in (s, same_tier a s at, lt);
        }

    own : HasTier (DependsOn P plan) next_map next_max x
    own = record {
      tier = own_tier;
      at = lookup-insert_self x own_tier tier_of;
      bound = next_max-bounds.1;
      above = λ a dep.
          let r = h.has a (deps a dep) in
          (
            r.tier,
            same_tier a r.tier r.at,
            tier_for-after tier_of (dependencies_of P plan x) a r.tier dep r.at,
          );
    }

    Assigned-snoc : Assigned (done ++ x ∷ []) next_map next_max
    Assigned-snoc = record {
      has = λ b n. elim (mem_split done (x ∷ []) n) [
        | inl old ↦ kept b old
        | inr (Memᴰ.head p) ↦ subst (HasTier (DependsOn P plan) next_map next_max) (sym p) own
        | inr (Memᴰ.tail k) ↦ elim k [ ]
      ];
      only = λ b s at. elim (Bool-cases (x == b)) [
        | inl same ↦ mem_cast (eq_of_beq x b same) (mem_last done x)
        | inr other ↦ mem_left done (x ∷ []) (h.only b s (rw (lookup-insert, other) at at))
      ];
    }

  assign_tiers-Assigned :
      (done rest : List StepId) (tier_of : Map StepId ℕ) (max_tier : ℕ)
      → IsDistinct (done ++ rest)
      → IsTopological (DependsOn P plan) done rest
      → Assigned done tier_of max_tier
      → Assigned
          (done ++ rest)
          (assign_tiers P plan tier_of max_tier rest).0
          (assign_tiers P plan tier_of max_tier rest).1
  unfolding assign_tiers
  assign_tiers-Assigned done [] tier_of max_tier d t h = rw append-nil h
  assign_tiers-Assigned done (x ∷ rest) tier_of max_tier d t h =
      let new = IsDistinct-middle done x rest d in
      let shape : (done ++ x ∷ []) ++ rest ≡ done ++ x ∷ rest = append_assoc done (x ∷ []) rest in
      subst
        (λ ids.
          Assigned ids (assign_tiers P plan tier_of max_tier (x ∷ rest)).0
            (assign_tiers P plan tier_of max_tier (x ∷ rest)).1)
        shape
        (assign_tiers-Assigned (done ++ x ∷ []) rest _ _ (rw shape d)
          (IsTopological-mono (DependsOn P plan) (x ∷ done) (done ++ x ∷ []) rest
            (λ a. elim [
              | Memᴰ.head p ↦ mem_right done (x ∷ []) (Memᴰ.head p)
              | Memᴰ.tail n ↦ mem_left done (x ∷ []) n
            ])
            t.1)
          (Assigned-snoc done tier_of max_tier h x new t.0))

  pub assign_tiers_lem :
      (order : List StepId)
      → IsDistinct order
      → IsTopological (DependsOn P plan) [] order
      → (id : StepId) → Memᴰ id order
      → HasTier
          (DependsOn P plan)
          (assign_tiers P plan [] 0 order).0
          (assign_tiers P plan [] 0 order).1
          id
  unfolding lookup
  assign_tiers_lem order d t id m =
      (assign_tiers-Assigned [] order [] 0 d t
          (record { has = λ b n. elim n [ ]; only = λ b s e. cc })).has
        id m
