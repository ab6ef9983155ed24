-- ===== src/Core/Optimizer/Dedup.antt =====
-- What `deduplicate` makes of a plan.
use magna.Base.{
  ◌≡◌, refl, sym, ◌∙◌, ◌↔◌, inl, inr, Bool, true, false, List, [], ◌∷◌, none, some, some_inj, Memᴰ,
  mem_cast, Map, lookup, nat_eq, Option-cases,
}
use magna.Core.Step.{StepId, ExecutableStep, StepFingerprint, fingerprint_eq, ok}
use magna.Core.Order.{
  IsTopological, IsTopological-weaken, IsTopological-filter, filter, mem_filter, filter-IsDistinct,
}
use magna.Core.Petgraph.{Petgraph}
use magna.Core.Planner.{ExecutionPlan}
use magna.Core.Planner.Index.{IsPlanned, DependsOn}
use magna.Core.Planner.Orders.{IsPlan, IsPlan-IsWired, IsIdOrder}
use magna.Core.Optimizer.Passes.{
  resolve, remapped_fingerprint, find_duplicates, remove_steps, deduplicate,
}
use magna.Core.Optimizer.Duplicates.{
  NamesDep, Canonical, SameWork, Deduplicated, Deduplicated-nil, find_duplicates-Deduplicated,
}
use magna.Core.Optimizer.Removal.{Without, remove_steps-Without, Rebuilt, relink_remapped-Rebuilt}

is_kept : Map StepId StepId → StepId → Bool
is_kept remap id = elim (lookup remap id) [ none ↦ true | some c ↦ false ]

is_kept_iff :
    (remap : Map StepId StepId) (id : StepId) → (is_kept remap id ≡ true) ↔ (lookup remap id ≡ none)
unfolding is_kept
is_kept_iff remap id = elim (Option-cases (lookup remap id)) [
  | inl e ↦ rw (e, is_kept) (λ _. refl, λ _. refl)
  | inr (c, e) ↦ rw (e, is_kept) (λ h. cc, λ h. cc)
]

-- `b` names a step for which `a` stands.
abbrev Resolved :
    {A : Type 0} → Map StepId (ExecutableStep A) → Map StepId StepId → StepId → StepId → Type 0
Resolved steps remap a b = (dep : StepId) × NamesDep steps dep b × (resolve remap dep ≡ a)

module _ {A : Type 0} (steps : Map StepId (ExecutableStep A)) (remap : Map StepId StepId) where
  -- A step stands behind what stands for its dependencies.
  Resolved-IsTopological :
      (seen order : List StepId)
      → ((dep c : StepId) → Memᴰ dep seen → Canonical remap c dep → Memᴰ c seen)
      → IsTopological (NamesDep steps) seen order
      → IsTopological (Canonical remap) seen order
      → IsTopological (Resolved steps remap) seen order
  unfolding resolve
  Resolved-IsTopological seen [] closed t u = tt
  Resolved-IsTopological seen (b ∷ rest) closed t u = (
    λ a (dep, names, e). elim (Option-cases (lookup remap dep)) [
      | inl own ↦ mem_cast (rw (own, resolve) at e) (t.0 dep names)
      | inr (c, at) ↦ mem_cast (rw (at, resolve) at e) (closed dep c (t.0 dep names) at)
    ],
    Resolved-IsTopological (b ∷ seen) rest
        (λ dep c m at. elim m [
          | Memᴰ.head p ↦ Memᴰ.tail (u.0 c (rw p at at))
          | Memᴰ.tail n ↦ Memᴰ.tail (closed dep c n at)
        ])
        t.1 u.1,
  )

-- Every dependency that a planned step names is planned.
abbrev pub IsClosed : (P : Petgraph) {A : Type 0} → Map StepId StepId → ExecutionPlan P A → Type 0
IsClosed P {A} remap plan =
    (id : StepId) (step : ExecutableStep A)
    → lookup plan.steps id ≡ some step
    → (dep : StepId) → Memᴰ dep step.dependencies
    → IsPlanned P plan (resolve remap dep)

module _ (P : Petgraph) {A : Type 0} where
  -- `after` has the steps of `before` that `remap` does not map to a twin.
  pub record Merged (before : ExecutionPlan P A) (remap : Map StepId StepId)
      (after : ExecutionPlan P A) : Type 0 where
    pub valid : IsPlan P remap after
    pub closed : IsClosed P remap after
    pub same_size : after.batch_size ≡ before.batch_size
    pub kept :
        (id : StepId) (s : ExecutableStep A)
        → (lookup after.steps id ≡ some s)
          ↔ ((lookup before.steps id ≡ some s) × (lookup remap id ≡ none))
    pub twins :
        (id c : StepId)
        → lookup remap id ≡ some c
        → IsPlanned P before id × IsPlanned P after c × SameWork before.steps remap id c
    pub no_twins :
        (a b : StepId) (s t : ExecutableStep A)
        → lookup after.steps a ≡ some s
        → lookup after.steps b ≡ some t
        → remapped_fingerprint remap s ≡ remapped_fingerprint remap t
        → a ≡ b
    pub order : List StepId
    pub ordered : IsIdOrder P after order

  module _ (plan : ExecutionPlan P A) (h : IsPlan P [] plan) (whole : IsClosed P [] plan)
      (order : List StepId) (o : IsIdOrder P plan order) where
    pub names-IsTopological : IsTopological (NamesDep plan.steps) [] order
    unfolding resolve lookup
    names-IsTopological =
        IsTopological-weaken (DependsOn P plan) (NamesDep plan.steps) [] order
          (λ a b m (step, at, n).
            (IsPlan-IsWired P [] plan h b step at a).1
              (record { dep = a; listed = n; resolved = refl }, whole b step at a n))
          o.forward

    abbrev found_remap : Map StepId StepId
    found_remap = (find_duplicates plan.steps [] [] [] order).0

    abbrev gone : List StepId
    gone = (find_duplicates plan.steps [] [] [] order).1

    found :
        (seen : Map StepFingerprint StepId) × Deduplicated plan.steps order seen found_remap gone
    found =
        find_duplicates-Deduplicated plan.steps [] order [] [] [] (Deduplicated-nil plan.steps)
          o.distinct names-IsTopological

    gone-IsPlanned : (id : StepId) → Memᴰ id gone → IsPlanned P plan id
    gone-IsPlanned id m =
        let (c, at) = (found.1.removed id).0 m in (o.complete id).0 (found.1.remap_sound id c at).0

    rest_plan : Without P plan gone (remove_steps P gone plan)
    rest_plan = remove_steps-Without P gone plan h.indexed found.1.removed_once gone-IsPlanned

    not_gone : (id : StepId) → (¬ Memᴰ id gone) ↔ (lookup found_remap id ≡ none)
    not_gone id = elim (Option-cases (lookup found_remap id)) [
      | inl e ↦ (λ _. e, λ _ m. let (c, at) = (found.1.removed id).0 m in cc (e, at))
      | inr (c, at) ↦ (λ new. absurd (new ((found.1.removed id).1 (c, at))), λ e. cc (e, at))
    ]

    module _ (after : ExecutionPlan P A)
        (r : Rebuilt P found_remap (remove_steps P gone plan) after) where
      kept_iff :
          (id : StepId) (s : ExecutableStep A)
          → (lookup after.steps id ≡ some s)
            ↔ ((lookup plan.steps id ≡ some s) × (lookup found_remap id ≡ none))
      kept_iff id s = rw r.same_steps (
        λ e. let (old, new) = (rest_plan.kept id s).0 e in (old, (not_gone id).0 new),
        λ (old, e). (rest_plan.kept id s).1 (old, (not_gone id).1 e),
      )

      stands : (id : StepId) → IsPlanned P plan id → IsPlanned P after (resolve found_remap id)
      unfolding resolve
      stands id (s, at) = elim (Option-cases (lookup found_remap id)) [
        | inl own ↦ rw (own, resolve) (s, (kept_iff id s).1 (at, own))
        | inr (c, to) ↦
            let (_, m, kept, w) = found.1.remap_sound id c to in
            rw (to, resolve) (w.twin, (kept_iff c w.twin).1 (w.at_twin, kept))
      ]

      after-IsClosed : IsClosed P found_remap after
      unfolding resolve lookup
      after-IsClosed id step at dep m = stands dep (whole id step ((kept_iff id step).0 at).0 dep m)

      after_ordered : IsIdOrder P after (filter (is_kept found_remap) order)
      after_ordered = record {
        complete = λ id. (
          λ m.
              let (n, k) = (mem_filter (is_kept found_remap) order id).0 m in
              let (s, at) = (o.complete id).0 n in
              (s, (kept_iff id s).1 (at, (is_kept_iff found_remap id).0 k)),
          λ (s, at).
              let (old, e) = (kept_iff id s).0 at in
              (mem_filter (is_kept found_remap) order id).1
                ((o.complete id).1 (s, old), (is_kept_iff found_remap id).1 e),
        );
        distinct = filter-IsDistinct (is_kept found_remap) order o.distinct;
        forward =
            IsTopological-weaken _ (DependsOn P after) [] (filter (is_kept found_remap) order)
              (λ a b m dep.
                let (n, k) = (mem_filter (is_kept found_remap) order b).0 m in
                let (s, old) = (o.complete b).0 n in
                let at = (kept_iff b s).1 (old, (is_kept_iff found_remap b).0 k) in
                let (needs, (t, there)) =
                  (IsPlan-IsWired P found_remap after r.valid b s at a).0 dep in
                (
                  (needs.dep, (s, old, needs.listed), needs.resolved),
                  (is_kept_iff found_remap a).1 ((kept_iff a t).0 there).1,
                ))
              (IsTopological-filter (Resolved plan.steps found_remap) (is_kept found_remap) [] []
                order (λ a m. elim m [ ])
                (Resolved-IsTopological plan.steps found_remap [] order (λ dep c m. elim m [ ])
                  names-IsTopological found.1.canonical_first));
      }

      after_Merged : Merged plan found_remap after
      after_Merged = record {
        valid = r.valid;
        closed = after-IsClosed;
        same_size = r.same_size ∙ rest_plan.same_size;
        kept = kept_iff;
        twins = λ id c at.
            let (m, n, kept, w) = found.1.remap_sound id c at in
            ((o.complete id).0 m, (w.twin, (kept_iff c w.twin).1 (w.at_twin, kept)), w);
        no_twins = λ a b s t at_a at_b same.
            let (old_a, own_a) = (kept_iff a s).0 at_a in
            let (old_b, own_b) = (kept_iff b t).0 at_b in
            let hit_a = found.1.seen_complete a s ((o.complete a).1 (s, old_a)) old_a own_a in
            let hit_b = found.1.seen_complete b t ((o.complete b).1 (t, old_b)) old_b own_b in
            some_inj (sym (rw same at hit_a) ∙ hit_b);
        order = filter (is_kept found_remap) order;
        ordered = after_ordered;
      }

  -- Deduplication of a valid plan, in which all that a step depends on is planned, along one of
  -- its orders does not panic. It keeps the steps that it does not remap, maps each other one to a kept step of the same work, keeps no two steps of
  -- the same fingerprint, and the plan that is left is valid, closed and free of cycles.
  pub deduplicate-Merged :
      (plan : ExecutionPlan P A) (order : List StepId)
      → IsPlan P [] plan
      → IsClosed P [] plan
      → IsIdOrder P plan order
      → (after : ExecutionPlan P A) × (remap : Map StepId StepId) × (deduplicate P plan order
          ≡ ok (after, remap))
        × Merged plan remap after
  unfolding deduplicate
  deduplicate-Merged plan order h whole o =
      let (after, e, r) =
        relink_remapped-Rebuilt P (found_remap plan h whole order o) (gone plan h whole order o)
          plan h (rest_plan plan h whole order o).indexed (found plan h whole order o).1.removed in
      (
        after,
        found_remap plan h whole order o,
        rw (e, deduplicate),
        after_Merged plan h whole order o after r,
      )
