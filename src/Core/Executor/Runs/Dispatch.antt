-- ===== src/Core/Executor/Runs/Dispatch.antt =====
-- The loops over one tier.
use magna.Base.{
  ◌≡◌, refl, sym, ap, ap₂, ◌∙◌, ◌⊎◌, inl, inr, some, some_inj, List, [], ◌∷◌, ◌++◌, Memᴰ, mem_cast,
  mem_left, mem_last, lookup, insert, lookup-insert, lookup-insert_self, nat_eq, ◌==◌, Option-cases,
  Bool-cases, eq_of_beq, beq_of_ne, All, All-append, subst,
}
use magna.Core.Step.{StepId, StepOutput, ExecutableStep, Result, ok}
use magna.Core.Petgraph.{Petgraph}
use magna.Core.Planner.{get_step}
use magna.Core.Optimizer.Passes.{OptimizedPlan}
use magna.Core.Executor.{
  Outputs, Handle, check_propagating_flags, gather, settle, dep_ids, dispatch,
}
use magna.Core.Executor.Runs.{finish, run_step, IsFlagged}
use magna.Core.Executor.Runs.Stable.{Agree, run_step-Agree, gather_total}

abbrev pub Has : {A : Type 0} → Outputs A → StepId → Type 0
Has {A} o id = (v : StepOutput A) × (lookup o id ≡ some v)

pub Has-insert :
    {A : Type 0} (o : Outputs A) (x id : StepId) (v : StepOutput A)
    → Has o id
    → Has (insert x v o) id
Has-insert o x id v (w, e) = elim (Bool-cases (x == id)) [
  | inl same ↦ (v, rw (lookup-insert, same) refl)
  | inr other ↦ (w, rw (lookup-insert, other) e)
]

module _ (P : Petgraph) {A : Type 0} (out : OptimizedPlan P A) where
  -- The planned step `id`, run on its own over the outputs `o`, ends with `r`.
  pub record Ran (o : Outputs A) (id : StepId) (r : Result (StepOutput A)) : Type 0 where
    pub step : ExecutableStep A
    pub at : lookup out.plan.steps id ≡ some step
    pub runs : run_step out.remap out.plan.batch_size o id step ≡ r

  -- A tier of planned steps that are new and depend on steps with outputs only.
  pub record IsReady (o : Outputs A) (seen tier : List StepId) : Type 0 where
    pub planned :
        (id : StepId)
        → Memᴰ id tier
        → (step : ExecutableStep A) × (lookup out.plan.steps id ≡ some step)
    pub named :
        (id : StepId) (step : ExecutableStep A)
        → lookup out.plan.steps id ≡ some step
        → step.id ≡ id
    pub flagged :
        (id : StepId) (step : ExecutableStep A)
        → lookup out.plan.steps id ≡ some step
        → IsFlagged step
    pub deps :
        (id : StepId) (step : ExecutableStep A)
        → Memᴰ id tier
        → lookup out.plan.steps id ≡ some step
        → (d : StepId) → Memᴰ d (dep_ids out.remap step)
        → Memᴰ d seen
    pub fresh : (id : StepId) → Memᴰ id tier → ¬ Memᴰ id seen
    pub has : (id : StepId) → Memᴰ id seen → Has o id

  module _ (o : Outputs A) (seen tier : List StepId) (ready : IsReady o seen tier) where
    -- `now` has what `o` has for the steps `seen`, and beyond them outputs of the tier only.
    pub record Grown (now : Outputs A) : Type 0 where
      pub keeps : Agree seen o now
      pub only :
          (id : StepId) (v : StepOutput A)
          → lookup now id ≡ some v
          → Memᴰ id seen ⊎ (Memᴰ id tier × Ran o id (ok v))

    pub record Pending (h : Handle A) : Type 0 where
      pub listed : Memᴰ h.id tier
      pub ran : Ran o h.id (settle h.is_unary h.result out.plan.batch_size)

    -- The step has an output, or a handle.
    abbrev pub Covered : Outputs A → List (Handle A) → StepId → Type 0
    Covered now handles id = Has now id ⊎ ((h : Handle A) × Memᴰ h handles × (h.id ≡ id))

    pub Grown-insert :
        (now : Outputs A) (id : StepId) (v : StepOutput A)
        → Grown now
        → Memᴰ id tier
        → Ran o id (ok v)
        → Grown (insert id v now)
    Grown-insert now id v g m ran = record {
      keeps = λ d n.
          rw (lookup-insert, beq_of_ne id d (λ p. ready.fresh id m (mem_cast (sym p) n)))
            (g.keeps d n);
      only = λ b w e. elim (Bool-cases (id == b)) [
        | inl same ↦
            let p = eq_of_beq id b same in
            let q : v ≡ w = some_inj (rw (lookup-insert, same) at e) in
            inr (mem_cast p m, subst (λ u. Ran o b (ok u)) q (subst (λ u. Ran o u (ok v)) p ran))
        | inr other ↦ g.only b w (rw (lookup-insert, other) at e)
      ];
    }

    -- What `dispatch` leaves of the tier.
    pub record Dispatched (part : List StepId) (now : Outputs A) (handles : List (Handle A))
        : Type 0 where
      pub after : Outputs A
      pub spawned : List (Handle A)
      pub runs : dispatch P out part now handles ≡ ok (after, spawned)
      pub grown : Grown after
      pub pending : All Pending spawned
      pub still : (id : StepId) → Covered now handles id → Covered after spawned id
      pub covers : (id : StepId) → Memᴰ id part → Covered after spawned id

    -- The step is as if it ran on the outputs before the tier.
    runs_before :
        (now : Outputs A) (id : StepId) (step : ExecutableStep A)
        → Grown now
        → Memᴰ id tier
        → lookup out.plan.steps id ≡ some step
        → run_step out.remap out.plan.batch_size o id step
          ≡ run_step out.remap out.plan.batch_size now id step
    runs_before now id step g m at =
        run_step-Agree out.remap out.plan.batch_size o now id step
          (λ d n. g.keeps d (ready.deps id step m at d n))

    pub dispatch-Dispatched :
        (part : List StepId) (now : Outputs A) (handles : List (Handle A))
        → ((id : StepId) → Memᴰ id part → Memᴰ id tier)
        → Grown now
        → All Pending handles
        → Dispatched part now handles
    unfolding dispatch get_step
    dispatch-Dispatched [] now handles sub g ps = record {
      after = now;
      spawned = handles;
      runs = refl;
      grown = g;
      pending = ps;
      still = λ id c. c;
      covers = λ id m. elim m [ ];
    }
    dispatch-Dispatched (id ∷ part) now handles sub g ps =
        let m = sub id (Memᴰ.head refl) in
        let (step, at) = ready.planned id m in
        let n = out.plan.batch_size in
        let deps = dep_ids out.remap step in
        let own = runs_before now id step g m at in
        elim (Option-cases (check_propagating_flags deps now n)) [
          | inr (v, skip) ↦
              let ran : Ran o id (ok v) = record {
                step = step;
                at = at;
                runs = own ∙ ap (λ c. finish c (gather id deps now) step n) skip;
              } in
              let r =
                dispatch-Dispatched part (insert id v now) handles (λ b k. sub b (Memᴰ.tail k))
                  (Grown-insert now id v g m ran) ps in
              record {
                after = r.after;
                spawned = r.spawned;
                runs = rw (at, skip, dispatch, get_step) r.runs;
                grown = r.grown;
                pending = r.pending;
                still = λ b c.
                    r.still b (elim c [ inl h ↦ inl (Has-insert now id b v h) | inr h ↦ inr h ]);
                covers = λ b k. elim k [
                  | Memᴰ.head p ↦ r.still b (inl (v, rw p (lookup-insert_self id v now)))
                  | Memᴰ.tail k' ↦ r.covers b k'
                ];
              }
          | inl run ↦
              let (inputs, given, _) = gather_total id deps now (λ d k.
                let s = ready.deps id step m at d k in
                let (v, e) = ready.has d s in (v, sym (g.keeps d s) ∙ e)) in
              let h : Handle A = record {
                id = step.id;
                is_unary = step.is_unary;
                result = step.execute inputs;
              } in
              let name : step.id ≡ id = ready.named id step at in
              let pend : Pending h = record {
                listed = mem_cast (sym name) m;
                ran =
                    subst (λ b. Ran o b (settle step.is_unary (step.execute inputs) n)) (sym name)
                      (record {
                        step = step;
                        at = at;
                        runs = own ∙ ap₂ (λ c q. finish c q step n) run given;
                      });
              } in
              let r =
                dispatch-Dispatched part now (handles ++ h ∷ []) (λ b k. sub b (Memᴰ.tail k)) g
                  (All-append Pending handles (h ∷ []) ps (pend, tt)) in
              record {
                after = r.after;
                spawned = r.spawned;
                runs = rw (at, run, given, dispatch, get_step) r.runs;
                grown = r.grown;
                pending = r.pending;
                still = λ b c. r.still b (elim c [
                  | inl k ↦ inl k
                  | inr (j, k, e) ↦ inr (j, mem_left handles (h ∷ []) k, e)
                ]);
                covers = λ b k. elim k [
                  | Memᴰ.head p ↦ r.still b (inr (h, mem_last handles h, name ∙ sym p))
                  | Memᴰ.tail k' ↦ r.covers b k'
                ];
              }
        ]
