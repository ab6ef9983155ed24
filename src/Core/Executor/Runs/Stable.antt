-- ===== src/Core/Executor/Runs/Stable.antt =====
-- A step reads the outputs of its dependencies and nothing else.
use magna.Base.{
  ℕ, ◌≡◌, refl, sym, ap, ap₂, ◌∙◌, ◌⊎◌, inl, inr, Bool, true, false, ◌&&◌, none, some, List, [],
  ◌∷◌, Memᴰ, Map, lookup, nat_eq, ◌==◌, ltb, length, replicate, Option-cases, Bool-cases, arith,
  suc,
}
use magna.Core.Flags.{StepFlags, flags_none}
use magna.Core.Step.{
  StepId, StepOutput, StepInputs, AnyValue, ExecutableStep, Result, ok, err, panic, ◌>>=◌,
  execution_error, join_failure,
}
use magna.Core.Executor.{
  Outputs, mark_deps, check_propagating_flags, skip_output, gather, settle, broadcast_unary,
  dep_ids,
}
use magna.Core.Executor.Runs.{finish, run_step, IsFlagged, CanPanic}

module _ {A : Type 0} where
  -- The two agree on the steps `deps`.
  abbrev pub Agree : List StepId → Outputs A → Outputs A → Type 0
  Agree deps o o' = (d : StepId) → Memᴰ d deps → lookup o d ≡ lookup o' d

  mark_deps-Agree :
      (deps : List StepId) (o o' : Outputs A) (flags : List StepFlags) (any : Bool)
      → Agree deps o o'
      → mark_deps deps o flags any ≡ mark_deps deps o' flags any
  unfolding mark_deps
  mark_deps-Agree [] o o' flags any h = refl
  mark_deps-Agree (d ∷ deps) o o' flags any h = elim (Option-cases (lookup o d)) [
    | inl e ↦
        let e' : lookup o' d ≡ none = sym (h d (Memᴰ.head refl)) ∙ e in
        rw (e, e', mark_deps) (mark_deps-Agree deps o o' flags any (λ x m. h x (Memᴰ.tail m)))
    | inr (v, e) ↦
        let e' : lookup o' d ≡ some v = sym (h d (Memᴰ.head refl)) ∙ e in
        rw (e, e', mark_deps) (mark_deps-Agree deps o o' _ _ (λ x m. h x (Memᴰ.tail m)))
  ]

  check-Agree :
      (deps : List StepId) (o o' : Outputs A) (n : ℕ)
      → Agree deps o o'
      → check_propagating_flags deps o n ≡ check_propagating_flags deps o' n
  unfolding check_propagating_flags
  check-Agree [] o o' n h = refl
  check-Agree (d ∷ deps) o o' n h =
      ap (λ r. skip_output r.0 r.1 n)
        (mark_deps-Agree (d ∷ deps) o o' (replicate n flags_none) false h)

  gather-Agree :
      (id : StepId) (deps : List StepId) (o o' : Outputs A)
      → Agree deps o o'
      → gather id deps o ≡ gather id deps o'
  unfolding gather
  gather-Agree id [] o o' h = refl
  gather-Agree id (d ∷ deps) o o' h = elim (Option-cases (lookup o d)) [
    | inl e ↦ let e' : lookup o' d ≡ none = sym (h d (Memᴰ.head refl)) ∙ e in rw (e, e', gather)
    | inr (v, e) ↦
        let e' : lookup o' d ≡ some v = sym (h d (Memᴰ.head refl)) ∙ e in
        rw (e, e', gather)
          (ap (λ r. r >>= λ rest. ok (v ∷ rest))
            (gather-Agree id deps o o' (λ x m. h x (Memᴰ.tail m))))
  ]

  pub run_step-Agree :
      (remap : Map StepId StepId) (n : ℕ) (o o' : Outputs A) (id : StepId) (step : ExecutableStep A)
      → Agree (dep_ids remap step) o o'
      → run_step remap n o id step ≡ run_step remap n o' id step
  run_step-Agree remap n o o' id step h =
      ap₂ (λ c g. finish c g step n) (check-Agree (dep_ids remap step) o o' n h)
        (gather-Agree id (dep_ids remap step) o o' h)

  -- The inputs are there when each dependency has an output.
  pub gather_total :
      (id : StepId) (deps : List StepId) (o : Outputs A)
      → ((d : StepId) → Memᴰ d deps → (v : StepOutput A) × (lookup o d ≡ some v))
      → (inputs : StepInputs A) × (gather id deps o ≡ ok inputs) × (length inputs ≡ length deps)
  unfolding gather
  gather_total id [] o has = ([], refl, refl)
  gather_total id (d ∷ deps) o has =
      let (v, e) = has d (Memᴰ.head refl) in
      let (inputs, r, len) = gather_total id deps o (λ x m. has x (Memᴰ.tail m)) in
      (v ∷ inputs, rw (e, gather, r) refl, ap suc len)

  broadcast_total :
      (o : StepOutput A) (n : ℕ)
      → length o.values ≡ length o.flags
      → (v : StepOutput A) × (broadcast_unary o n ≡ ok v)
  unfolding broadcast_unary
  broadcast_total o n h = go o.values o.flags h
    where
      go :
          (vs : List (AnyValue A)) (fs : List StepFlags)
          → length vs ≡ length fs
          → (v : StepOutput A) × (broadcast_unary (record { values = vs; flags = fs }) n ≡ ok v)
      go [] fs h = (_, refl)
      go (v ∷ vs) [] h = absurd (omega (arith, h))
      go (v ∷ vs) (f ∷ fs) h = elim (Bool-cases (length vs == 0 && ltb 1 n)) [
        | inl e ↦
            (record { values = replicate n v; flags = replicate n f }, rw (e, broadcast_unary) refl)
        | inr e ↦ (record { values = v ∷ vs; flags = f ∷ fs }, rw (e, broadcast_unary) refl)
      ]

  settle_cases :
      (unary : Bool) (r : Result (StepOutput A)) (n : ℕ)
      → ((o : StepOutput A) → r ≡ ok o → length o.values ≡ length o.flags)
      → ((v : StepOutput A) × (settle unary r n ≡ ok v))
        ⊎ ((r ≡ panic) × (settle unary r n ≡ err (execution_error join_failure)))
  unfolding settle
  settle_cases true (ok o) n h = inl (broadcast_total o n (h o refl))
  settle_cases false (ok o) n h = inl (o, refl)
  settle_cases unary (err e) n h = inl (_, refl)
  settle_cases unary panic n h = inr (refl, refl)

  -- A step whose dependencies have outputs leaves one, or its task panics.
  pub run_step_cases :
      (remap : Map StepId StepId) (n : ℕ) (o : Outputs A) (id : StepId) (step : ExecutableStep A)
      → IsFlagged step
      → ((d : StepId) → Memᴰ d (dep_ids remap step) → (v : StepOutput A) × (lookup o d ≡ some v))
      → ((v : StepOutput A) × (run_step remap n o id step ≡ ok v))
        ⊎ (CanPanic step × (run_step remap n o id step ≡ err (execution_error join_failure)))
  run_step_cases remap n o id step flagged has =
      elim (Option-cases (check_propagating_flags (dep_ids remap step) o n)) [
        | inr (v, e) ↦ inl (v, ap (λ c. finish c (gather id (dep_ids remap step) o) step n) e)
        | inl e ↦
            let (inputs, r, _) = gather_total id (dep_ids remap step) o has in
            elim (settle_cases step.is_unary (step.execute inputs) n (flagged inputs)) [
              | inl (v, s) ↦ inl (v, ap₂ (λ c g. finish c g step n) e r ∙ s)
              | inr (p, s) ↦ inr ((inputs, p), ap₂ (λ c g. finish c g step n) e r ∙ s)
            ]
      ]
