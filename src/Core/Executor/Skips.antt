-- ===== src/Core/Executor/Skips.antt =====
-- When a step is skipped for the flags of its dependencies, and with which flags.
use magna.Base.{
  ℕ, ◌<◌, ◌≡◌, refl, sym, ap, ap₂, ◌∙◌, ◌⊎◌, inl, inr, Bool, true, false, not, ◌||◌, none, some,
  some_inj, List, [], ◌∷◌, lookup, nat_eq, length, length-replicate, get_elem?, get_elem?-replicate,
  replicate, arith, Bool-cases, Option-cases, lt-length_of_get,
}
use magna.Core.Flags.{StepFlags, flags_none, is_null, is_error}
use magna.Core.Step.{StepId, StepOutput, unit}
use magna.Core.Executor.{
  Outputs, mark_items, any_marked, all_flagged, mark_deps, skip_output, check_propagating_flags,
}
use magna.Core.Executor.Propagation.{
  flags_of, flag_at, any_at, any_at-none, any_at-some, or_assoc, or-false, or_right, mark_items-get,
  length-mark_items, any_marked_of, all_flagged-get, not_all_flagged, is_value-flags_of,
}

module _ {A : Type 0} (outputs : Outputs A) where
  -- Some dependency has NULL or ERROR at item `i`.
  abbrev pub flagged_at : List StepId → ℕ → Bool
  flagged_at deps i = any_at is_null outputs deps i || any_at is_error outputs deps i

  mark_deps-get :
      (deps : List StepId) (flags : List StepFlags) (any : Bool) (i : ℕ) (n e : Bool)
      → get_elem? flags i ≡ some (flags_of n e)
      → get_elem? (mark_deps deps outputs flags any).0 i
        ≡ some (flags_of (n || any_at is_null outputs deps i) (e || any_at is_error outputs deps i))
  unfolding mark_deps
  mark_deps-get [] flags any i n e h = rw (or-false n, or-false e) h
  mark_deps-get (d ∷ deps) flags any i n e h = elim (Option-cases (lookup outputs d)) [
    | inl no' ↦
        rw (no', mark_deps)
          (mark_deps-get deps flags any i n e h
            ∙ ap some (
                sym (
                  ap₂ (λ a b. flags_of (n || a) (e || b)) (any_at-none is_null outputs d deps i no')
                    (any_at-none is_error outputs d deps i no'))))
    | inr (o, at) ↦
        rw (at, mark_deps)
          (mark_deps-get deps (mark_items o.flags flags) (any || any_marked o.flags flags) i _ _
              (mark_items-get o.flags flags i n e h)
            ∙ ap some (
                ap₂ flags_of
                  (or_assoc n _ _
                    ∙ ap (λ a. n || a) (sym (any_at-some is_null outputs d deps i o at)))
                  (or_assoc e _ _
                    ∙ ap (λ a. e || a) (sym (any_at-some is_error outputs d deps i o at)))))
  ]

  length-mark_deps :
      (deps : List StepId) (flags : List StepFlags) (any : Bool)
      → length (mark_deps deps outputs flags any).0 ≡ length flags
  unfolding mark_deps
  length-mark_deps [] flags any = refl
  length-mark_deps (d ∷ deps) flags any = elim (Option-cases (lookup outputs d)) [
    | inl no' ↦ rw (no', mark_deps) (length-mark_deps deps flags any)
    | inr (o, at) ↦
        rw (at, mark_deps)
          (length-mark_deps deps (mark_items o.flags flags) _ ∙ length-mark_items o.flags flags)
  ]

  or_regroup : (a b c d : Bool) → (a || b) || (c || d) ≡ (a || c) || (b || d)
  or_regroup false false c d = refl
  or_regroup false true false d = refl
  or_regroup false true true d = refl
  or_regroup true b c d = refl

  mark_deps-any_true :
      (deps : List StepId) (flags : List StepFlags) → (mark_deps deps outputs flags true).1 ≡ true
  unfolding mark_deps
  mark_deps-any_true [] flags = refl
  mark_deps-any_true (d ∷ deps) flags = elim (Option-cases (lookup outputs d)) [
    | inl no' ↦ rw (no', mark_deps) (mark_deps-any_true deps flags)
    | inr (o, at) ↦ rw (at, mark_deps) (mark_deps-any_true deps (mark_items o.flags flags))
  ]

  mark_deps-any :
      (deps : List StepId) (flags : List StepFlags) (any : Bool) (i : ℕ)
      → i < length flags
      → flagged_at deps i ≡ true
      → (mark_deps deps outputs flags any).1 ≡ true
  unfolding mark_deps
  mark_deps-any [] flags any i lt h = cc h
  mark_deps-any (d ∷ deps) flags any i lt h = elim (Option-cases (lookup outputs d)) [
    | inl no' ↦
        rw (no', mark_deps)
          (mark_deps-any deps flags any i lt (
            sym (
              ap₂ ◌||◌ (any_at-none is_null outputs d deps i no')
                (any_at-none is_error outputs d deps i no'))
            ∙ h))
    | inr (o, at) ↦
        rw (at, mark_deps)
          (let split : ((flag_at is_null o.flags i || flag_at is_error o.flags i)
                  || flagged_at deps i)
                ≡ true =
              or_regroup (flag_at is_null o.flags i) (flag_at is_error o.flags i)
                (any_at is_null outputs deps i) (any_at is_error outputs deps i)
              ∙ sym (
                  ap₂ ◌||◌ (any_at-some is_null outputs d deps i o at)
                    (any_at-some is_error outputs d deps i o at))
              ∙ h in
            elim (Bool-cases (flag_at is_null o.flags i || flag_at is_error o.flags i)) [
              | inl here ↦
                  rw (or_right any _ (any_marked_of o.flags flags i lt here))
                    (mark_deps-any_true deps (mark_items o.flags flags))
              | inr not_here ↦
                  mark_deps-any deps (mark_items o.flags flags) _ i (rw length-mark_items lt)
                    (rw not_here at split)
            ])
  ]

  -- The output of a skipped step: unit values, and at each item the flags of the dependencies there.
  pub record Skipped (deps : List StepId) (n : ℕ) (o : StepOutput A) : Type 0 where
    pub values : o.values ≡ replicate n unit
    pub same_length : length o.flags ≡ n
    pub flags :
        (i : ℕ)
        → i < n
        → get_elem? o.flags i
          ≡ some (flags_of (any_at is_null outputs deps i) (any_at is_error outputs deps i))

  -- With at least one item, a step is skipped exactly when at every item some dependency has NULL
  -- or ERROR, so never for INHIBITED alone. Its output then has one unit value for each item, flagged NULL where a dependency is
  -- NULL there and ERROR where one is ERROR there, and nothing else.
  pub check_propagating_flags_cases :
      (deps : List StepId) (n : ℕ)
      → 0 < n
      → (((i : ℕ) → i < n → flagged_at deps i ≡ true)
          × ((o : StepOutput A) × (check_propagating_flags deps outputs n ≡ some o)
              × Skipped deps n o))
        ⊎ (((i : ℕ) × (i < n) × (flagged_at deps i ≡ false))
            × (check_propagating_flags deps outputs n ≡ none))
  unfolding check_propagating_flags skip_output
  check_propagating_flags_cases [] n pos = inr ((0, pos, refl), refl)
  check_propagating_flags_cases (d ∷ deps) n pos = elim (Bool-cases (all_flagged marks)) [
    | inl all ↦
        let each : (i : ℕ) → i < n → flagged_at (d ∷ deps) i ≡ true = λ i lt.
          let plain : not (flagged_at (d ∷ deps) i) ≡ false =
            sym (is_value-flags_of _ _) ∙ all_flagged-get marks i _ all (at i lt) in
          (ground arith) in
        let any : (mark_deps (d ∷ deps) outputs (replicate n flags_none) false).1 ≡ true =
          mark_deps-any (d ∷ deps) (replicate n flags_none) false 0
            (rw (length-replicate n flags_none) pos) (each 0 pos) in
        inl (
          each,
          (
            record { values = replicate n unit; flags = marks },
            rw (any, all, skip_output) refl,
            record { values = refl; same_length = size; flags = at },
          ),
        )
    | inr some_value ↦
        let (i, f, here, plain) = not_all_flagged marks some_value in
        let lt : i < n = rw size at (lt-length_of_get marks i f here) in
        let own : f
            ≡ flags_of (any_at is_null outputs (d ∷ deps) i)
                (any_at is_error outputs (d ∷ deps) i) =
          some_inj (sym here ∙ at i lt) in
        let free : not (flagged_at (d ∷ deps) i) ≡ true =
          sym (is_value-flags_of _ _) ∙ rw own at plain in
        inr ((i, lt, (ground arith)), off some_value)
  ]
    where
      marks : List StepFlags
      marks = (mark_deps (d ∷ deps) outputs (replicate n flags_none) false).0

      size : length marks ≡ n
      size =
          length-mark_deps (d ∷ deps) (replicate n flags_none) false ∙ length-replicate n flags_none

      at :
          (i : ℕ)
          → i < n
          → get_elem? marks i
            ≡ some (
                flags_of
                  (any_at is_null outputs (d ∷ deps) i)
                  (any_at is_error outputs (d ∷ deps) i))
      at i lt =
          mark_deps-get (d ∷ deps) (replicate n flags_none) false i false false
            (get_elem?-replicate n i flags_none lt)

      off : all_flagged marks ≡ false → check_propagating_flags (d ∷ deps) outputs n ≡ none
      off h = elim (Bool-cases (mark_deps (d ∷ deps) outputs (replicate n flags_none) false).1) [
        | inl any ↦ rw (any, h, skip_output, check_propagating_flags) refl
        | inr any ↦ rw (any, skip_output, check_propagating_flags) refl
      ]
