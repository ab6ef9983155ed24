-- ===== src/Core/Optimizer/Duplicates/Kept.antt =====
-- The steps of `deduplicate`'s loop that are passed over or kept.
use magna.Base.{
  ◌≡◌, sym, ◌∙◌, inl, inr, List, [], ◌∷◌, ◌++◌, none, some, Memᴰ, mem_cast, mem_left, mem_split,
  mem_last, Includes, Map, lookup, insert, lookup-insert, lookup-insert_self, nat_eq, ◌==◌,
  Bool-cases, Option-cases, eq_of_beq, beq_of_ne, some_inj, subst,
}
use magna.Core.Step.{StepId, ExecutableStep, StepFingerprint, fingerprint_eq}
use magna.Core.Order.{IsTopological, IsTopological-append}
use magna.Core.Optimizer.Passes.{remapped_fingerprint}
use magna.Core.Optimizer.Duplicates.Invariant.{Canonical, Deduplicated}

module _ {A : Type 0} (steps : Map StepId (ExecutableStep A)) where
  module _ (done : List StepId) (seen : Map StepFingerprint StepId) (remap : Map StepId StepId)
      (to_remove : List StepId) (h : Deduplicated steps done seen remap to_remove) (x : StepId)
      (new : ¬ Memᴰ x done) where
    -- `x` is not remapped yet.
    pub fresh : lookup remap x ≡ none
    fresh = elim (Option-cases (lookup remap x)) [
      | inl e ↦ e
      | inr (c, e) ↦ absurd (new (h.remap_sound x c e).0)
    ]

    pub closed_snoc :
        ((step : ExecutableStep A) → lookup steps x ≡ some step → Includes done step.dependencies)
        → (id : StepId) (step : ExecutableStep A) → Memᴰ id (done ++ x ∷ [])
        → lookup steps id ≡ some step
        → Includes (done ++ x ∷ []) step.dependencies
    closed_snoc deps id step m at a n = elim (mem_split done (x ∷ []) m) [
      | inl old ↦ mem_left done (x ∷ []) (h.closed id step old at a n)
      | inr (Memᴰ.head p) ↦ mem_left done (x ∷ []) (deps step (rw p at at) a n)
      | inr (Memᴰ.tail k) ↦ elim k [ ]
    ]

    -- One more step, which has no entry in the remap.
    first_snoc : IsTopological (Canonical remap) [] (done ++ x ∷ [])
    first_snoc =
        IsTopological-append (Canonical remap) [] done (x ∷ []) h.canonical_first
          (λ more _ _. (λ c e. cc (fresh, e), tt))

    -- A step that the plan does not hold is passed over.
    pub skip_step : lookup steps x ≡ none → Deduplicated steps (done ++ x ∷ []) seen remap to_remove
    skip_step absent = record {
      closed = closed_snoc (λ step at. cc (absent, at));
      seen_sound = λ fp c e.
          let (m, kept, twin) = h.seen_sound fp c e in (mem_left done (x ∷ []) m, kept, twin);
      seen_complete = λ id step m at kept. elim (mem_split done (x ∷ []) m) [
        | inl old ↦ h.seen_complete id step old at kept
        | inr (Memᴰ.head p) ↦ let at' : lookup steps x ≡ some step = rw p at at in cc (absent, at')
        | inr (Memᴰ.tail k) ↦ elim k [ ]
      ];
      remap_sound = λ id c e.
          let (m, n, kept, same) = h.remap_sound id c e in
          (mem_left done (x ∷ []) m, mem_left done (x ∷ []) n, kept, same);
      canonical_first = first_snoc;
      removed = h.removed;
      removed_once = h.removed_once;
    }

    module _ (step : ExecutableStep A) (at : lookup steps x ≡ some step)
        (deps : Includes done step.dependencies) where
      pub deps_of : (s : ExecutableStep A) → lookup steps x ≡ some s → Includes done s.dependencies
      deps_of s at' =
          subst (λ (t : ExecutableStep A). Includes done t.dependencies) (some_inj (sym at ∙ at'))
            deps

      -- The first step of its fingerprint is kept.
      pub keep_step :
          lookup seen (remapped_fingerprint remap step) ≡ none
          → Deduplicated steps
              (done ++ x ∷ [])
              (insert (remapped_fingerprint remap step) x seen)
              remap
              to_remove
      keep_step unseen = record {
        closed = closed_snoc deps_of;
        seen_sound = λ fp c e. elim (Bool-cases (remapped_fingerprint remap step == fp)) [
          | inl hit ↦
              let p : x ≡ c = some_inj (rw (lookup-insert, hit) at e) in
              (
                mem_cast p (mem_last done x),
                rw (← p) fresh,
                (step, rw (← p) at, eq_of_beq (remapped_fingerprint remap step) fp hit),
              )
          | inr other ↦
              let (m, kept, twin) = h.seen_sound fp c (rw (lookup-insert, other) at e) in
              (mem_left done (x ∷ []) m, kept, twin)
        ];
        seen_complete = λ id s m at' kept. elim (mem_split done (x ∷ []) m) [
          | inl old ↦
              let found = h.seen_complete id s old at' kept in
              rw
                (
                  lookup-insert,
                  beq_of_ne (remapped_fingerprint remap step) (remapped_fingerprint remap s) (λ p.
                      let found' : lookup seen (remapped_fingerprint remap step) ≡ some id =
                        rw p found in
                      cc (unseen, found')),
                )
                found
          | inr (Memᴰ.head p) ↦
              let own : step ≡ s = some_inj (sym at ∙ rw p at at') in
              rw (p, ← own) (lookup-insert_self (remapped_fingerprint remap step) x seen)
          | inr (Memᴰ.tail k) ↦ elim k [ ]
        ];
        remap_sound = λ id c e.
            let (m, n, kept, same) = h.remap_sound id c e in
            (mem_left done (x ∷ []) m, mem_left done (x ∷ []) n, kept, same);
        canonical_first = first_snoc;
        removed = h.removed;
        removed_once = h.removed_once;
      }
