-- ===== src/Core/Optimizer/Duplicates/Invariant.antt =====
-- What `deduplicate` knows after each step of its loop.
use magna.Base.{◌≡◌, ◌↔◌, List, [], none, some, Memᴰ, IsDistinct, Includes, Map, lookup, nat_eq}
use magna.Core.Step.{StepId, ExecutableStep, StepFingerprint, fingerprint_eq}
use magna.Core.Order.{IsTopological}
use magna.Core.Optimizer.Passes.{remapped_fingerprint}

-- `b` names `a` among its dependencies.
abbrev pub NamesDep : {A : Type 0} → Map StepId (ExecutableStep A) → StepId → StepId → Type 0
NamesDep {A} steps a b =
    (step : ExecutableStep A) × (lookup steps b ≡ some step) × Memᴰ a step.dependencies

-- The step `c` stands for `id`.
abbrev pub Canonical : Map StepId StepId → StepId → StepId → Type 0
Canonical remap c id = lookup remap id ≡ some c

module _ {A : Type 0} (steps : Map StepId (ExecutableStep A)) where
  -- The two steps have one fingerprint over the steps that stand for their dependencies.
  pub record SameWork (remap : Map StepId StepId) (id canonical : StepId) : Type 0 where
    pub step : ExecutableStep A
    pub twin : ExecutableStep A
    pub at : lookup steps id ≡ some step
    pub at_twin : lookup steps canonical ≡ some twin
    pub same : remapped_fingerprint remap step ≡ remapped_fingerprint remap twin

  -- What holds after the steps `done`.
  pub record Deduplicated (done : List StepId) (seen : Map StepFingerprint StepId)
      (remap : Map StepId StepId) (to_remove : List StepId) : Type 0 where
    pub closed :
        (id : StepId) (step : ExecutableStep A)
        → Memᴰ id done
        → lookup steps id ≡ some step
        → Includes done step.dependencies
    pub seen_sound :
        (fp : StepFingerprint) (c : StepId)
        → lookup seen fp ≡ some c
        → Memᴰ c done
          × (lookup remap c ≡ none)
          × ((step : ExecutableStep A) × (lookup steps c ≡ some step)
              × (remapped_fingerprint remap step ≡ fp))
    pub seen_complete :
        (id : StepId) (step : ExecutableStep A)
        → Memᴰ id done
        → lookup steps id ≡ some step
        → lookup remap id ≡ none
        → lookup seen (remapped_fingerprint remap step) ≡ some id
    pub remap_sound :
        (id c : StepId)
        → lookup remap id ≡ some c
        → Memᴰ id done × Memᴰ c done × (lookup remap c ≡ none) × SameWork remap id c
    -- The step that stands for another one comes before it.
    pub canonical_first : IsTopological (Canonical remap) [] done
    pub removed : (id : StepId) → Memᴰ id to_remove ↔ ((c : StepId) × (lookup remap id ≡ some c))
    pub removed_once : IsDistinct to_remove

  pub Deduplicated-nil : Deduplicated [] [] [] []
  unfolding lookup
  Deduplicated-nil = record {
    closed = λ id step m. elim m [ ];
    seen_sound = λ fp c h. cc;
    seen_complete = λ id step m. elim m [ ];
    remap_sound = λ id c h. cc;
    canonical_first = tt;
    removed = λ id. (λ m. elim m [ ], λ h. cc h.1);
    removed_once = tt;
  }
