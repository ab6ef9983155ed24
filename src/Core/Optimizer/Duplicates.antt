-- ===== src/Core/Optimizer/Duplicates.antt =====
-- The loop of `deduplicate`: which steps it takes for duplicates, and of which step.
pub mod Invariant
pub mod Kept
pub mod Merged
use magna.Base.{
  ◌≡◌, refl, sym, ap₂, ◌∙◌, ◌↔◌, ◌≢◌, inl, inr, false, List, [], ◌∷◌, ◌++◌, map, none, some, Memᴰ,
  mem_cast, mem_left, mem_right, mem_split, mem_last, IsDistinct, IsDistinct-middle,
  IsDistinct-append_last, Includes, Map, lookup, insert, lookup-insert, lookup-insert_self, nat_eq,
  ◌==◌, Bool-cases, Option-cases, eq_of_beq, beq_of_ne, ne_of_beq, some_inj, subst, append_assoc,
  append-nil,
}
use magna.Core.Step.{StepId, ExecutableStep, StepFingerprint, fingerprint_eq}
use magna.Core.Order.{IsTopological, IsTopological-mono, IsTopological-append, IsTopological-weaken}
use magna.Core.Optimizer.Passes.{resolve, remapped_fingerprint, find_duplicates}
pub use magna.Core.Optimizer.Duplicates.Invariant.{
  NamesDep, Canonical, SameWork, Deduplicated, Deduplicated-nil,
}
use magna.Core.Optimizer.Duplicates.Kept.{skip_step, keep_step}
use magna.Core.Optimizer.Duplicates.Merged.{dup_step}

module _ {A : Type 0} (steps : Map StepId (ExecutableStep A)) where
  -- Over distinct steps in an order that respects the dependencies they name, the loop of
  -- `deduplicate` goes on from any point at which its invariant holds, and the invariant holds at
  -- the end for all steps: a fingerprint that was seen is that of one kept step, each kept step's
  -- is seen, and a step is remapped to a kept step before it that does the same work, and is then
  -- one of those to remove.
  pub find_duplicates-Deduplicated :
      (done rest : List StepId) (seen : Map StepFingerprint StepId) (remap : Map StepId StepId)
      (to_remove : List StepId)
      → Deduplicated steps done seen remap to_remove
      → IsDistinct (done ++ rest)
      → IsTopological (NamesDep steps) done rest
      → (seen' : Map StepFingerprint StepId) × Deduplicated steps
          (done ++ rest)
          seen'
          (find_duplicates steps seen remap to_remove rest).0
          (find_duplicates steps seen remap to_remove rest).1
  unfolding find_duplicates
  find_duplicates-Deduplicated done [] seen remap to_remove h d t = (seen, rw append-nil h)
  find_duplicates-Deduplicated done (x ∷ rest) seen remap to_remove h d t =
      let new = IsDistinct-middle done x rest d in
      let shape : (done ++ x ∷ []) ++ rest ≡ done ++ x ∷ rest = append_assoc done (x ∷ []) rest in
      let d' : IsDistinct ((done ++ x ∷ []) ++ rest) = rw shape d in
      let t' : IsTopological (NamesDep steps) (done ++ x ∷ []) rest =
        IsTopological-mono (NamesDep steps) (x ∷ done) (done ++ x ∷ []) rest
          (λ a. elim [
            | Memᴰ.head p ↦ mem_right done (x ∷ []) (Memᴰ.head p)
            | Memᴰ.tail m ↦ mem_left done (x ∷ []) m
          ])
          t.1 in
      elim (Option-cases (lookup steps x)) [
        | inl absent ↦
            let (s', r) =
              find_duplicates-Deduplicated (done ++ x ∷ []) rest seen remap to_remove
                (skip_step steps done seen remap to_remove h x new absent) d' t' in
            (s', rw (absent, find_duplicates, ← shape) r)
        | inr (step, at) ↦
            let deps = λ (a : StepId) (m : Memᴰ a step.dependencies). t.0 a (step, at, m) in
            elim (Option-cases (lookup seen (remapped_fingerprint remap step))) [
              | inl unseen ↦
                  let (s', r) =
                    find_duplicates-Deduplicated (done ++ x ∷ []) rest
                      (insert (remapped_fingerprint remap step) x seen) remap to_remove
                      (keep_step steps done seen remap to_remove h x new step at deps unseen) d'
                      t' in
                  (s', rw (at, unseen, find_duplicates, ← shape) r)
              | inr (c, hit) ↦
                  let (s', r) =
                    find_duplicates-Deduplicated (done ++ x ∷ []) rest seen (insert x c remap)
                      (to_remove ++ x ∷ [])
                      (dup_step steps done seen remap to_remove h x new step at deps c hit) d' t' in
                  (s', rw (at, hit, find_duplicates, ← shape) r)
            ]
      ]
