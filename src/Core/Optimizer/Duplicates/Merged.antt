-- ===== src/Core/Optimizer/Duplicates/Merged.antt =====
-- The step of `deduplicate`'s loop that is merged into an earlier one.
use magna.Base.{
  ◌≡◌, refl, sym, ap₂, ◌∙◌, ◌↔◌, ◌≢◌, inl, inr, false, List, [], ◌∷◌, ◌++◌, map, none, some, Memᴰ,
  mem_cast, mem_left, mem_split, mem_last, IsDistinct-append_last, Includes, Map, lookup, insert,
  lookup-insert, lookup-insert_self, nat_eq, ◌==◌, Bool-cases, eq_of_beq, beq_of_ne, ne_of_beq,
  some_inj, subst,
}
use magna.Core.Step.{StepId, ExecutableStep, StepFingerprint, fingerprint_eq}
use magna.Core.Order.{IsTopological-append, IsTopological-weaken}
use magna.Core.Optimizer.Passes.{resolve, remapped_fingerprint}
use magna.Core.Optimizer.Duplicates.Invariant.{Canonical, SameWork, Deduplicated}
use magna.Core.Optimizer.Duplicates.Kept.{fresh, closed_snoc, deps_of}

resolve-insert :
    (remap : Map StepId StepId) (x c a : StepId)
    → x ≢ a
    → resolve (insert x c remap) a ≡ resolve remap a
unfolding resolve
resolve-insert remap x c a ne = rw (lookup-insert, beq_of_ne x a ne, resolve)

map-resolve-insert :
    (remap : Map StepId StepId) (x c : StepId) (deps : List StepId)
    → ¬ Memᴰ x deps
    → map (resolve (insert x c remap)) deps ≡ map (resolve remap) deps
map-resolve-insert remap x c [] new = refl
map-resolve-insert remap x c (a ∷ deps) new =
    ap₂ ◌∷◌ (resolve-insert remap x c a (λ p. new (Memᴰ.head p)))
      (map-resolve-insert remap x c deps (λ m. new (Memᴰ.tail m)))

-- A later step of the same fingerprint is mapped to the first one.
module _ {A : Type 0} (steps : Map StepId (ExecutableStep A)) (done : List StepId)
    (seen : Map StepFingerprint StepId) (remap : Map StepId StepId) (to_remove : List StepId)
    (h : Deduplicated steps done seen remap to_remove) (x : StepId) (new : ¬ Memᴰ x done)
    (step : ExecutableStep A) (at : lookup steps x ≡ some step)
    (deps : Includes done step.dependencies) (c : StepId)
    (hit : lookup seen (remapped_fingerprint remap step) ≡ some c) where
  first :
      Memᴰ c done
      × (lookup remap c ≡ none)
      × ((s : ExecutableStep A) × (lookup steps c ≡ some s)
          × (remapped_fingerprint remap s ≡ remapped_fingerprint remap step))
  first = h.seen_sound (remapped_fingerprint remap step) c hit

  ne_done : (id : StepId) → Memᴰ id done → (x == id) ≡ false
  ne_done id m = beq_of_ne x id (λ p. new (mem_cast (sym p) m))

  -- A step whose dependencies are all done keeps its fingerprint.
  stable :
      (s : ExecutableStep A)
      → Includes done s.dependencies
      → remapped_fingerprint (insert x c remap) s ≡ remapped_fingerprint remap s
  unfolding remapped_fingerprint
  stable s sub =
      let e = map-resolve-insert remap x c s.dependencies (λ m. new (sub x m)) in
      λ i. record {
        type_id = s.fingerprint.type_id;
        dep_ids = e i;
        config_hash = s.fingerprint.config_hash;
      }

  stable_done :
      (id : StepId) (s : ExecutableStep A)
      → Memᴰ id done
      → lookup steps id ≡ some s
      → remapped_fingerprint (insert x c remap) s ≡ remapped_fingerprint remap s
  stable_done id s m at' = stable s (h.closed id s m at')

  kept_done :
      (id : StepId) → Memᴰ id done → lookup remap id ≡ none → lookup (insert x c remap) id ≡ none
  kept_done id m kept = rw (lookup-insert, ne_done id m) kept

  SameWork-insert :
      (id d : StepId)
      → Memᴰ id done
      → Memᴰ d done
      → SameWork steps remap id d
      → SameWork steps (insert x c remap) id d
  SameWork-insert id d m n w = record {
    step = w.step;
    twin = w.twin;
    at = w.at;
    at_twin = w.at_twin;
    same = stable_done id w.step m w.at ∙ w.same ∙ sym (stable_done d w.twin n w.at_twin);
  }

  SameWork-new : SameWork steps (insert x c remap) x c
  SameWork-new =
      let (m, kept, (s, at', e)) = first in
      record {
        step = step;
        twin = s;
        at = at;
        at_twin = at';
        same = stable step deps ∙ sym e ∙ sym (stable_done c s m at');
      }

  dup_remap :
      (id d : StepId)
      → lookup (insert x c remap) id ≡ some d
      → Memᴰ id (done ++ x ∷ [])
        × Memᴰ d (done ++ x ∷ [])
        × (lookup (insert x c remap) d ≡ none)
        × SameWork steps (insert x c remap) id d
  dup_remap id d e = elim (Bool-cases (x == id)) [
    | inl same ↦
        let p : x ≡ id = eq_of_beq x id same in
        let q : c ≡ d = some_inj (rw (lookup-insert, same) at e) in
        let (m, kept, _) = first in
        (
          mem_cast p (mem_last done x),
          mem_cast q (mem_left done (x ∷ []) m),
          rw (← q) (kept_done c m kept),
          subst (SameWork steps (insert x c remap) id) q
              (subst (λ t. SameWork steps (insert x c remap) t c) p SameWork-new),
        )
    | inr other ↦
        let (m, n, kept, w) = h.remap_sound id d (rw (lookup-insert, other) at e) in
        (
          mem_left done (x ∷ []) m,
          mem_left done (x ∷ []) n,
          kept_done d n kept,
          SameWork-insert id d m n w,
        )
  ]

  dup_removed :
      (id : StepId)
      → Memᴰ id (to_remove ++ x ∷ []) ↔ ((d : StepId) × (lookup (insert x c remap) id ≡ some d))
  dup_removed id = elim (Bool-cases (x == id)) [
    | inl same ↦
        rw (lookup-insert, same)
          (λ m. (c, refl), λ e. mem_cast (eq_of_beq x id same) (mem_last to_remove x))
    | inr other ↦
        rw (lookup-insert, other)
          (
            λ m. elim (mem_split to_remove (x ∷ []) m) [
              | inl old ↦ (h.removed id).0 old
              | inr (Memᴰ.head p) ↦ absurd (ne_of_beq x id other (sym p))
              | inr (Memᴰ.tail k) ↦ elim k [ ]
            ],
            λ e. mem_left to_remove (x ∷ []) ((h.removed id).1 e),
          )
  ]

  pub dup_step : Deduplicated steps (done ++ x ∷ []) seen (insert x c remap) (to_remove ++ x ∷ [])
  dup_step = record {
    closed =
        closed_snoc steps done seen remap to_remove h x new
          (deps_of steps done seen remap to_remove h x new step at deps);
    seen_sound = λ fp d e.
        let (m, kept, (s, at', same)) = h.seen_sound fp d e in
        (mem_left done (x ∷ []) m, kept_done d m kept, (s, at', stable_done d s m at' ∙ same));
    seen_complete = λ id s m at' kept. elim (mem_split done (x ∷ []) m) [
      | inl old ↦
          rw (stable_done id s old at')
            (h.seen_complete id s old at' (rw (lookup-insert, ne_done id old) at kept))
      | inr (Memᴰ.head p) ↦
          let clash : some c ≡ none = rw (p, lookup-insert_self x c remap) at kept in cc
      | inr (Memᴰ.tail k) ↦ elim k [ ]
    ];
    remap_sound = dup_remap;
    canonical_first =
        IsTopological-append (Canonical (insert x c remap)) [] done (x ∷ [])
          (IsTopological-weaken (Canonical remap) (Canonical (insert x c remap)) [] done
            (λ d id m e. rw (lookup-insert, ne_done id m) at e) h.canonical_first)
          (λ more _ has. (
            λ d e.
                let q : c ≡ d = some_inj (rw (lookup-insert_self x c remap) at e) in
                mem_cast q (has c first.0),
            tt,
          ));
    removed = dup_removed;
    removed_once = IsDistinct-append_last to_remove x h.removed_once (λ m.
        let (d, e) = (h.removed x).0 m in cc (fresh steps done seen remap to_remove h x new, e));
  }
